-- ===== src/Importer/Tests.antt =====
-- Runs of an import. A second import of a path: the first import of the entry has published a file with the same key.
use strife.Base.{ℕ, ◌≡◌, refl, none, some, [], ◌∷◌, false}
use strife.Base.Int.{pos}
use strife.Base.Result.{ok}
use strife.Storage.Objects.{key_in_staging, key_in_originals, move_object, delete, put_stream}
use strife.Db.Schema.{NodeRecord, JobType, ImportEntryRecord, stable, importing}
use strife.Db.Samples.{three_folders, db_of}
use strife.Db.Nodes.{insert_node}
use strife.Db.Jobs.{enqueue_job, new_job}
use strife.Db.Uploads.Finalization.{
  Finalized, insert_finalized_object, enqueue_metadata_job, new_object,
}
use strife.Db.Imports.{
  new_entry, set_state, import_done, import_failed, mark_importing, set_import_entry_state,
}
use strife.Db.Imports.Finalization.{
  FinalizeImport, finalize_import, publish_import, ensure_import_destination, find_or_create_path,
  imported_node,
}
use strife.Base.Text.{codes}
use strife.Storage.{check}
use strife.Importer.{World, ensure_import_capacity, publish_staged, note_failure}
use strife.Importer.Entry.{
  Snapshot, SourceFile, removed, Environment, is_unsafe_path, import_entry, import_entry_inner,
  stage_import_entry, stream_if_stable,
}
use strife.Importer.Resumed.{import_entry-ignores_file}
use strife.Importer.Staged.{IsUnchanged, HasOriginal, import_entry-HasOriginal}

abbrev entry : ImportEntryRecord
entry = set_state stable 110 (
    new_entry 30
      (record {
        source_id = 5;
        source_path = "song.flac";
        source_size = 10;
        source_modified_at = 90;
      })
      100)

abbrev first_object : Finalized
first_object = record {
  node_id = 8;
  object_id = 79;
  job_id = 89;
  original_storage_key = 30;
  byte_size = 12;
  mime_type = "audio/flac";
  checksum_sha256 = "beef";
}

abbrev object : Finalized
object = record {
  node_id = 4;
  object_id = 80;
  job_id = 90;
  original_storage_key = 30;
  byte_size = 10;
  mime_type = "audio/flac";
  checksum_sha256 = "c0ffee";
}

abbrev input : FinalizeImport
input = record {
  entry_id = 30;
  destination_folder_id = 2;
  directory_names = [];
  display_name = "song.flac";
  object = object;
  source_created_at = none;
  source_modified_at = 90;
}

-- The node 8 stands for the first import; its object is in the store with the content 500.
abbrev before : World
before = record {
  db = record (db_of three_folders) {
    file_objects = new_object 8 first_object 50 ∷ [];
    import_entries = entry ∷ [];
  };
  objects =
      record { key = key_in_staging 30; content = 700 }
      ∷ record { key = key_in_originals 30; content = 500 }
      ∷ [];
}

abbrev song : NodeRecord
song = imported_node input 2 130

-- Both file objects have the key 30 now, and the first one's bytes are gone.
abbrev after : World
after = record {
  db = record before.db {
    nodes = song ∷ three_folders;
    file_objects = new_object 4 object 130 ∷ new_object 8 first_object 50 ∷ [];
    jobs = new_job 90 JobType.metadata_extraction 4 (pos 0) 130 ∷ [];
    import_entries = import_done 4 "c0ffee" 130 (set_state importing 130 entry) ∷ [];
  };
  objects = record { key = key_in_originals 30; content = 700 } ∷ [];
}

abbrev found : Snapshot
found = record { size = 10; modified = 90 }

abbrev env : Environment
env = record {
  usage = record { total_bytes = 1000; used_bytes = 100; available_bytes = 900 };
  guard = record { threshold_percent = 90 };
  file = record { before = some found; bytes = some 700; after = some found; removal = removed };
  checksum = λ c. "c0ffee";
  detect_mime = λ c. some "audio/flac";
  input = input;
  message = "";
}

all_imported : import_entry entry env 130 before ≡ (ok (some song), after)
unfolding import_entry import_entry_inner ensure_import_capacity check stage_import_entry
    stream_if_stable put_stream set_import_entry_state note_failure publish_staged mark_importing
    move_object delete finalize_import publish_import ensure_import_destination find_or_create_path
    insert_node insert_finalized_object enqueue_metadata_job enqueue_job
all_imported = refl

import_entry-HasOriginal_example :
    (is_unsafe_path (codes "song.flac") ≡ false)
    × (bytes : ℕ) × IsUnchanged entry env.file bytes
    × HasOriginal entry bytes before after
import_entry-HasOriginal_example =
    import_entry-HasOriginal entry env 130 before after song refl all_imported

-- The removal of the file failed after the transaction; then the file was replaced.
abbrev left_behind : ImportEntryRecord
left_behind = import_failed "" 120 (import_done 4 "c0ffee" 110 entry)

abbrev replaced : SourceFile
replaced = record { before = none; bytes = some 900; after = none; removal = removed }

import_entry-ignores_file_example :
    (import_entry left_behind env 130 after
      ≡ import_entry left_behind (record env { file = replaced }) 130 after)
    × ((import_entry left_behind env 130 after).1.objects ≡ after.objects)
    × ((import_entry left_behind env 130 after).1.db.nodes ≡ after.db.nodes)
import_entry-ignores_file_example =
    import_entry-ignores_file left_behind env replaced 130 after 4 refl refl
