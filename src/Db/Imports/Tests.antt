-- ===== src/Db/Imports/Tests.antt =====
-- An import of Live/Encore/song.flac into the folder Music.
use strife.Base.{ℕ, ◌≡◌, refl, none, some, [], ◌∷◌, true}
use strife.Base.Result.{ok}
use strife.Db.Schema.{Db, NodeRecord, folder, JobType, ImportEntryRecord}
use strife.Base.Int.{pos}
use strife.Db.Samples.{three_folders, three_folders-IsHierarchy, db_of}
use strife.Db.Nodes.{get_node_by_id, insert_node, new_node, is_active_folder}
use strife.Db.Nodes.Invariant.{IsHierarchy}
use strife.Db.Jobs.{enqueue_job, new_job}
use strife.Db.Uploads.Finalization.{
  Finalized, insert_finalized_object, enqueue_metadata_job, new_object,
}
use strife.Db.Imports.{
  UpsertImportEntry, new_entry, upsert_import_entry, mark_importing, set_state, import_done,
}
use strife.Db.Imports.Finalization.{
  FinalizeImport, finalize_import, publish_import, ensure_import_destination, find_or_create_path,
  find_or_create_import_folder, imported_node,
}
use strife.Db.Imports.Finalization.Published.{finalize_import-IsHierarchy}
use strife.Db.Schema.{stable, importing}

abbrev seen : UpsertImportEntry
seen = record {
  source_id = 5;
  source_path = "Live/Encore/song.flac";
  source_size = 10;
  source_modified_at = 90;
}

abbrev entry : ImportEntryRecord
entry = new_entry 30 seen 100

entry_added : upsert_import_entry 30 seen 100 true [] ≡ ok (entry, entry ∷ [])
unfolding upsert_import_entry
entry_added = refl

abbrev checked : ImportEntryRecord
checked = set_state importing 120 (set_state stable 110 entry)

now_importing : mark_importing 30 120 (set_state stable 110 entry ∷ []) ≡ ok (checked, checked ∷ [])
unfolding mark_importing
now_importing = refl

abbrev stored : Finalized
stored = record {
  node_id = 4;
  object_id = 80;
  job_id = 90;
  original_storage_key = 61;
  byte_size = 10;
  mime_type = "audio/flac";
  checksum_sha256 = "c0ffee";
}

abbrev input : FinalizeImport
input = record {
  entry_id = 30;
  destination_folder_id = 2;
  directory_names = (6, "Live") ∷ (7, "Encore") ∷ [];
  display_name = "song.flac";
  object = stored;
  source_created_at = none;
  source_modified_at = 90;
}

abbrev before : Db
before = record (db_of three_folders) { import_entries = checked ∷ [] }

abbrev song : NodeRecord
song = imported_node input 7 130

-- Live is there, and Encore is created.
abbrev after : Db
after = record before {
  nodes = song ∷ new_node 7 3 "Encore" folder none none 130 ∷ three_folders;
  file_objects = new_object 4 stored 130 ∷ [];
  jobs = new_job 90 JobType.metadata_extraction 4 (pos 0) 130 ∷ [];
  import_entries = import_done 4 "c0ffee" 130 checked ∷ [];
}

song_imported : finalize_import input 130 before ≡ ok (song, after)
unfolding finalize_import publish_import ensure_import_destination find_or_create_path
    find_or_create_import_folder insert_node insert_finalized_object enqueue_metadata_job
    enqueue_job
song_imported = refl

finalize_import-IsHierarchy_example :
    IsHierarchy after.nodes
    × (get_node_by_id 4 after.nodes ≡ some song)
    × (d : ℕ) × (song ≡ imported_node input d 130)
    × (is_active_folder d after.nodes ≡ true)
finalize_import-IsHierarchy_example =
    finalize_import-IsHierarchy input 130 before after song checked refl refl song_imported
      three_folders-IsHierarchy
