-- ===== src/Importer.antt =====
-- crates/importer/src/lib.rs: the import of one staged entry into the database and the object store.
pub mod Published
pub mod Entry
pub mod Staged
pub mod Recovery
pub mod Resumed
mod Tests
use strife.Base.{ℕ, String, Option, none, some, List, Bool, if◌then◌else◌}
use strife.Base.Result.{Result, ok, err}
use strife.Storage.{DiskGuard, DiskUsage, check}
use strife.Storage.Objects.{StoredObject, key_in_staging, key_in_originals, move_object, delete}
use strife.Db.Schema.{Db, DbError, NodeRecord, ImportEntryRecord}
use strife.Db.Uploads.Finalization.{Finalized}
use strife.Db.Imports.{
  mark_importing, mark_import_stable, mark_import_failed, reset_import_discovered,
}
use strife.Db.Imports.Finalization.{FinalizeImport, FinalizeImportError, finalize_import}

-- The database and the files of the storage backend.
pub record World : Type 0 where
  pub db : Db
  pub objects : List StoredObject

pub data ImportError : Type 0 where
  disk_full : ℕ → ImportError
  storage source : ImportError
  database : DbError → ImportError
  finalize : FinalizeImportError → ImportError

-- ensure_import_capacity, for the usage that the backend reports
unfoldable pub ensure_import_capacity : DiskUsage → ℕ → DiskGuard → Result ImportError ℕ
ensure_import_capacity usage incoming_bytes guard = elim (check guard usage incoming_bytes) [
  | ok percent ↦ ok percent
  | err e ↦ err (disk_full e.usage_percent)
]

-- The object is stored under the entry's id.
abbrev pub stored_as : ImportEntryRecord → Finalized → Finalized
stored_as entry object = record object {
  original_storage_key = entry.id;
  byte_size = entry.source_size;
}

abbrev pub import_input : ImportEntryRecord → FinalizeImport → FinalizeImport
import_input entry input = record input {
  entry_id = entry.id;
  object = stored_as entry input.object;
  source_modified_at = entry.source_modified_at;
}

-- From the checkpoint to the transaction's result. `input` has what the path, the checksum and the
-- MIME type come to, and the ids that are drawn. What was done before an error stays done.
unfoldable pub publish_staged :
    ImportEntryRecord → FinalizeImport → ℕ → World → Result ImportError NodeRecord × World
publish_staged entry input now w = elim (mark_importing entry.id now w.db.import_entries) [
  | err e ↦ (err (database e), w)
  | ok r ↦
      let db = record w.db { import_entries = r.1 } in
      elim (move_object (key_in_staging entry.id) (key_in_originals entry.id) w.objects) [
        | none ↦ (err storage, record { db = db; objects = w.objects })
        | some objects ↦ elim (finalize_import (import_input entry input) now db) [
          | ok p ↦ (ok p.0, record { db = p.1; objects = objects })
          | err e ↦ (
            err (finalize e),
            record { db = db; objects = delete (key_in_originals entry.id) objects },
          )
        ]
      ]
]

abbrev mark_failed : ImportEntryRecord → String → ℕ → Db → Db
mark_failed entry message now db =
    elim (mark_import_failed entry.id message now db.import_entries) [
      | ok r ↦ record db { import_entries = r.1 }
      | err e ↦ db
    ]

-- import_entry: an error is recorded on the entry. `message` is the error's text.
unfoldable pub note_failure :
    {A : Type 0}
    → ImportEntryRecord
    → String
    → ℕ
    → Result ImportError A × World
    → Result ImportError A × World
note_failure entry message now (ok n, w) = (ok n, w)
note_failure entry message now (err e, w) =
    (err e, record w { db = mark_failed entry message now w.db })
