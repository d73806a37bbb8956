-- ===== src/Importer/Published.antt =====
-- The database and the object store after an import of crates/importer/src/lib.rs.
use strife.Base.{ℕ, ◌≡◌, String, some, List, false, arith, inl, inr, Option-cases, ◌==◌}
use strife.Base.Result.{Result, ok, err, Result-cases}
use strife.Storage.Objects.{
  key_in_staging, key_in_originals, content_of, move_object, move_object-content_of,
}
use strife.Db.Schema.{NodeRecord, ImportEntryRecord}
use strife.Db.Imports.{mark_importing}
use strife.Db.Imports.Finalization.{FinalizeImport, finalize_import}
use strife.Importer.{World, ImportError, publish_staged, note_failure, import_input}

publish_staged-parts :
    (entry : ImportEntryRecord) (input : FinalizeImport) (now : ℕ) (w after : World)
    (n : NodeRecord)
    → publish_staged entry input now w ≡ (ok n, after)
    → (entries : List ImportEntryRecord) × (move_object
          (key_in_staging entry.id)
          (key_in_originals entry.id)
          w.objects
        ≡ some after.objects)
      × (finalize_import (import_input entry input) now (record w.db { import_entries = entries })
          ≡ ok (n, after.db))
unfolding publish_staged
publish_staged-parts entry input now w after n e =
    elim (Result-cases (mark_importing entry.id now w.db.import_entries)) [
      | inl (x, failed) ↦ ground arith
      | inr (r, marked) ↦
          elim (Option-cases
            (move_object (key_in_staging entry.id) (key_in_originals entry.id) w.objects)) [
              | inl missing ↦ ground arith
              | inr (objects, moved) ↦
                  elim (Result-cases (
                    finalize_import (import_input entry input) now
                      (record w.db { import_entries = r.1 }))) [
                        | inl (x, failed) ↦ ground arith
                        | inr (p, done) ↦ (r.1, ground arith, ground arith)
                      ]
            ]
    ]

pub note_failure-ok :
    {A : Type 0} (entry : ImportEntryRecord) (message : String) (now : ℕ)
    (r : Result ImportError A × World) (a : A) (after : World)
    → note_failure entry message now r ≡ (ok a, after)
    → r ≡ (ok a, after)
unfolding note_failure
note_failure-ok entry message now (ok b, v) a after h = h
note_failure-ok entry message now (err x, v) a after h = absurd (ground arith)

-- A publication that succeeds has stored the staged bytes under the entry's id, whatever was stored
-- there before, and has left every other original alone.
pub publish_staged-content_of :
    (entry : ImportEntryRecord) (input : FinalizeImport) (now : ℕ) (w after : World)
    (n : NodeRecord)
    → publish_staged entry input now w ≡ (ok n, after)
    → (content_of (key_in_originals entry.id) after.objects
        ≡ content_of (key_in_staging entry.id) w.objects)
      × ((i : ℕ)
          → entry.id == i ≡ false
          → content_of (key_in_originals i) after.objects
            ≡ content_of (key_in_originals i) w.objects)
publish_staged-content_of entry input now w after n e =
    let (entries, moved, done) = publish_staged-parts entry input now w after n e in
    let (there, others) =
      move_object-content_of (key_in_staging entry.id) (key_in_originals entry.id) w.objects
        after.objects moved in
    (there, λ i other. others (key_in_originals i) (ground arith) (ground arith))
