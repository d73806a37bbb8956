-- ===== src/Importer/Recovery.antt =====
-- recover_interrupted_imports of crates/importer/src/lib.rs: what the report counts.
use strife.Base.{ℕ, suc, ◌+◌, ◌≡◌, refl, ◌≤◌, Option, none, some, List, [], ◌∷◌, arith, length}
use strife.Base.Result.{Result, ok, err}
use strife.Db.Schema.{NodeRecord, ImportEntryRecord}
use strife.Db.Imports.{list_importing_entries}
use strife.Importer.{World, ImportError}
use strife.Importer.Entry.{
  Environment, import_entry, RecoveryReport, counted, replay, recover_interrupted_imports,
}

abbrev Counts : ℕ → RecoveryReport → Type 0
Counts n r = (r.attempted ≡ n) × (r.completed + length r.failures ≤ r.attempted)

counted-Counts :
    (id n : ℕ) (o : Result ImportError (Option NodeRecord)) (r : RecoveryReport)
    → Counts n r
    → Counts (suc n) (counted id o r)
counted-Counts id n (ok (some m)) r h = (ground arith, ground arith)
counted-Counts id n (ok none) r h = (ground arith, ground arith)
counted-Counts id n (err e) r h = (ground arith, ground arith)

replay-Counts :
    (env : ImportEntryRecord → Environment) (entries : List ImportEntryRecord) (now : ℕ) (w : World)
    → Counts (length entries) (replay env entries now w).0
unfolding replay
replay-Counts env [] now w = (refl, ground arith)
replay-Counts env (e ∷ es) now w =
    let r = import_entry e (env e) now w in
    counted-Counts e.id (length es) r.0 (replay env es now r.1).0 (replay-Counts env es now r.1)

-- One failure does not stop the recovery: as many entries are tried as were interrupted, and each is
-- completed, or reported as a failure, or has changed since.
pub recover_interrupted_imports-Counts :
    (env : ImportEntryRecord → Environment) (now : ℕ) (w : World)
    → Counts
        (length (list_importing_entries w.db.import_entries))
        (recover_interrupted_imports env now w).0
unfolding recover_interrupted_imports
recover_interrupted_imports-Counts env now w =
    replay-Counts env (list_importing_entries w.db.import_entries) now w
