-- ===== src/Importer/Resumed.antt =====
-- import_entry of crates/importer/src/lib.rs on an entry that has its node already.
use strife.Base.{
  ℕ, String, true, ◌≡◌, refl, sym, subst, some, arith, inl, inr, Option-cases, Bool-cases,
}
use strife.Base.Result.{Result, ok, err, Result-cases}
use strife.Db.Schema.{ImportEntryRecord}
use strife.Importer.{World, ImportError, note_failure}
use strife.Importer.Entry.{
  SourceFile, Environment, import_entry, import_entry_inner, resumed, is_failed,
}
use strife.Db.Nodes.{get_node_by_id}
use strife.Db.Imports.{mark_imported, mark_import_failed}

abbrev Kept : World → World → Type 0
Kept w after = (after.objects ≡ w.objects) × (after.db.nodes ≡ w.db.nodes)

note_failure-Kept :
    {A : Type 0} (entry : ImportEntryRecord) (message : String) (now : ℕ)
    (r : Result ImportError A × World) (w : World)
    → Kept w r.1
    → Kept w (note_failure entry message now r).1
unfolding note_failure
note_failure-Kept entry message now (ok a, v) w h = h
note_failure-Kept entry message now (err x, v) w h =
    elim (Result-cases (mark_import_failed entry.id message now v.db.import_entries)) [
      | inl (e, bad) ↦ (ground arith, ground (arith, h.1))
      | inr (r, marked) ↦ (ground arith, ground (arith, h.1))
    ]

resumed-Kept :
    (entry : ImportEntryRecord) (env : Environment) (id now : ℕ) (w : World)
    → Kept w (resumed entry env id now w).1
resumed-Kept entry env id now w = elim (Option-cases (get_node_by_id id w.db.nodes)) [
  | inl gone ↦ (ground arith, ground arith)
  | inr (node, here) ↦ elim (Bool-cases (is_failed env.file.removal)) [
    | inl failed ↦ (ground arith, ground arith)
    | inr done ↦ elim (Option-cases entry.source_checksum) [
      | inl unknown ↦ (ground arith, ground arith)
      | inr (checksum, known) ↦
          elim (Result-cases
            (mark_imported entry.id node.id checksum now true w.db.import_entries)) [
              | inl (e, bad) ↦ (ground arith, ground arith)
              | inr (r, marked) ↦ (ground arith, ground arith)
            ]
    ]
  ]
]

-- The import of an entry that has its node depends on nothing of the watched file but how its removal
-- ends: whatever the file's size, time and bytes are, the result and what is left are the same, no
-- stored object is changed, and no node.
pub import_entry-ignores_file :
    (entry : ImportEntryRecord) (env : Environment) (file : SourceFile) (now : ℕ) (w : World)
    (id : ℕ)
    → entry.resulting_node_id ≡ some id
    → env.file.removal ≡ file.removal
    → (import_entry entry env now w ≡ import_entry entry (record env { file = file }) now w)
      × ((import_entry entry env now w).1.objects ≡ w.objects)
      × ((import_entry entry env now w).1.db.nodes ≡ w.db.nodes)
unfolding import_entry import_entry_inner
import_entry-ignores_file entry env file now w id has same =
    let inner : import_entry_inner entry env now w ≡ resumed entry env id now w = rw has refl in
    let kept =
      note_failure-Kept entry env.message now (import_entry_inner entry env now w) w
        (subst (λ r. Kept w r.1) (sym inner) (resumed-Kept entry env id now w)) in
    (rw (has, same) refl, kept.0, kept.1)
