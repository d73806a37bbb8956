-- ===== src/Importer/Staged.antt =====
-- import_entry of crates/importer/src/lib.rs, from the watched file to the stored original.
use strife.Base.{
  ℕ, ◌≡◌, refl, ◌∙◌, ap, none, some, List, false, arith, inl, inr, Option-cases, Bool-cases, ◌==◌,
}
use strife.Base.Result.{Result, ok, err, Result-cases}
use strife.Base.Text.{codes}
use strife.Storage.Objects.{
  StoredObject, key_in_staging, key_in_originals, content_of, put_stream, put_stream-content_of,
}
use strife.Db.Imports.{mark_import_stable, reset_import_discovered}
use strife.Db.Schema.{DbError, NodeRecord, ImportEntryRecord}
use strife.Importer.{World, ImportError, ensure_import_capacity, publish_staged}
use strife.Importer.Published.{publish_staged-content_of, note_failure-ok}
use strife.Importer.Entry.{
  Snapshot, SourceFile, Removal, removed, Environment, StabilityOutcome, stable, changed,
  same_snapshot, expected, stream_if_stable, with_entries, staged_as, stage_import_entry,
  with_content, source_removed, inspected, when_stable, import_entry_inner, import_entry,
  is_unsafe_path,
}

-- The file was, before and after the copy, as the scan had found it, and `bytes` are what was read.
abbrev pub IsUnchanged : ImportEntryRecord → SourceFile → ℕ → Type 0
IsUnchanged entry file bytes =
    (s t : Snapshot) × (file.before ≡ some s)
    × (file.after ≡ some t)
    × (s.size ≡ entry.source_size)
    × (s.modified ≡ entry.source_modified_at)
    × (t.size ≡ entry.source_size)
    × (t.modified ≡ entry.source_modified_at)
    × (file.bytes ≡ some bytes)

abbrev Copied : ImportEntryRecord → SourceFile → List StoredObject → List StoredObject → Type 0
Copied entry file objects staged =
    (bytes : ℕ) × IsUnchanged entry file bytes
    × (staged ≡ put_stream (key_in_staging entry.id) bytes objects)

stream_if_stable-Copied :
    (entry : ImportEntryRecord) (file : SourceFile) (objects staged : List StoredObject)
    → stream_if_stable entry file objects ≡ (ok stable, staged)
    → Copied entry file objects staged
unfolding stream_if_stable
stream_if_stable-Copied entry file objects staged e = elim (Option-cases file.before) [
  | inl gone ↦ absurd (ground arith)
  | inr (s, before) ↦ elim (Bool-cases (same_snapshot (expected entry) (some s))) [
    | inr other ↦ absurd (ground arith)
    | inl same ↦ elim (Option-cases file.bytes) [
      | inl closed ↦ absurd (ground arith)
      | inr (bytes, read) ↦ elim (Option-cases file.after) [
        | inl lost ↦ absurd (ground arith)
        | inr (t, after) ↦ elim (Bool-cases (same_snapshot s (some t))) [
          | inr moved ↦ absurd (ground arith)
          | inl still ↦ (
            bytes,
            (s, t, before, after, ground arith, ground arith, ground arith, ground arith, read),
            ground arith,
          )
        ]
      ]
    ]
  ]
]

with_entries-objects :
    (o : StabilityOutcome) (r : Result DbError (ImportEntryRecord × List ImportEntryRecord))
    (w v : World)
    → with_entries o r w ≡ (ok stable, v)
    → (o ≡ stable) × (v.objects ≡ w.objects)
with_entries-objects o (err x) w v e = absurd (ground arith)
with_entries-objects o (ok r) w v e = (ground arith, ground arith)

staged_as-objects :
    (entry : ImportEntryRecord) (now : ℕ) (r : Result ImportError StabilityOutcome) (w v : World)
    → staged_as entry now r w ≡ (ok stable, v)
    → (r ≡ ok stable) × (v.objects ≡ w.objects)
staged_as-objects entry now (err x) w v e = absurd (ground arith)
staged_as-objects entry now (ok stable) w v e = (
  refl,
  (with_entries-objects stable (mark_import_stable entry.id now w.db.import_entries) w v e).1,
)
staged_as-objects entry now (ok changed) w v e = absurd (
    ground (
      arith,
      (with_entries-objects changed (reset_import_discovered entry.id now w.db.import_entries) w v
          e).0,
    ))

stage_import_entry-Copied :
    (entry : ImportEntryRecord) (file : SourceFile) (now : ℕ) (w v : World)
    → stage_import_entry entry file now w ≡ (ok stable, v)
    → (is_unsafe_path (codes entry.source_path) ≡ false) × Copied entry file w.objects v.objects
unfolding stage_import_entry
stage_import_entry-Copied entry file now w v e =
    elim (Bool-cases (is_unsafe_path (codes entry.source_path))) [
      | inl unsafe ↦ absurd (ground arith)
      | inr safe ↦
          let r = stream_if_stable entry file w.objects in
          let (is_stable, kept) =
            staged_as-objects entry now r.0 (record w { objects = r.1 }) v (rw safe at e) in
          (safe, stream_if_stable-Copied entry file w.objects v.objects cc)
    ]

source_removed-some :
    (removal : Removal) (r : Result ImportError NodeRecord × World) (n : NodeRecord) (after : World)
    → source_removed removal r ≡ (ok (some n), after)
    → r ≡ (ok n, after)
source_removed-some _ (err x, v) n after e = absurd (ground arith)
source_removed-some removed (ok m, v) n after e = ground arith
source_removed-some Removal.missing (ok m, v) n after e = absurd (ground arith)
source_removed-some Removal.failed (ok m, v) n after e = absurd (ground arith)

-- The original of an import whose staged bytes are `bytes`, and the other originals.
abbrev pub HasOriginal : ImportEntryRecord → ℕ → World → World → Type 0
HasOriginal entry bytes w after =
    (content_of (key_in_originals entry.id) after.objects ≡ some bytes)
    × ((i : ℕ)
        → entry.id == i ≡ false
        → content_of (key_in_originals i) after.objects ≡ content_of (key_in_originals i) w.objects)

inspected-HasOriginal :
    (entry : ImportEntryRecord) (env : Environment) (now bytes : ℕ) (w v after : World)
    (n : NodeRecord)
    → v.objects ≡ put_stream (key_in_staging entry.id) bytes w.objects
    → inspected entry env now v ≡ (ok (some n), after)
    → HasOriginal entry bytes w after
inspected-HasOriginal entry env now bytes w v after n copied e =
    elim (Option-cases (content_of (key_in_staging entry.id) v.objects)) [
      | inl lost ↦ absurd (ground arith)
      | inr (content, here) ↦ elim (Option-cases (env.detect_mime content)) [
        | inl unknown ↦ absurd (ground arith)
        | inr (mime, detected) ↦
            let input = with_content env content mime in
            let published =
              source_removed-some env.file.removal (publish_staged entry input now v) n after
                (ground arith) in
            let (there, others) = publish_staged-content_of entry input now v after n published in
            let (own, kept) = put_stream-content_of (key_in_staging entry.id) bytes w.objects in
            (
              there ∙ ap (content_of (key_in_staging entry.id)) copied ∙ own,
              λ i other.
                  others i other
                  ∙ ap (content_of (key_in_originals i)) copied
                  ∙ kept (key_in_originals i) (ground arith),
            )
      ]
    ]

when_stable-some :
    (entry : ImportEntryRecord) (env : Environment) (now : ℕ)
    (r : Result ImportError StabilityOutcome × World) (n : NodeRecord) (after : World)
    → when_stable entry env now r ≡ (ok (some n), after)
    → (r.0 ≡ ok stable) × (inspected entry env now r.1 ≡ (ok (some n), after))
when_stable-some entry env now (err x, v) n after e = absurd (ground arith)
when_stable-some entry env now (ok changed, v) n after e = absurd (ground arith)
when_stable-some entry env now (ok stable, v) n after e = (refl, e)

-- An import that gives a node to an entry that had none has stored, under the entry's id, the bytes
-- that were read from the watched file, which was before and after the copy as the scan had found it.
-- The entry's path is not absolute and has no part `..`, and every other original is as it was.
pub import_entry-HasOriginal :
    (entry : ImportEntryRecord) (env : Environment) (now : ℕ) (w after : World) (n : NodeRecord)
    → entry.resulting_node_id ≡ none
    → import_entry entry env now w ≡ (ok (some n), after)
    → (is_unsafe_path (codes entry.source_path) ≡ false)
      × (bytes : ℕ) × IsUnchanged entry env.file bytes
      × HasOriginal entry bytes w after
unfolding import_entry import_entry_inner
import_entry-HasOriginal entry env now w after n new e =
    let inner =
      note_failure-ok entry env.message now (import_entry_inner entry env now w) (some n) after e in
    elim (Result-cases (ensure_import_capacity env.usage entry.source_size env.guard)) [
      | inl (x, full) ↦ absurd (ground arith)
      | inr (percent, fits) ↦
          let r = stage_import_entry entry env.file now w in
          let (is_stable, seen) = when_stable-some entry env now r n after (ground arith) in
          let (safe, copy) = stage_import_entry-Copied entry env.file now w r.1 cc in
          let (bytes, unchanged, copied) = copy in
          (
            safe,
            bytes,
            unchanged,
            inspected-HasOriginal entry env now bytes w r.1 after n copied seen,
          )
    ]
