-- ===== src/Importer/Entry.antt =====
-- stage_import_entry, import_entry and recover_interrupted_imports of crates/importer/src/lib.rs.
use strife.Base.{
  ℕ, ◌+◌, String, Option, none, some, List, [], ◌∷◌, Bool, true, false, ◌&&◌, ◌||◌, any, not, ◌==◌,
  if◌then◌else◌,
}
use strife.Base.Result.{Result, ok, err}
use strife.Base.Text.{Text, codes, starts_with, same_text, split_char}
use strife.Storage.{DiskGuard, DiskUsage}
use strife.Storage.Objects.{StoredObject, content_of, key_in_staging, put_stream, delete}
use strife.Db.Schema.{DbError, NodeRecord, ImportEntryRecord}
use strife.Db.Nodes.{get_node_by_id}
use strife.Db.Imports.{
  mark_import_stable, reset_import_discovered, mark_imported, list_importing_entries,
}
use strife.Db.Imports.Finalization.{FinalizeImport}
use strife.Importer.{
  World, ImportError, storage, source, database, ensure_import_capacity, publish_staged,
  note_failure,
}

-- snapshot_regular_file: the size and the time of the last change
pub record Snapshot : Type 0 where
  pub size : ℕ
  pub modified : ℕ

pub data Removal : Type 0 where
  removed missing failed : Removal

-- The watched file in the course of an import: what the snapshots around the copy see, which fail for
-- what is not a regular file, the bytes that the copy reads, and how the removal ends.
pub record SourceFile : Type 0 where
  pub before : Option Snapshot
  pub bytes : Option ℕ
  pub after : Option Snapshot
  pub removal : Removal

pub data StabilityOutcome : Type 0 where
  stable changed : StabilityOutcome

-- is_absolute() || a component is ParentDir
abbrev pub is_unsafe_path : Text → Bool
is_unsafe_path path =
    starts_with (codes "/") path || any (λ part. same_text part (codes "..")) (split_char b'/' path)

abbrev pub same_snapshot : Snapshot → Option Snapshot → Bool
same_snapshot s none = false
same_snapshot s (some t) = s.size == t.size && s.modified == t.modified

abbrev pub expected : ImportEntryRecord → Snapshot
expected entry = record { size = entry.source_size; modified = entry.source_modified_at }

-- stream_if_stable_to, under the entry's key. A copy of a file that has changed meanwhile is deleted.
unfoldable pub stream_if_stable :
    ImportEntryRecord
    → SourceFile
    → List StoredObject
    → Result ImportError StabilityOutcome × List StoredObject
stream_if_stable entry file objects = elim file.before [
  | none ↦ (err source, objects)
  | some before ↦
      if not (same_snapshot (expected entry) (some before))
      then (ok changed, objects)
      else elim file.bytes [
        | none ↦ (err source, objects)
        | some bytes ↦
            let staged = put_stream (key_in_staging entry.id) bytes objects in
            if same_snapshot before file.after
            then (ok stable, staged)
            else (ok changed, delete (key_in_staging entry.id) staged)
      ]
]

abbrev pub with_entries :
    StabilityOutcome
    → Result DbError (ImportEntryRecord × List ImportEntryRecord)
    → World
    → Result ImportError StabilityOutcome × World
with_entries outcome (err e) w = (err (database e), w)
with_entries outcome (ok r) w = (ok outcome, record w { db = record w.db { import_entries = r.1 } })

-- The transition of the entry that the outcome asks for.
abbrev pub staged_as :
    ImportEntryRecord
    → ℕ
    → Result ImportError StabilityOutcome
    → World
    → Result ImportError StabilityOutcome × World
staged_as entry now (err e) w = (err e, w)
staged_as entry now (ok stable) w =
    with_entries stable (mark_import_stable entry.id now w.db.import_entries) w
staged_as entry now (ok changed) w =
    with_entries changed (reset_import_discovered entry.id now w.db.import_entries) w

unfoldable pub stage_import_entry :
    ImportEntryRecord → SourceFile → ℕ → World → Result ImportError StabilityOutcome × World
stage_import_entry entry file now w =
    if is_unsafe_path (codes entry.source_path)
    then (err source, w)
    else let r = stream_if_stable entry file w.objects in
      staged_as entry now r.0 (record w { objects = r.1 })

-- What the code reads and draws for one entry; `input` has the ids and what the path comes to.
pub record Environment : Type 0 where
  pub usage : DiskUsage
  pub guard : DiskGuard
  pub file : SourceFile
  pub checksum : ℕ → String
  pub detect_mime : ℕ → Option String
  pub input : FinalizeImport
  pub message : String

abbrev pub with_content : Environment → ℕ → String → FinalizeImport
with_content env content mime = record env.input {
  object = record env.input.object { checksum_sha256 = env.checksum content; mime_type = mime };
}

-- After the transaction the watched file is removed; that failure is one of the import.
abbrev pub source_removed :
    Removal → Result ImportError NodeRecord × World → Result ImportError (Option NodeRecord) × World
source_removed _ (err e, w) = (err e, w)
source_removed removed (ok n, w) = (ok (some n), w)
source_removed _ (ok n, w) = (err source, w)

abbrev pub inspected :
    ImportEntryRecord → Environment → ℕ → World → Result ImportError (Option NodeRecord) × World
inspected entry env now w = elim (content_of (key_in_staging entry.id) w.objects) [
  | none ↦ (err storage, w)
  | some content ↦ elim (env.detect_mime content) [
    | none ↦ (err storage, w)
    | some mime ↦
        source_removed env.file.removal (publish_staged entry (with_content env content mime) now w)
  ]
]

abbrev pub when_stable :
    ImportEntryRecord
    → Environment
    → ℕ
    → Result ImportError StabilityOutcome × World
    → Result ImportError (Option NodeRecord) × World
when_stable entry env now (err e, w) = (err e, w)
when_stable entry env now (ok changed, w) = (ok none, w)
when_stable entry env now (ok stable, w) = inspected entry env now w

abbrev pub with_marked :
    NodeRecord
    → Result DbError (ImportEntryRecord × List ImportEntryRecord)
    → World
    → Result ImportError (Option NodeRecord) × World
with_marked node (err e) w = (err (database e), w)
with_marked node (ok r) w = (ok (some node), record w { db = record w.db { import_entries = r.1 } })

abbrev pub is_failed : Removal → Bool
is_failed failed = true
is_failed _ = false

-- The entry has its node: only the removal of the watched file and the entry's state are left.
abbrev pub resumed :
    ImportEntryRecord → Environment → ℕ → ℕ → World → Result ImportError (Option NodeRecord) × World
resumed entry env node_id now w = elim (get_node_by_id node_id w.db.nodes) [
  | none ↦ (err source, w)
  | some node ↦ if is_failed env.file.removal then (err source, w) else elim entry.source_checksum [
    | none ↦ (err source, w)
    | some checksum ↦
        with_marked node (mark_imported entry.id node.id checksum now true w.db.import_entries) w
  ]
]

unfoldable pub import_entry_inner :
    ImportEntryRecord → Environment → ℕ → World → Result ImportError (Option NodeRecord) × World
import_entry_inner entry env now w = elim entry.resulting_node_id [
  | some node_id ↦ resumed entry env node_id now w
  | none ↦ elim (ensure_import_capacity env.usage entry.source_size env.guard) [
    | err e ↦ (err e, w)
    | ok percent ↦ when_stable entry env now (stage_import_entry entry env.file now w)
  ]
]

unfoldable pub import_entry :
    ImportEntryRecord → Environment → ℕ → World → Result ImportError (Option NodeRecord) × World
import_entry entry env now w =
    note_failure entry env.message now (import_entry_inner entry env now w)

-- A failure has the error in place of its text.
pub record RecoveryReport : Type 0 where
  pub attempted : ℕ
  pub completed : ℕ
  pub failures : List (ℕ × ImportError)

abbrev pub counted : ℕ → Result ImportError (Option NodeRecord) → RecoveryReport → RecoveryReport
counted id (ok (some n)) r = record r { attempted = 1 + r.attempted; completed = 1 + r.completed }
counted id (ok none) r = record r { attempted = 1 + r.attempted }
counted id (err e) r = record r { attempted = 1 + r.attempted; failures = (id, e) ∷ r.failures }

unfoldable pub replay :
    (ImportEntryRecord → Environment) → List ImportEntryRecord → ℕ → World → RecoveryReport × World
replay env [] now w = (record { attempted = 0; completed = 0; failures = [] }, w)
replay env (e ∷ es) now w =
    let r = import_entry e (env e) now w in
    let rest = replay env es now r.1 in (counted e.id r.0 rest.0, rest.1)

unfoldable pub recover_interrupted_imports :
    (ImportEntryRecord → Environment) → ℕ → World → RecoveryReport × World
unfolding replay
recover_interrupted_imports env now w =
    replay env (list_importing_entries w.db.import_entries) now w
