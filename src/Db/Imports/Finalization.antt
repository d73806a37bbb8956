-- ===== src/Db/Imports/Finalization.antt =====
-- finalize_import of crates/db/src/lib.rs: the folders of the path, the file, and the entry.
pub mod Published
use strife.Base.{
  ℕ, String, Option, none, some, List, [], ◌∷◌, Bool, true, false, ◌&&◌, ◌||◌, not, ◌==◌, holds,
  str_eq, if◌then◌else◌, any, find, update_rows,
}
use strife.Base.Result.{Result, ok, err, ◌>>=◌, ◌>>◌, guard, ok_or, map_err}
use strife.Db.Schema.{
  Db, DbError, unique_violation, protocol, ImportEntryRecord, ImportEntryState, NodeRecord,
  NodeKind, folder, file,
}
use strife.Db.Nodes.{active, get_node_by_id, insert_node, new_node, is_active_folder}
use strife.Db.Uploads.Finalization.{Finalized, insert_finalized_object, enqueue_metadata_job}
use strife.Db.Imports.{get_import_entry, same_state, is_ready, import_done}

pub data FinalizeImportError : Type 0 where
  not_found not_ready name_conflict : FinalizeImportError
  database : DbError → FinalizeImportError

abbrev pub map_import_finalize_error : DbError → FinalizeImportError
map_import_finalize_error unique_violation = name_conflict
map_import_finalize_error e = database e

-- A directory's name comes with the id that is drawn for it if it is created; `object` has the
-- values of the stored file and the ids that are drawn.
pub record FinalizeImport : Type 0 where
  pub entry_id : ℕ
  pub destination_folder_id : ℕ
  pub directory_names : List (ℕ × String)
  pub display_name : String
  pub object : Finalized
  pub source_created_at : Option ℕ
  pub source_modified_at : ℕ

unfoldable pub ensure_import_destination :
    ℕ → List NodeRecord → Result FinalizeImportError (Unit {0})
ensure_import_destination folder_id nodes = guard (is_active_folder folder_id nodes) not_found

abbrev pub named_child : ℕ → String → NodeRecord → Bool
named_child parent_id name n = holds n.parent_id parent_id && (str_eq n.name name && active n)

unfoldable pub find_or_create_import_folder :
    ℕ → ℕ → String → ℕ → List NodeRecord → Result FinalizeImportError (ℕ × List NodeRecord)
find_or_create_import_folder id parent_id name now nodes =
    elim (find (named_child parent_id name) nodes) [
      | some n ↦ elim n.kind [ folder ↦ ok (n.id, nodes) | file ↦ err name_conflict ]
      | none ↦
          map_err map_import_finalize_error
            (insert_node (new_node id parent_id name folder none none now) nodes)
          >>= λ after. ok (id, after)
    ]

-- The loop over `directory_names`.
unfoldable pub find_or_create_path :
    List (ℕ × String) → ℕ → ℕ → List NodeRecord → Result FinalizeImportError (ℕ × List NodeRecord)
find_or_create_path [] parent_id now nodes = ok (parent_id, nodes)
find_or_create_path ((id, name) ∷ rest) parent_id now nodes =
    find_or_create_import_folder id parent_id name now nodes >>= λ r.
    find_or_create_path rest r.0 now r.1

abbrev pub load_imported_node :
    ImportEntryRecord → List NodeRecord → Result FinalizeImportError NodeRecord
load_imported_node entry nodes = do
  node_id ← ok_or entry.resulting_node_id (database protocol)
  ok_or (get_node_by_id node_id nodes) not_found

abbrev pub imported_node : FinalizeImport → ℕ → ℕ → NodeRecord
imported_node input parent_id now =
    new_node input.object.node_id parent_id input.display_name file input.source_created_at
      (some input.source_modified_at) now

unfoldable pub publish_import :
    FinalizeImport → ℕ → Db → Result FinalizeImportError (NodeRecord × Db)
publish_import input now db = do
  ensure_import_destination input.destination_folder_id db.nodes
  path ← find_or_create_path input.directory_names input.destination_folder_id now db.nodes
  let node = imported_node input path.0 now
  nodes ← map_err map_import_finalize_error (insert_node node path.1)
  objects ← map_err database (insert_finalized_object node.id input.object now db.file_objects)
  jobs ← map_err database (enqueue_metadata_job input.object.job_id node.id now db.jobs)
  ok (
    node,
    record db {
      nodes = nodes;
      file_objects = objects;
      jobs = jobs;
      import_entries =
          update_rows (λ e. e.id == input.entry_id)
            (import_done node.id input.object.checksum_sha256 now) db.import_entries;
    },
  )

unfoldable pub finalize_import :
    FinalizeImport → ℕ → Db → Result FinalizeImportError (NodeRecord × Db)
finalize_import input now db = do
  entry ← ok_or (get_import_entry input.entry_id db.import_entries) not_found
  if same_state entry.state ImportEntryState.imported
      then (load_imported_node entry db.nodes >>= λ node. ok (node, db))
      else if is_ready entry.state
      then publish_import input now db
      else err not_ready
