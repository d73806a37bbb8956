-- ===== src/Db/Trash.antt =====
-- Trash and restore of crates/db/src/lib.rs.
pub mod Selection
pub mod Restoration
pub mod Deletion
pub mod Listing
mod Tests
pub mod Entries
use strife.Base.{
  ℕ, zero, suc, ◌+◌, ◌-◌, ◌≤◌, String, Option, none, some, List, [], ◌∷◌, ◌++◌, map, Bool, true,
  false, ◌&&◌, ◌||◌, not, ltb, leb, ◌==◌, holds, str_eq, is_some, if◌then◌else◌, any, elem, count,
  length, where_rows, update_rows, updated, order_by, find, take,
}
use strife.Base.Rows.{row}
use strife.Base.Result.{Result, ok, err, ◌>>=◌, ◌>>◌, guard, ok_or, map_err}
use strife.Base.Int.{pos}
use strife.Domain.{FolderError}
use strife.Db.Schema.{
  Db, DbError, unique_violation, foreign_key_violation, query_canceled, row_not_found,
  LifecycleState, NodeRecord, TrashEntry, Favorite, root_node_id, JobRecord, JobType, JobState,
}
use strife.Db.Nodes.{
  active, is_active_folder, is_trashed, get_node_by_id, node_exists, update_nodes,
}
use strife.Db.Nodes.Tree.{
  ids, trashed_row, collect_trashed_subtree_ids, collect_active_subtree_ids, ancestors_of,
}
use strife.Db.Nodes.Move.{sorted_ids, by_name, or_else}

pub data TrashMutationError : Type 0 where
  rule : FolderError → TrashMutationError
  cannot_trash_root not_trashed : TrashMutationError
  database : DbError → TrashMutationError

-- A recursive query that does not end is cancelled.
abbrev pub query {ℓ} : {A : Type ℓ} → Option A → Result TrashMutationError A
query o = ok_or o (database query_canceled)

-- The selected rows that have no selected ancestor.
unfoldable pub outer_roots :
    List NodeRecord → List ℕ → List NodeRecord → Result TrashMutationError (List NodeRecord)
outer_roots [] selected nodes = ok []
outer_roots (root ∷ roots) selected nodes = do
  ancestors ← query (ancestors_of root.id nodes)
  rest ← outer_roots roots selected nodes
  ok (if any (λ a. elem a selected) ancestors then rest else root ∷ rest)

-- scheduled_purge_at DEFAULT now() + INTERVAL '30 days', in microseconds
abbrev pub retention : ℕ
retention = 2592000000000

abbrev pub new_entry : (ℕ → ℕ) → ℕ → NodeRecord → TrashEntry
new_entry new_id now root = record {
  id = new_id root.id;
  node_id = root.id;
  original_parent_id = root.parent_id;
  trashed_at = now;
  scheduled_purge_at = now + retention;
}

-- Two rows of trash_entries that the primary key or UNIQUE (node_id) tells apart.
abbrev pub entry_clash : TrashEntry → TrashEntry → Bool
entry_clash a b = b.id == a.id || b.node_id == a.node_id

-- One INSERT for each outer root; `new_id` says which UUID was drawn for the entry of a root.
unfoldable pub insert_entries :
    (ℕ → ℕ) → ℕ → List NodeRecord → List TrashEntry → Result TrashMutationError (List TrashEntry)
insert_entries new_id now [] entries = ok entries
insert_entries new_id now (root ∷ roots) entries =
    let rest = insert_entries new_id now roots (new_entry new_id now root ∷ entries) in
    if any (entry_clash (new_entry new_id now root)) entries
    then err (database unique_violation)
    else rest

abbrev pub selected_row : List ℕ → NodeRecord → Bool
selected_row selected n = elem n.id selected && active n

abbrev pub set_state : LifecycleState → ℕ → NodeRecord → NodeRecord
set_state state now n = record n { lifecycle_state = state; updated_at = now }

abbrev pub remove_favorites : List ℕ → List Favorite → List Favorite
remove_favorites gone = where_rows (λ f. not (elem f.node_id gone))

-- The transaction of trash_nodes, for sorted distinct ids that are not the root's.
unfoldable pub trash_selected :
    (String → String → Bool)
    → (ℕ → ℕ)
    → List ℕ
    → ℕ
    → Db
    → Result TrashMutationError (List NodeRecord × Db)
trash_selected name_le new_id selected now db = do
  let roots = where_rows (selected_row selected) db.nodes
  guard (length roots == length selected) (rule FolderError.not_found)
  top_level ← outer_roots roots selected db.nodes
  all_ids ← query (collect_active_subtree_ids (ids top_level) db.nodes)
  nodes ←
      map_err database
        (update_nodes (selected_row all_ids) (set_state LifecycleState.trashed now) db.nodes)
  entries ← insert_entries new_id now top_level db.trash_entries
  ok (
    order_by (by_name name_le) (where_rows (λ n. elem n.id (ids top_level)) nodes),
    record db {
      nodes = nodes;
      trash_entries = entries;
      favorites = remove_favorites all_ids db.favorites;
    },
  )

-- The tests of trash_nodes before its transaction.
abbrev pub trash_sorted :
    (String → String → Bool)
    → (ℕ → ℕ)
    → List ℕ
    → ℕ
    → Db
    → Result TrashMutationError (List NodeRecord × Db)
trash_sorted name_le new_id [] now db = ok ([], db)
trash_sorted name_le new_id (i ∷ is) now db =
    if elem root_node_id (i ∷ is)
    then err cannot_trash_root
    else trash_selected name_le new_id (i ∷ is) now db

unfoldable pub trash_nodes :
    (String → String → Bool)
    → (ℕ → ℕ)
    → List ℕ
    → ℕ
    → Db
    → Result TrashMutationError (List NodeRecord × Db)
trash_nodes name_le new_id node_ids now db =
    trash_sorted name_le new_id (sorted_ids node_ids) now db

abbrev pub first_node : List NodeRecord × Db → Result TrashMutationError (NodeRecord × Db)
first_node ([], db) = err (rule FolderError.not_found)
first_node (n ∷ ns, db) = ok (n, db)

unfoldable pub trash_node :
    (String → String → Bool) → (ℕ → ℕ) → ℕ → ℕ → Db → Result TrashMutationError (NodeRecord × Db)
trash_node name_le new_id node_id now db =
    trash_nodes name_le new_id (node_id ∷ []) now db >>= first_node

abbrev pub entry_of : ℕ → List TrashEntry → Option TrashEntry
entry_of node_id = row (λ e. e.node_id) node_id

unfoldable pub lock_trash_entry : ℕ → List TrashEntry → Result TrashMutationError TrashEntry
lock_trash_entry node_id entries = ok_or (entry_of node_id entries) not_trashed

unfoldable pub lock_trashed_node : ℕ → List NodeRecord → Result TrashMutationError NodeRecord
lock_trashed_node node_id nodes =
    ok_or (find (λ n. n.id == node_id && trashed_row n) nodes) (rule FolderError.not_found)

unfoldable pub resolve_restore_parent : Option ℕ → List NodeRecord → ℕ
resolve_restore_parent none nodes = root_node_id
resolve_restore_parent (some p) nodes = if is_active_folder p nodes then p else root_node_id

unfoldable pub ensure_restore_name_available :
    ℕ → String → ℕ → List NodeRecord → Result TrashMutationError (Unit {0})
ensure_restore_name_available parent_id name node_id nodes =
    if any
      (λ n.
        (holds n.parent_id parent_id && str_eq n.name name) && (active n && not (n.id == node_id)))
      nodes
    then err (rule FolderError.name_conflict)
    else ok tt

abbrev pub map_restore_error : DbError → TrashMutationError
map_restore_error unique_violation = rule FolderError.name_conflict
map_restore_error e = database e

abbrev pub reactivate : ℕ → ℕ → ℕ → NodeRecord → NodeRecord
reactivate node_id restore_parent now n = record n {
  parent_id = if n.id == node_id then some restore_parent else n.parent_id;
  lifecycle_state = LifecycleState.active;
  updated_at = now;
}

unfoldable pub reactivate_trashed_subtree :
    ℕ → ℕ → List ℕ → ℕ → List NodeRecord → Result TrashMutationError (List NodeRecord)
reactivate_trashed_subtree node_id restore_parent subtree_ids now nodes =
    map_err map_restore_error (
      update_nodes (λ n. elem n.id subtree_ids && trashed_row n)
        (reactivate node_id restore_parent now) nodes)

unfoldable pub restore_node : ℕ → ℕ → Db → Result TrashMutationError (NodeRecord × Db)
restore_node node_id now db = do
  entry ← lock_trash_entry node_id db.trash_entries
  node ← lock_trashed_node node_id db.nodes
  let restore_parent =
      resolve_restore_parent (or_else entry.original_parent_id node.parent_id) db.nodes
  ensure_restore_name_available restore_parent node.name node_id db.nodes
  subtree_ids ← query (collect_trashed_subtree_ids node_id db.nodes)
  nodes ← reactivate_trashed_subtree node_id restore_parent subtree_ids now db.nodes
  restored ← ok_or (get_node_by_id node_id nodes) (rule FolderError.not_found)
  ok (
    restored,
    record db {
      nodes = nodes;
      trash_entries = where_rows (λ e. not (e.id == entry.id)) db.trash_entries;
    },
  )
