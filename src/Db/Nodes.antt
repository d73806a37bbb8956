-- ===== src/Db/Nodes.antt =====
-- The `nodes` table of crates/db/src/lib.rs: its constraints, and the creation of folders.
pub mod Tree
pub mod Invariant
pub mod Insertion
pub mod Move
mod Tests
pub mod Restated
pub mod Queries
use strife.Base.{
  ℕ, zero, suc, ◌+◌, ◌-◌, String, Option, none, some, List, [], ◌∷◌, ◌++◌, map, Bool, true, false,
  ◌&&◌, ◌||◌, not, ltb, leb, ◌==◌, holds, str_eq, if◌then◌else◌, any, elem, count, length,
  where_rows, update_rows, updated, order_by,
}
use strife.Base.Rows.{row}
use strife.Base.Result.{Result, ok, err, ◌>>=◌, ◌>>◌, guard, ok_or, map_err}
use strife.Domain.{FolderError, validate_name, validate_move_target}
use strife.Domain
use strife.Db.Schema.{
  DbError, unique_violation, foreign_key_violation, check_violation, query_canceled, NodeKind,
  folder, file, LifecycleState, trashed, deleted, NodeRecord,
}

abbrev pub is_active : LifecycleState → Bool
is_active LifecycleState.active = true
is_active _ = false

abbrev pub is_trashed : LifecycleState → Bool
is_trashed LifecycleState.trashed = true
is_trashed _ = false

abbrev pub is_folder : NodeKind → Bool
is_folder folder = true
is_folder file = false

abbrev pub active : NodeRecord → Bool
active n = is_active n.lifecycle_state

-- kind = 'folder' AND lifecycle_state = 'active'
abbrev pub active_folder : NodeRecord → Bool
active_folder n = is_folder n.kind && active n

abbrev pub get_node_by_id : ℕ → List NodeRecord → Option NodeRecord
get_node_by_id = row (λ n. n.id)

-- Equality of two nullable columns: NULL equals nothing.
abbrev pub same_parent : Option ℕ → Option ℕ → Bool
same_parent none q = false
same_parent (some p) q = holds q p

-- Two rows that the index nodes_active_sibling_name_unique tells apart.
abbrev pub same_sibling : NodeRecord → NodeRecord → Bool
same_sibling a b =
    (active a && active b) && (same_parent a.parent_id b.parent_id && str_eq a.name b.name)

-- Two rows that the primary key or that index tells apart.
abbrev pub node_clash : NodeRecord → NodeRecord → Bool
node_clash a b = b.id == a.id || same_sibling a b

abbrev pub node_exists : ℕ → List NodeRecord → Bool
node_exists id = any (λ n. n.id == id)

-- The foreign key of parent_id, which NULL satisfies.
abbrev pub parent_exists : Option ℕ → List NodeRecord → Bool
parent_exists none nodes = true
parent_exists (some p) nodes = node_exists p nodes

-- INSERT INTO nodes …: the CHECK, the unique indexes, and the foreign key.
unfoldable pub insert_node : NodeRecord → List NodeRecord → Result DbError (List NodeRecord)
insert_node n nodes =
    if holds n.parent_id n.id
    then err check_violation
    else if any (node_clash n) nodes
    then err unique_violation
    else if parent_exists n.parent_id nodes
    then ok (n ∷ nodes)
    else err foreign_key_violation

abbrev pub has_clash : List NodeRecord → Bool
has_clash [] = false
has_clash (n ∷ ns) = any (node_clash n) ns || has_clash ns

-- UPDATE nodes SET f WHERE p: the constraints are those of the table that it leaves. The statements
-- below give every row that they change its last parent and state, so no row clashes in between
-- that does not clash at the end.
unfoldable pub update_nodes :
    (NodeRecord → Bool)
    → (NodeRecord → NodeRecord)
    → List NodeRecord
    → Result DbError (List NodeRecord)
update_nodes p f nodes =
    let after = update_rows p f nodes in
    if any (λ n. holds n.parent_id n.id) after
    then err check_violation
    else if has_clash after
    then err unique_violation
    else if any (λ n. not (parent_exists n.parent_id after)) after
    then err foreign_key_violation
    else ok after

-- An error of a folder mutation: a rule, the folders in conflict, or the database.
pub data FolderMoveConflictReason : Type 0 where
  name_conflict cycle_detected : FolderMoveConflictReason

pub record FolderMoveConflict : Type 0 where
  pub id : ℕ
  pub name : String
  pub reason : FolderMoveConflictReason

pub data FolderMutationError : Type 0 where
  rule : FolderError → FolderMutationError
  move_conflict : List FolderMoveConflict → FolderMutationError
  database : DbError → FolderMutationError

abbrev pub map_mutation_error : DbError → FolderMutationError
map_mutation_error unique_violation = rule FolderError.name_conflict
map_mutation_error e = database e

abbrev pub new_node : ℕ → ℕ → String → NodeKind → Option ℕ → Option ℕ → ℕ → NodeRecord
new_node id parent_id name kind source_created_at source_modified_at now = record {
  id = id;
  parent_id = some parent_id;
  name = name;
  kind = kind;
  lifecycle_state = LifecycleState.active;
  source_created_at = source_created_at;
  source_modified_at = source_modified_at;
  created_at = now;
  updated_at = now;
}

-- SELECT EXISTS (… WHERE id = $1 AND kind = 'folder' AND lifecycle_state = 'active')
abbrev pub is_active_folder : ℕ → List NodeRecord → Bool
is_active_folder id = any (λ n. n.id == id && active_folder n)

unfoldable pub ensure_active_folder : ℕ → List NodeRecord → Result FolderMutationError (Unit {0})
ensure_active_folder folder_id nodes =
    guard (is_active_folder folder_id nodes) (rule FolderError.not_found)

unfoldable pub active_child_name_exists : ℕ → String → List NodeRecord → Bool
active_child_name_exists parent_id name =
    any (λ n. holds n.parent_id parent_id && (str_eq n.name name && active n))

unfoldable pub create_folder :
    ℕ → ℕ → String → ℕ → List NodeRecord → Result FolderMutationError (NodeRecord × List NodeRecord)
create_folder id parent_id name now nodes = do
  _ ← map_err rule (validate_name name)
  ensure_active_folder parent_id nodes
  let n = new_node id parent_id name folder none none now
  after ← map_err map_mutation_error (insert_node n nodes)
  ok (n, after)
