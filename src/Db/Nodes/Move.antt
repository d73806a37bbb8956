-- ===== src/Db/Nodes/Move.antt =====
-- update_folder and move_folders of crates/db/src/lib.rs.
pub mod Kept
pub mod Acyclic
use strife.Base.{
  ℕ, String, Option, none, some, List, [], ◌∷◌, ◌++◌, map, Bool, ◌&&◌, ◌||◌, not, ltb, leb, ◌==◌,
  holds, str_eq, if◌then◌else◌, any, elem, count, length, where_rows, updated, order_by,
}
use strife.Base.Result.{Result, ok, err, ◌>>=◌, ◌>>◌, guard, ok_or, map_err}
use strife.Domain.{FolderError, validate_name, validate_move_target}
use strife.Db.Schema.{DbError, unique_violation, query_canceled, NodeRecord}
use strife.Db.Nodes.{
  active, active_folder, update_nodes, ensure_active_folder, FolderMutationError, rule,
  move_conflict, database, map_mutation_error, FolderMoveConflict, FolderMoveConflictReason,
}
use strife.Db.Nodes.Tree.{descendant_ids}

-- COALESCE($2, …)
abbrev pub coalesce {ℓ} : {A : Type ℓ} → Option A → A → A
coalesce none a = a
coalesce (some b) a = b

abbrev pub or_else {ℓ} : {A : Type ℓ} → Option A → Option A → Option A
or_else none a = a
or_else (some b) a = some b

abbrev pub set_folder : Option String → Option ℕ → ℕ → NodeRecord → NodeRecord
set_folder name parent_id now n = record n {
  name = coalesce name n.name;
  parent_id = or_else parent_id n.parent_id;
  updated_at = now;
}

abbrev pub check_name : Option String → Result FolderMutationError (Unit {0})
check_name none = ok tt
check_name (some name) = map_err rule (validate_name name) >>= λ _. ok tt

-- The rows that a recursive query returns; one that does not end is cancelled.
abbrev pub query {ℓ} : {A : Type ℓ} → Option A → Result FolderMutationError A
query o = ok_or o (database query_canceled)

abbrev pub check_destination :
    ℕ → Option ℕ → List NodeRecord → Result FolderMutationError (Unit {0})
check_destination folder_id none nodes = ok tt
check_destination folder_id (some destination_id) nodes = do
  ensure_active_folder destination_id nodes
  descendants ← query (descendant_ids folder_id nodes)
  map_err rule (validate_move_target folder_id destination_id descendants)

unfoldable pub update_folder :
    ℕ
    → Option String
    → Option ℕ
    → ℕ
    → List NodeRecord
    → Result FolderMutationError (NodeRecord × List NodeRecord)
update_folder folder_id name parent_id now nodes = do
  check_name name
  ensure_active_folder folder_id nodes
  check_destination folder_id parent_id nodes
  let target = λ (n : NodeRecord). n.id == folder_id && active_folder n
  after ← map_err map_mutation_error (update_nodes target (set_folder name parent_id now) nodes)
  n ← ok_or (updated target (set_folder name parent_id now) nodes) (rule FolderError.not_found)
  ok (n, after)

-- ids.sort_unstable(); ids.dedup()
abbrev pub dedup : List ℕ → List ℕ
dedup [] = []
dedup (x ∷ []) = x ∷ []
dedup (x ∷ y ∷ ys) = let rest = dedup (y ∷ ys) in if x == y then rest else x ∷ rest

abbrev pub sorted_ids : List ℕ → List ℕ
sorted_ids xs = dedup (order_by leb xs)

abbrev pub move_source : List ℕ → NodeRecord → Bool
move_source ids n = elem n.id ids && active_folder n

abbrev pub conflict_of : FolderMoveConflictReason → NodeRecord → FolderMoveConflict
conflict_of reason n = record { id = n.id; name = n.name; reason = reason }

-- The first loop of find_move_conflicts.
unfoldable pub cycle_conflicts :
    List NodeRecord → ℕ → List NodeRecord → Result FolderMutationError (List FolderMoveConflict)
cycle_conflicts [] destination_id nodes = ok []
cycle_conflicts (f ∷ fs) destination_id nodes = do
  descendants ← query (descendant_ids f.id nodes)
  rest ← cycle_conflicts fs destination_id nodes
  ok (elim (validate_move_target f.id destination_id descendants) [
    | ok _ ↦ rest
    | err _ ↦ conflict_of FolderMoveConflictReason.cycle_detected f ∷ rest
  ])

-- duplicate_count > 1 || destination_conflict
abbrev pub name_taken : List NodeRecord → List ℕ → ℕ → List NodeRecord → NodeRecord → Bool
name_taken folders ids destination_id nodes f =
    ltb 1 (count (λ candidate. str_eq candidate.name f.name) folders)
    || any
        (λ n.
          (holds n.parent_id destination_id && str_eq n.name f.name)
          && (active n && not (elem n.id ids)))
        nodes

-- The second loop, onto the conflicts of the first.
unfoldable pub name_conflicts :
    List NodeRecord
    → List NodeRecord
    → List ℕ
    → ℕ
    → List NodeRecord
    → List FolderMoveConflict
    → List FolderMoveConflict
name_conflicts [] folders ids destination_id nodes conflicts = conflicts
name_conflicts (f ∷ fs) folders ids destination_id nodes conflicts =
    name_conflicts fs folders ids destination_id nodes (
      if name_taken folders ids destination_id nodes f && not (any (λ c. c.id == f.id) conflicts)
      then conflicts ++ conflict_of FolderMoveConflictReason.name_conflict f ∷ []
      else conflicts)

unfoldable pub find_move_conflicts :
    List NodeRecord
    → List ℕ
    → ℕ
    → List NodeRecord
    → Result FolderMutationError (List FolderMoveConflict)
find_move_conflicts folders ids destination_id nodes = do
  conflicts ← cycle_conflicts folders destination_id nodes
  ok (name_conflicts folders folders ids destination_id nodes conflicts)

abbrev pub map_move_error : List NodeRecord → DbError → FolderMutationError
map_move_error folders unique_violation =
    move_conflict (map (conflict_of FolderMoveConflictReason.name_conflict) folders)
map_move_error folders e = database e

abbrev pub set_parent : ℕ → ℕ → NodeRecord → NodeRecord
set_parent destination_id now n = record n { parent_id = some destination_id; updated_at = now }

unfoldable pub execute_folder_move :
    List NodeRecord
    → List ℕ
    → ℕ
    → ℕ
    → List NodeRecord
    → Result FolderMutationError (List NodeRecord × List NodeRecord)
execute_folder_move folders ids destination_id now nodes = do
  after ←
      map_err (map_move_error folders)
        (update_nodes (move_source ids) (set_parent destination_id now) nodes)
  ok (map (set_parent destination_id now) (where_rows (move_source ids) nodes), after)

abbrev pub no_conflicts : List FolderMoveConflict → Result FolderMutationError (Unit {0})
no_conflicts [] = ok tt
no_conflicts (c ∷ cs) = err (move_conflict (c ∷ cs))

-- The order of names is the collation of the database.
module _ (name_le : String → String → Bool) where
  -- ORDER BY name, id
  abbrev pub by_name : NodeRecord → NodeRecord → Bool
  by_name a b = if str_eq a.name b.name then leb a.id b.id else name_le a.name b.name

  unfoldable pub load_move_folders : List ℕ → List NodeRecord → List NodeRecord
  load_move_folders ids nodes = order_by by_name (where_rows (move_source ids) nodes)

  unfoldable pub move_folders :
      List ℕ
      → ℕ
      → ℕ
      → List NodeRecord
      → Result FolderMutationError (List NodeRecord × List NodeRecord)
  move_folders folder_ids destination_id now nodes = do
    let ids = sorted_ids folder_ids
    ensure_active_folder destination_id nodes
    let folders = load_move_folders ids nodes
    guard (length folders == length ids) (rule FolderError.not_found)
    conflicts ← find_move_conflicts folders ids destination_id nodes
    no_conflicts conflicts
    execute_folder_move folders ids destination_id now nodes
