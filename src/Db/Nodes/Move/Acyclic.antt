-- ===== src/Db/Nodes/Move/Acyclic.antt =====
-- update_folder and move_folders of crates/db/src/lib.rs and the hierarchy: the guard against cycles.
use strife.Base.{
  ℕ, ◌≡◌, ◌≢◌, refl, String, Option, none, some, List, [], ◌∷◌, ◌++◌, Bool, true, false, ◌&&◌,
  arith, inl, inr, ◌==◌, if◌then◌else◌, All, Option-cases,
}
use strife.Base.Rows.{All-of_where_rows, All-of_order_by, key-row, row-All}
use strife.Base.Result.{ok, >>=-eq-ok}
use strife.Domain.{validate_move_target}
use strife.Db.Schema.{NodeRecord}
use strife.Db.Nodes.{
  get_node_by_id, active_folder, is_active_folder, update_nodes, active, ensure_active_folder,
  FolderMoveConflict,
}
use strife.Db.Nodes.Tree.{descendant_ids, children}
use strife.Db.Nodes.Tree.Descent.{Below}
use strife.Db.Nodes.Invariant.{IsHierarchy}
use strife.Db.Nodes.Move.{
  update_folder, set_folder, check_destination, set_parent, move_source, move_folders,
  execute_folder_move, cycle_conflicts, name_conflicts, load_move_folders, find_move_conflicts,
  sorted_ids,
}
use strife.Db.Nodes.Move.Kept.{Keeps, not-Below-of_target, renamed-IsHierarchy, moved-IsHierarchy}

update_folder-parts :
    (folder_id : ℕ) (name : Option String) (parent_id : Option ℕ) (now : ℕ)
    (nodes after : List NodeRecord) (n : NodeRecord)
    → update_folder folder_id name parent_id now nodes ≡ ok (n, after)
    → (check_destination folder_id parent_id nodes ≡ ok tt)
      × (update_nodes
            (λ m. m.id == folder_id && active_folder m)
            (set_folder name parent_id now)
            nodes
          ≡ ok after)
unfolding update_folder
update_folder-parts folder_id name parent_id now nodes after n e = ground arith

check_destination-parts :
    (folder_id d : ℕ) (nodes : List NodeRecord)
    → check_destination folder_id (some d) nodes ≡ ok tt
    → (is_active_folder d nodes ≡ true)
      × (r : List ℕ) × (descendant_ids folder_id nodes ≡ some r)
      × (validate_move_target folder_id d r ≡ ok tt)
unfolding ensure_active_folder
check_destination-parts folder_id d nodes e = ground arith

set_folder-Keeps :
    (name : Option String) (parent_id : Option ℕ) (now : ℕ) → Keeps (set_folder name parent_id now)
set_folder-Keeps name parent_id now = record { id = λ n. refl; kind = λ n. refl; state = λ n. refl }

-- A row that the folder's UPDATE changes is the folder's.
id_of_target :
    (a folder_id : ℕ) (n : NodeRecord) (nodes : List NodeRecord)
    → get_node_by_id a nodes ≡ some n
    → n.id == folder_id && active_folder n ≡ true
    → a ≡ folder_id
id_of_target a folder_id n [] e h = cc
id_of_target a folder_id n (m ∷ ms) e h = ground (arith, id_of_target a folder_id n ms)

-- Renaming or moving a folder keeps the hierarchy: a successful `update_folder` leaves unique active
-- sibling names, existing parents, no cycle, and active folders below active folders.
pub update_folder-IsHierarchy :
    (folder_id : ℕ) (name : Option String) (parent_id : Option ℕ) (now : ℕ)
    (nodes after : List NodeRecord) (n : NodeRecord)
    → IsHierarchy nodes
    → update_folder folder_id name parent_id now nodes ≡ ok (n, after)
    → IsHierarchy after
update_folder-IsHierarchy folder_id name none now nodes after n h e =
    renamed-IsHierarchy _ (set_folder name none now) nodes after h (set_folder-Keeps name none now)
      (update_folder-parts folder_id name none now nodes after n e).1 (λ m. refl)
update_folder-IsHierarchy folder_id name (some d) now nodes after n h e =
    let (checked, done) = update_folder-parts folder_id name (some d) now nodes after n e in
    let (destination, r, found, target) = check_destination-parts folder_id d nodes checked in
    moved-IsHierarchy _ (set_folder name (some d) now) nodes after h
      (set_folder-Keeps name (some d) now) done d destination (λ m. refl)
      (λ a m at_m hit.
        rw (id_of_target a folder_id m nodes at_m hit)
          (not-Below-of_target folder_id d nodes r found target))

-- What the move's checks say of one folder.
abbrev IsClear : ℕ → List NodeRecord → ℕ → Type 0
IsClear d nodes a = (d ≢ a) × ¬ Below active nodes (children active nodes (a ∷ [])) d

cycle_conflicts-IsClear :
    (fs : List NodeRecord) (d : ℕ) (nodes : List NodeRecord)
    → cycle_conflicts fs d nodes ≡ ok []
    → All (λ f. IsClear d nodes f.id) fs
unfolding cycle_conflicts
cycle_conflicts-IsClear [] d nodes e = tt
cycle_conflicts-IsClear (f ∷ fs) d nodes e = elim (Option-cases (descendant_ids f.id nodes)) [
  | inl n ↦ ground arith
  | inr (r, at_r) ↦
      let parts : (cycle_conflicts fs d nodes ≡ ok []) × (validate_move_target f.id d r ≡ ok tt) =
        ground arith in
      (not-Below-of_target f.id d nodes r at_r parts.1, cycle_conflicts-IsClear fs d nodes parts.0)
]

nil_of_pushed :
    (b : Bool) (cs : List FolderMoveConflict) (c : FolderMoveConflict)
    → (if b then cs ++ c ∷ [] else cs) ≡ []
    → cs ≡ []
nil_of_pushed false cs c e = e
nil_of_pushed true [] c e = refl
nil_of_pushed true (x ∷ xs) c e = cc

name_conflicts-nil :
    (fs folders : List NodeRecord) (is : List ℕ) (d : ℕ) (nodes : List NodeRecord)
    (cs : List FolderMoveConflict)
    → name_conflicts fs folders is d nodes cs ≡ []
    → cs ≡ []
unfolding name_conflicts
name_conflicts-nil [] folders is d nodes cs e = e
name_conflicts-nil (f ∷ fs) folders is d nodes cs e =
    nil_of_pushed _ cs _ (name_conflicts-nil fs folders is d nodes _ e)

module _ (name_le : String → String → Bool) where
  move_folders-parts :
      (folder_ids : List ℕ) (d now : ℕ) (nodes after moved : List NodeRecord)
      → move_folders name_le folder_ids d now nodes ≡ ok (moved, after)
      → let folders = load_move_folders name_le (sorted_ids folder_ids) nodes in
        (is_active_folder d nodes ≡ true)
        × (find_move_conflicts folders (sorted_ids folder_ids) d nodes ≡ ok [])
        × (update_nodes (move_source (sorted_ids folder_ids)) (set_parent d now) nodes ≡ ok after)
  unfolding move_folders ensure_active_folder execute_folder_move
  move_folders-parts folder_ids d now nodes after moved e = ground arith

  -- Moving folders keeps the hierarchy: when `move_folders` succeeds, active sibling names are unique,
  -- every parent exists, there is no cycle, and every active folder is below an active folder.
  pub move_folders-IsHierarchy :
      (folder_ids : List ℕ) (d now : ℕ) (nodes after moved : List NodeRecord)
      → IsHierarchy nodes
      → move_folders name_le folder_ids d now nodes ≡ ok (moved, after)
      → IsHierarchy after
  unfolding find_move_conflicts load_move_folders
  move_folders-IsHierarchy folder_ids d now nodes after moved h e =
      let (destination, checked, done) = move_folders-parts folder_ids d now nodes after moved e in
      let source = move_source (sorted_ids folder_ids) in
      let folders = load_move_folders name_le (sorted_ids folder_ids) nodes in
      let (cycles, at_cycles, named) = >>=-eq-ok (cycle_conflicts folders d nodes) _ checked in
      let none_found : cycles ≡ [] =
        name_conflicts-nil folders folders (sorted_ids folder_ids) d nodes cycles (ground arith) in
      let clear =
        All-of_where_rows (λ f. IsClear d nodes f.id) source nodes
          (All-of_order_by (λ f. IsClear d nodes f.id) _ _
            (cycle_conflicts-IsClear folders d nodes (rw none_found at at_cycles))) in
      moved-IsHierarchy source (set_parent d now) nodes after h
        (record { id = λ n. refl; kind = λ n. refl; state = λ n. refl }) done d destination
        (λ n. refl)
        (λ a n at_n hit. rw (← key-row (λ m. m.id) a nodes n at_n) (
          row-All (λ m. m.id) (λ m. source m ≡ true → IsClear d nodes m.id) a nodes n clear at_n
            hit))
