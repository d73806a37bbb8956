-- ===== src/Db/Nodes/Tests.antt =====
-- Runs on the folders of Db.Samples.
use strife.Base.{ℕ, ◌≡◌, refl, some, List, [], ◌∷◌, true, elem, arith}
use strife.Base.Result.{ok}
use strife.Domain.{validate_name, validate_move_target}
use strife.Db.Schema.{NodeRecord}
use strife.Db.Samples.{live, two_folders, three_folders, three_folders-IsHierarchy, name_le}
use strife.Db.Nodes.{active, node_exists, ensure_active_folder, update_nodes}
use strife.Db.Nodes.Invariant.{IsHierarchy}
use strife.Db.Nodes.Queries.{queries_end}
use strife.Db.Nodes.Tree.{collect_trashed_subtree_ids, collect_active_subtree_ids}
use strife.Db.Nodes.Tree.{descend, descendant_ids, descend_distinct}
use strife.Db.Nodes.Move.{
  update_folder, set_folder, move_folders, set_parent, load_move_folders, find_move_conflicts,
  execute_folder_move, cycle_conflicts, name_conflicts,
}
use strife.Db.Nodes.Move.Acyclic.{update_folder-IsHierarchy, move_folders-IsHierarchy}

abbrev renamed : NodeRecord
renamed = set_folder (some "Concerts") (some 1) 20 live

live_updated :
    update_folder 3 (some "Concerts") (some 1) 20 three_folders
    ≡ ok (renamed, renamed ∷ two_folders)
unfolding update_folder ensure_active_folder update_nodes validate_name validate_move_target
    descendant_ids descend
live_updated = refl

update_folder-IsHierarchy_example : IsHierarchy (renamed ∷ two_folders)
update_folder-IsHierarchy_example =
    update_folder-IsHierarchy 3 (some "Concerts") (some 1) 20 three_folders (renamed ∷ two_folders)
      renamed three_folders-IsHierarchy live_updated

abbrev moved : NodeRecord
moved = set_parent 1 21 live

live_moved : move_folders name_le (3 ∷ []) 1 21 three_folders ≡ ok (moved ∷ [], moved ∷ two_folders)
unfolding move_folders ensure_active_folder update_nodes validate_move_target descendant_ids descend
    load_move_folders find_move_conflicts execute_folder_move cycle_conflicts name_conflicts
live_moved = refl

move_folders-IsHierarchy_example : IsHierarchy (moved ∷ two_folders)
move_folders-IsHierarchy_example =
    move_folders-IsHierarchy name_le (3 ∷ []) 1 21 three_folders (moved ∷ two_folders) (moved ∷ [])
      three_folders-IsHierarchy live_moved

below_music : descend active three_folders 3 (2 ∷ []) ≡ some (2 ∷ 3 ∷ [])
unfolding descend
below_music = refl

below_music_distinct : descend_distinct active three_folders 3 [] (2 ∷ []) ≡ some (3 ∷ 2 ∷ [])
unfolding descend_distinct
below_music_distinct = refl

starts_exist : (x : ℕ) → elem x (2 ∷ []) ≡ true → node_exists x three_folders ≡ true
starts_exist x e = ground arith

queries_end_example :
    ((id : ℕ) → (r : List ℕ) × (descendant_ids id three_folders ≡ some r))
    × ((id : ℕ) → (r : List ℕ) × (collect_trashed_subtree_ids id three_folders ≡ some r))
    × ((selected : List ℕ)
        → (r : List ℕ) × (collect_active_subtree_ids selected three_folders ≡ some r))
queries_end_example = queries_end three_folders three_folders-IsHierarchy
