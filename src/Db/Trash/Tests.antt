-- ===== src/Db/Trash/Tests.antt =====
-- Runs of trash, restore and deletion on the folders of Db.Samples.
use strife.Base.{
  ℕ, ◌+◌, ◌≡◌, ◌≢◌, ◌↔◌, refl, none, some, List, [], ◌∷◌, true, ◌&&◌, elem, All, where_rows,
  if◌then◌else◌,
}
use strife.Base.Rows.{map_row}
use strife.Base.Result.{ok, err}
use strife.Db.Schema.{
  Db, DbError, foreign_key_violation, NodeRecord, LifecycleState, JobRecord, JobType,
}
use strife.Db.Samples.{
  root, music, live, two_folders, three_folders, three_folders-IsHierarchy, db_of, name_le, draw,
  session,
}
use strife.Db.Nodes.{active, get_node_by_id, update_nodes}
use strife.Db.Nodes.Invariant.{IsHierarchy}
use strife.Db.Nodes.Tree.{
  descend, descend_distinct, collect_active_subtree_ids, collect_trashed_subtree_ids, ancestors_of,
  ancestor_chain, trashed_row,
}
use strife.Db.Nodes.Tree.Descent.{Below}
use strife.Db.Jobs.{enqueue_job}
use strife.Base.Int.{pos}
use strife.Db.Trash.{
  trash_nodes, trash_selected, outer_roots, insert_entries, selected_row, set_state, new_entry,
  entry_of, remove_favorites, retention, restore_node, reactivate, lock_trash_entry,
  lock_trashed_node, resolve_restore_parent, ensure_restore_name_available,
  reactivate_trashed_subtree, entry_clash,
}
use strife.Db.Trash.Selection.{trash_nodes-IsHierarchy, trash_selected-rows, roots}
use strife.Db.Trash.Restoration.{trash_root}
use strife.Db.Trash.Restoration.Kept.{restore_node-IsHierarchy}
use strife.Db.Trash.Entries.{restore_node-entries, trash_selected-no_entry}
use strife.Db.Trash.Deletion.{
  purge_trashed_node_records, delete_nodes, enqueue_expired_trash_deletions, enqueue_deletions,
}
use strife.Db.Trash.Deletion.Purged.{
  purge_trashed_node_records-rows, purge_trashed_node_records-blocked,
}

abbrev gone : ℕ → NodeRecord → NodeRecord
gone = set_state LifecycleState.trashed

-- Live was trashed on its own, and Music later.
abbrev one_gone : Db
one_gone = record (db_of (gone 30 live ∷ two_folders)) {
  trash_entries = new_entry draw 30 live ∷ [];
}

abbrev two_gone : Db
two_gone = record (db_of (gone 30 live ∷ gone 31 music ∷ root ∷ [])) {
  trash_entries = new_entry draw 31 music ∷ new_entry draw 30 live ∷ [];
}

live_trashed :
    trash_nodes name_le draw (3 ∷ []) 30 (db_of three_folders) ≡ ok (gone 30 live ∷ [], one_gone)
unfolding trash_nodes trash_selected outer_roots insert_entries ancestors_of ancestor_chain
    collect_active_subtree_ids descend_distinct update_nodes
live_trashed = refl

music_trashed : trash_nodes name_le draw (2 ∷ []) 31 one_gone ≡ ok (gone 31 music ∷ [], two_gone)
unfolding trash_nodes trash_selected outer_roots insert_entries ancestors_of ancestor_chain
    collect_active_subtree_ids descend_distinct update_nodes
music_trashed = refl

one_gone-IsHierarchy : IsHierarchy one_gone.nodes
one_gone-IsHierarchy =
    trash_nodes-IsHierarchy name_le draw (3 ∷ []) 30 (db_of three_folders) one_gone
      (gone 30 live ∷ []) three_folders-IsHierarchy live_trashed

two_gone-IsHierarchy : IsHierarchy two_gone.nodes
two_gone-IsHierarchy =
    trash_nodes-IsHierarchy name_le draw (2 ∷ []) 31 one_gone two_gone (gone 31 music ∷ [])
      one_gone-IsHierarchy music_trashed

trash_nodes-IsHierarchy_example : IsHierarchy two_gone.nodes
trash_nodes-IsHierarchy_example =
    trash_nodes-IsHierarchy name_le draw (2 ∷ []) 31 one_gone two_gone (gone 31 music ∷ [])
      one_gone-IsHierarchy music_trashed

abbrev both_gone : Db
both_gone = record (db_of (gone 32 live ∷ gone 32 music ∷ root ∷ [])) {
  trash_entries = new_entry draw 32 music ∷ [];
}

music_selected :
    trash_selected name_le draw (2 ∷ []) 32 (db_of three_folders)
    ≡ ok (gone 32 music ∷ [], both_gone)
unfolding trash_selected outer_roots insert_entries ancestors_of ancestor_chain
    collect_active_subtree_ids descend_distinct update_nodes
music_selected = refl

trash_selected-rows_example :
    (top : List NodeRecord) × (all : List ℕ) × (outer_roots
        (where_rows (selected_row (2 ∷ [])) three_folders)
        (2 ∷ [])
        three_folders
      ≡ ok top)
    × ((x : ℕ) → (elem x all ≡ true) ↔ Below active three_folders (roots top three_folders) x)
    × ((x : ℕ)
        → get_node_by_id x both_gone.nodes
          ≡ map_row
              (λ n. if elem n.id all && active n then set_state LifecycleState.trashed 32 n else n)
              (get_node_by_id x three_folders))
    × ([] ≡ remove_favorites all [])
trash_selected-rows_example =
    trash_selected-rows name_le draw (2 ∷ []) 32 (db_of three_folders) both_gone
      (gone 32 music ∷ []) music_selected

abbrev back : ℕ → NodeRecord → NodeRecord
back = reactivate 2 1

abbrev restored : Db
restored = record (db_of (back 40 (gone 30 live) ∷ back 40 (gone 31 music) ∷ root ∷ [])) {
  trash_entries = new_entry draw 30 live ∷ [];
}

restore_result : restore_node 2 40 two_gone ≡ ok (back 40 (gone 31 music), restored)
unfolding restore_node lock_trash_entry lock_trashed_node resolve_restore_parent
    ensure_restore_name_available reactivate_trashed_subtree collect_trashed_subtree_ids descend
    update_nodes
restore_result = refl

restore_node-IsHierarchy_example : IsHierarchy restored.nodes
restore_node-IsHierarchy_example =
    restore_node-IsHierarchy 2 40 two_gone restored (back 40 (gone 31 music)) two_gone-IsHierarchy
      refl restore_result

restore_node-entries_example :
    (entry_of 2 restored.trash_entries ≡ none)
    × ((x : ℕ) → x ≢ 2 → entry_of x restored.trash_entries ≡ entry_of x two_gone.trash_entries)
restore_node-entries_example =
    restore_node-entries 2 40 two_gone restored (back 40 (gone 31 music)) (refl, (refl, tt))
      restore_result

-- Live is active again, but its entry bars it from the trash.
live_barred :
    trash_nodes name_le (λ x. 200 + x) (3 ∷ []) 50 restored
    ≡ err (strife.Db.Trash.database DbError.unique_violation)
unfolding trash_nodes trash_selected outer_roots insert_entries ancestors_of ancestor_chain
    collect_active_subtree_ids descend_distinct update_nodes
live_barred = refl

music_top :
    outer_roots (where_rows (selected_row (2 ∷ [])) three_folders) (2 ∷ []) three_folders
    ≡ ok (music ∷ [])
unfolding outer_roots ancestors_of ancestor_chain
music_top = refl

trash_selected-no_entry_example : All (λ (r : NodeRecord). entry_of r.id [] ≡ none) (music ∷ [])
trash_selected-no_entry_example =
    trash_selected-no_entry name_le draw (2 ∷ []) 32 (db_of three_folders) both_gone
      (gone 32 music ∷ []) (music ∷ []) music_top music_selected

below_gone : collect_trashed_subtree_ids 2 both_gone.nodes ≡ some (2 ∷ 3 ∷ [])
unfolding collect_trashed_subtree_ids descend
below_gone = refl

music_purged : purge_trashed_node_records 2 both_gone ≡ ok (2, db_of (root ∷ []))
unfolding purge_trashed_node_records delete_nodes collect_trashed_subtree_ids descend
music_purged = refl

purge_trashed_node_records-rows_example :
    ((x : ℕ)
      → (elem x (2 ∷ 3 ∷ []) ≡ true)
        ↔ Below trashed_row both_gone.nodes (trash_root 2 both_gone.nodes) x)
    × ((x : ℕ)
        → get_node_by_id x (root ∷ [])
          ≡ (if elem x (2 ∷ 3 ∷ []) then none else get_node_by_id x both_gone.nodes))
    × Unit {0}
    × Unit {0}
    × Unit {0}
    × Unit {0}
purge_trashed_node_records-rows_example =
    purge_trashed_node_records-rows 2 both_gone (db_of (root ∷ [])) 2 2 (3 ∷ []) below_gone
      music_purged

abbrev targeted : Db
targeted = record both_gone { upload_sessions = session ∷ [] }

purge_trashed_node_records-blocked_example :
    purge_trashed_node_records 2 targeted ≡ err foreign_key_violation
purge_trashed_node_records-blocked_example =
    purge_trashed_node_records-blocked 2 targeted (2 ∷ 3 ∷ []) below_gone refl

abbrev due : ℕ
due = 33 + retention

abbrev scheduled : List JobRecord
scheduled = strife.Db.Jobs.new_job 102 JobType.permanent_deletion 2 (pos 5) due ∷ []

music_scheduled : enqueue_expired_trash_deletions draw 10 due both_gone ≡ ok (1, scheduled)
unfolding enqueue_expired_trash_deletions enqueue_deletions enqueue_job
music_scheduled = refl
