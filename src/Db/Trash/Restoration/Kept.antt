-- ===== src/Db/Trash/Restoration/Kept.antt =====
-- restore_node of crates/db/src/lib.rs and the hierarchy.
use strife.Base.{
  ℕ, ◌≡◌, refl, sym, ◌∙◌, subst, Option, none, some, List, Bool, true, false, ◌&&◌, arith, inl, inr,
  ◌↔◌, ◌==◌, if◌then◌else◌, elem, length, Bool-cases, update_rows,
}
use strife.Base.Rows.{changed, map_row}
use strife.Base.Result.{ok}
use strife.Db.Schema.{Db, NodeRecord, LifecycleState, root_node_id}
use strife.Db.Nodes.{
  get_node_by_id, active, active_folder, is_folder, is_active_folder, is_trashed, update_nodes,
}
use strife.Db.Nodes.Tree.{trashed_row, collect_trashed_subtree_ids}
use strife.Db.Nodes.Tree.Descent.{Below, descend_iff}
use strife.Db.Nodes.Tree.Termination.{parent_of, parent_of_row, IsParent-edge, IsForest}
use strife.Db.Nodes.Invariant.{
  IsHierarchy, HasActiveParent, HasFolderParent, folder_of_active, moved-IsForest, Above,
  Above-active_folder, row-of_active_folder,
}
use strife.Db.Nodes.Restated.{restated-IsHierarchy, parent_of-restated}
use strife.Db.Nodes.Move.{or_else}
use strife.Db.Trash.{restore_node, resolve_restore_parent, reactivate}
use strife.Db.Trash.Restoration.{
  restore_node-parts, resolved, lifted, restates, active-stays, parent-stays, lifted-active,
  trash_root, Below-trashed, start-id, both,
}

not-trashed : (n : NodeRecord) → active_folder n ≡ true → trashed_row n ≡ false
not-trashed n a = apart n.lifecycle_state (ground arith)
  where
    apart : (s : LifecycleState) → strife.Db.Nodes.is_active s ≡ true → is_trashed s ≡ false
    apart LifecycleState.active h = refl
    apart LifecycleState.trashed h = cc
    apart LifecycleState.deleted h = cc

module _ (id d now : ℕ) (subtree : List ℕ) (nodes after : List NodeRecord) (h : IsHierarchy nodes)
    (destination : is_active_folder d nodes ≡ true)
    (found : collect_trashed_subtree_ids id nodes ≡ some subtree)
    (done : update_nodes (lifted id d now subtree) (reactivate id d now) nodes ≡ ok after) where
  at_root : Option NodeRecord → Bool
  at_root none = false
  at_root (some m) = lifted id d now subtree m && m.id == id

  parent_of-lifted :
      (o : Option NodeRecord)
      → parent_of_row (map_row (changed (lifted id d now subtree) (reactivate id d now)) o)
        ≡ (if at_root o then some d else parent_of_row o)
  unfolding at_root
  parent_of-lifted none = refl
  parent_of-lifted (some m) = ground arith

  root-clear : (a : ℕ) → Above nodes d a → at_root (get_node_by_id a nodes) ≡ false
  unfolding at_root
  root-clear a above =
      let (n, at_n, live, parent) =
        row-of_active_folder nodes h a (Above-active_folder nodes h d a destination above).0 in
      rw at_n (ground (arith, not-trashed n live))

  lifted-IsForest : IsForest after
  lifted-IsForest =
      moved-IsForest nodes after (λ x. at_root (get_node_by_id x nodes)) d
        (λ x.
          parent_of-restated (lifted id d now subtree) (reactivate id d now) nodes after h
            (restates id d now subtree) done x
          ∙ parent_of-lifted (get_node_by_id x nodes))
        root-clear h.forest

  subtree_iff : (x : ℕ) → (elem x subtree ≡ true) ↔ Below trashed_row nodes (trash_root id nodes) x
  unfolding collect_trashed_subtree_ids
  subtree_iff x = descend_iff trashed_row nodes (length nodes) (trash_root id nodes) subtree x found

  -- Below the restored root the parent of a restored row is restored.
  parent-lifted :
      (n : NodeRecord)
      → get_node_by_id n.id nodes ≡ some n
      → HasFolderParent nodes n.parent_id
      → Below trashed_row nodes (trash_root id nodes) n.id
      → (n.id == id) ≡ false
      → HasActiveParent
          (update_rows (lifted id d now subtree) (reactivate id d now) nodes)
          n.parent_id
  parent-lifted n at_n below (Below.start _ e) other =
      absurd (ground (arith, start-id id nodes n.id e))
  parent-lifted n at_n below (Below.child q _ b e) other =
      let up : n.parent_id ≡ some q =
        rw (at_n, parent_of) at (IsParent-edge trashed_row nodes h.unique q n.id e) in
      subst (HasActiveParent (update_rows (lifted id d now subtree) (reactivate id d now) nodes))
        (sym up)
        (lifted-active id d now subtree q nodes ((subtree_iff q).1 b)
          (both id nodes q h (subst (HasFolderParent nodes) up below) (Below-trashed id nodes q b)))

  root-parent :
      (n : NodeRecord)
      → (lifted id d now subtree n && n.id == id) ≡ true
      → (changed (lifted id d now subtree) (reactivate id d now) n).parent_id ≡ some d
  root-parent n hit = ground arith

  other-parent :
      (n : NodeRecord)
      → (lifted id d now subtree n && n.id == id) ≡ false
      → (changed (lifted id d now subtree) (reactivate id d now) n).parent_id ≡ n.parent_id
  other-parent n miss = ground arith

  lifted-IsHierarchy : IsHierarchy after
  lifted-IsHierarchy =
      let f = reactivate id d now in
      let p = lifted id d now subtree in
      restated-IsHierarchy p f nodes after h (restates id d now subtree) done lifted-IsForest
        (λ n c. elim (Bool-cases (p n && n.id == id)) [
          | inl hit ↦
              subst (HasFolderParent nodes) (sym (root-parent n hit))
                (folder_of_active nodes (some d) destination)
          | inr miss ↦ subst (HasFolderParent nodes) (sym (other-parent n miss)) c
        ])
        (λ n at_n below c a. elim (Bool-cases (p n)) [
          | inl hit ↦ elim (Bool-cases (n.id == id)) [
            | inl root ↦
                subst (HasActiveParent (update_rows p f nodes)) (sym (root-parent n (ground arith)))
                  (active-stays id d now subtree d nodes destination)
            | inr other ↦
                subst (HasActiveParent (update_rows p f nodes))
                  (sym (other-parent n (ground arith)))
                  (parent-lifted n at_n below ((subtree_iff n.id).0 (ground arith)) other)
          ]
          | inr miss ↦
              subst (HasActiveParent (update_rows p f nodes)) (sym (other-parent n (ground arith)))
                (parent-stays id d now subtree n.parent_id nodes (c (rw miss at a)))
        ])

-- Restoring a node keeps the hierarchy, where the root is an active folder.
pub restore_node-IsHierarchy :
    (id now : ℕ) (db after : Db) (restored : NodeRecord)
    → IsHierarchy db.nodes
    → is_active_folder root_node_id db.nodes ≡ true
    → restore_node id now db ≡ ok (restored, after)
    → IsHierarchy after.nodes
restore_node-IsHierarchy id now db after restored h root e =
    let (entry, n, subtree, at_entry, at_n, at_subtree, done, at_restored, entries) =
      restore_node-parts id now db after restored e in
    let parent = or_else entry.original_parent_id n.parent_id in
    lifted-IsHierarchy id (resolve_restore_parent parent db.nodes) now subtree db.nodes after.nodes
      h (resolved parent db.nodes root) at_subtree done
