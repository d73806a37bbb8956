-- ===== src/Db/Nodes/Restated.antt =====
-- UPDATEs of `nodes` that keep ids and kinds and may change the lifecycle state: trash and restore.
use strife.Base.{
  ℕ, ◌≡◌, refl, ap, Option, none, some, List, [], ◌∷◌, Bool, true, arith, update_rows,
}
use strife.Base.Rows.{changed, map_row, row-update_rows, All-map₂, All-update_rows}
use strife.Base.Result.{ok}
use strife.Db.Schema.{NodeRecord}
use strife.Db.Nodes.{get_node_by_id, active_folder, update_nodes}
use strife.Db.Nodes.Tree.Termination.{parent_of, parent_of_row, IsForest}
use strife.Db.Nodes.Invariant.{
  IsHierarchy, HasActiveParent, HasFolderParent, is_folder_node, update_nodes-ok, node-rows,
}

-- An UPDATE that leaves the id and the kind of each row alone.
pub record Restates (f : NodeRecord → NodeRecord) : Type 0 where
  pub id : (n : NodeRecord) → (f n).id ≡ n.id
  pub kind : (n : NodeRecord) → (f n).kind ≡ n.kind

is_folder_node-restated :
    (p : NodeRecord → Bool) (f : NodeRecord → NodeRecord) (x : ℕ) (ns : List NodeRecord)
    → Restates f
    → is_folder_node x (update_rows p f ns) ≡ is_folder_node x ns
is_folder_node-restated p f x [] k = refl
is_folder_node-restated p f x (n ∷ ns) k =
    ground (arith, is_folder_node-restated p f x ns k, k.id n, k.kind n)

HasFolderParent-restated :
    (p : NodeRecord → Bool) (f : NodeRecord → NodeRecord) (o : Option ℕ) (nodes : List NodeRecord)
    → Restates f
    → HasFolderParent nodes o
    → HasFolderParent (update_rows p f nodes) o
HasFolderParent-restated p f none nodes k h = tt
HasFolderParent-restated p f (some x) nodes k h = rw (is_folder_node-restated p f x nodes k) h

module _ (p : NodeRecord → Bool) (f : NodeRecord → NodeRecord) (nodes after : List NodeRecord)
    (h : IsHierarchy nodes) (k : Restates f) (done : update_nodes p f nodes ≡ ok after) where
  pub parent_of-restated :
      (x : ℕ) → parent_of after x ≡ parent_of_row (map_row (changed p f) (get_node_by_id x nodes))
  parent_of-restated x =
      rw (update_nodes-ok p f nodes after done).0
        (ap parent_of_row (row-update_rows (λ n. n.id) p f k.id x nodes))

  -- Such an UPDATE keeps the hierarchy if the parents that it leaves make no cycle and are folders,
  -- and each folder that it leaves active is under an active folder.
  pub restated-IsHierarchy :
      IsForest after
      → ((n : NodeRecord)
          → HasFolderParent nodes n.parent_id
          → HasFolderParent nodes (changed p f n).parent_id)
      → ((n : NodeRecord)
          → get_node_by_id n.id nodes ≡ some n
          → HasFolderParent nodes n.parent_id
          → (active_folder n ≡ true → HasActiveParent nodes n.parent_id)
          → active_folder (changed p f n) ≡ true
          → HasActiveParent (update_rows p f nodes) (changed p f n).parent_id)
      → IsHierarchy after
  restated-IsHierarchy forest below closed =
      let (same, unique, parents) = update_nodes-ok p f nodes after done in
      record {
        unique = unique;
        forest = forest;
        parents = parents;
        folders = rw same (
            All-update_rows (λ n. HasFolderParent nodes n.parent_id)
              (λ n. HasFolderParent (update_rows p f nodes) n.parent_id) p f
              (λ n c. HasFolderParent-restated p f (changed p f n).parent_id nodes k (below n c))
              nodes h.folders);
        closed = rw same (
            All-update_rows
              (λ n.
                (get_node_by_id n.id nodes ≡ some n)
                × HasFolderParent nodes n.parent_id
                × (active_folder n ≡ true → HasActiveParent nodes n.parent_id))
              (λ n. active_folder n ≡ true → HasActiveParent (update_rows p f nodes) n.parent_id) p
              f (λ n c a. closed n c.0 c.1 c.2 a) nodes
              (All-map₂ (λ n. get_node_by_id n.id nodes ≡ some n)
                (λ n.
                  HasFolderParent nodes n.parent_id
                  × (active_folder n ≡ true → HasActiveParent nodes n.parent_id))
                (λ n.
                  (get_node_by_id n.id nodes ≡ some n)
                  × HasFolderParent nodes n.parent_id
                  × (active_folder n ≡ true → HasActiveParent nodes n.parent_id))
                (λ n a b. (a, b.0, b.1)) nodes (node-rows nodes h)
                (All-map₂ (λ n. HasFolderParent nodes n.parent_id)
                  (λ n. active_folder n ≡ true → HasActiveParent nodes n.parent_id)
                  (λ n.
                    HasFolderParent nodes n.parent_id
                    × (active_folder n ≡ true → HasActiveParent nodes n.parent_id))
                  (λ n a b. (a, b)) nodes h.folders h.closed)));
      }
