-- ===== src/Db/Nodes/Move/Kept.antt =====
-- UPDATEs of `nodes` that keep ids, kinds and states, and the hierarchy: renames and moves.
use strife.Base.{
  ℕ, ◌≡◌, ◌≢◌, refl, sym, ap, ◌∙◌, Option, none, some, List, [], ◌∷◌, Bool, true, false, arith, inl,
  inr, ==_iff, if◌then◌else◌, length, All, Bool-cases, Option-cases, update_rows,
}
use strife.Base.Rows.{map_row, changed, row-update_rows, All-update_rows}
use strife.Base.Result.{ok}
use strife.Domain.{validate_move_target}
use strife.Db.Schema.{NodeRecord}
use strife.Db.Nodes.{get_node_by_id, active_folder, is_active_folder, update_nodes, active}
use strife.Db.Nodes.Tree.{descendant_ids, children}
use strife.Db.Nodes.Tree.Descent.{Below, descend_iff}
use strife.Db.Nodes.Tree.Termination.{parent_of, parent_of_row, IsForest}
use strife.Db.Nodes.Invariant.{
  IsHierarchy, HasActiveParent, HasFolderParent, is_folder_node, folder_of_active, update_nodes-ok,
  Above, moved-IsForest, Above-active_folder,
}

-- A query of the descendants of `a` that ends without `d` says that `d` is not below `a`.
pub not-Below-of_target :
    (a d : ℕ) (nodes : List NodeRecord) (r : List ℕ)
    → descendant_ids a nodes ≡ some r
    → validate_move_target a d r ≡ ok tt
    → (d ≢ a) × ¬ Below active nodes (children active nodes (a ∷ [])) d
unfolding descendant_ids validate_move_target
not-Below-of_target a d nodes r e v = (
  λ same. ground (arith, ==_iff d a),
  λ below. ground (
    arith,
    (descend_iff active nodes (length nodes) (children active nodes (a ∷ [])) r d e).1 below,
  ),
)

-- the rows that an UPDATE with the test `p` changes, by id
abbrev moves : (NodeRecord → Bool) → Option NodeRecord → Bool
moves p none = false
moves p (some n) = p n

-- An UPDATE that leaves the id, the kind and the state of each row alone.
pub record Keeps (f : NodeRecord → NodeRecord) : Type 0 where
  pub id : (n : NodeRecord) → (f n).id ≡ n.id
  pub kind : (n : NodeRecord) → (f n).kind ≡ n.kind
  pub state : (n : NodeRecord) → (f n).lifecycle_state ≡ n.lifecycle_state

is_active_folder-update_rows :
    (p : NodeRecord → Bool) (f : NodeRecord → NodeRecord) (x : ℕ) (ns : List NodeRecord)
    → Keeps f
    → is_active_folder x (update_rows p f ns) ≡ is_active_folder x ns
is_active_folder-update_rows p f x [] k = refl
is_active_folder-update_rows p f x (n ∷ ns) k =
    ground (arith, is_active_folder-update_rows p f x ns k, k.id n, k.kind n, k.state n)

HasActiveParent-update_rows :
    (p : NodeRecord → Bool) (f : NodeRecord → NodeRecord) (o : Option ℕ) (nodes : List NodeRecord)
    → Keeps f
    → HasActiveParent nodes o
    → HasActiveParent (update_rows p f nodes) o
HasActiveParent-update_rows p f none nodes k h = tt
HasActiveParent-update_rows p f (some x) nodes k h =
    rw (is_active_folder-update_rows p f x nodes k) h

is_folder_node-update_rows :
    (p : NodeRecord → Bool) (f : NodeRecord → NodeRecord) (x : ℕ) (ns : List NodeRecord)
    → Keeps f
    → is_folder_node x (update_rows p f ns) ≡ is_folder_node x ns
is_folder_node-update_rows p f x [] k = refl
is_folder_node-update_rows p f x (n ∷ ns) k =
    ground (arith, is_folder_node-update_rows p f x ns k, k.id n, k.kind n)

HasFolderParent-update_rows :
    (p : NodeRecord → Bool) (f : NodeRecord → NodeRecord) (o : Option ℕ) (nodes : List NodeRecord)
    → Keeps f
    → HasFolderParent nodes o
    → HasFolderParent (update_rows p f nodes) o
HasFolderParent-update_rows p f none nodes k h = tt
HasFolderParent-update_rows p f (some x) nodes k h = rw (is_folder_node-update_rows p f x nodes k) h

active_folder-changed :
    (p : NodeRecord → Bool) (f : NodeRecord → NodeRecord) (n : NodeRecord)
    → Keeps f
    → active_folder (changed p f n) ≡ active_folder n
active_folder-changed p f n k = ground (arith, k.kind n, k.state n)

module _ (p : NodeRecord → Bool) (f : NodeRecord → NodeRecord) (nodes after : List NodeRecord)
    (h : IsHierarchy nodes) (k : Keeps f) (done : update_nodes p f nodes ≡ ok after) where
  closed-of :
      ((n : NodeRecord)
        → active_folder n ≡ true
        → HasActiveParent nodes n.parent_id
        → HasActiveParent nodes (changed p f n).parent_id)
      → All (λ n. active_folder n ≡ true → HasActiveParent after n.parent_id) after
  closed-of keep = rw (update_nodes-ok p f nodes after done).0 (
      All-update_rows (λ n. active_folder n ≡ true → HasActiveParent nodes n.parent_id)
        (λ n. active_folder n ≡ true → HasActiveParent (update_rows p f nodes) n.parent_id) p f
        (λ n c a.
          let was : active_folder n ≡ true = sym (active_folder-changed p f n k) ∙ a in
          HasActiveParent-update_rows p f (changed p f n).parent_id nodes k (keep n was (c was)))
        nodes h.closed)

  folders-of :
      ((n : NodeRecord)
        → HasFolderParent nodes n.parent_id
        → HasFolderParent nodes (changed p f n).parent_id)
      → All (λ n. HasFolderParent after n.parent_id) after
  folders-of keep = rw (update_nodes-ok p f nodes after done).0 (
      All-update_rows (λ n. HasFolderParent nodes n.parent_id)
        (λ n. HasFolderParent (update_rows p f nodes) n.parent_id) p f
        (λ n c. HasFolderParent-update_rows p f (changed p f n).parent_id nodes k (keep n c)) nodes
        h.folders)

  with_forest :
      IsForest after
      → All (λ n. HasFolderParent after n.parent_id) after
      → All (λ n. active_folder n ≡ true → HasActiveParent after n.parent_id) after
      → IsHierarchy after
  with_forest forest folders closed =
      let (same, unique, parents) = update_nodes-ok p f nodes after done in
      record {
        unique = unique;
        forest = forest;
        parents = parents;
        folders = folders;
        closed = closed;
      }

  parent_of-after :
      (x : ℕ) → parent_of after x ≡ parent_of_row (map_row (changed p f) (get_node_by_id x nodes))
  parent_of-after x =
      rw (update_nodes-ok p f nodes after done).0
        (ap parent_of_row (row-update_rows (λ n. n.id) p f k.id x nodes))

  -- A rename keeps the hierarchy.
  pub renamed-IsHierarchy : ((n : NodeRecord) → (f n).parent_id ≡ n.parent_id) → IsHierarchy after
  renamed-IsHierarchy same =
      with_forest
        (moved-IsForest nodes after (λ x. false) 0
          (λ x. parent_of-after x ∙ parent_of_row-kept (get_node_by_id x nodes)) (λ a b. refl)
          h.forest)
        (folders-of (λ n c. rw (parent_kept n) c)) (closed-of (λ n a c. rw (parent_kept n) c))
    where
      parent_kept : (n : NodeRecord) → (changed p f n).parent_id ≡ n.parent_id
      parent_kept n = ground (arith, same n)

      parent_of_row-kept :
          (o : Option NodeRecord) → parent_of_row (map_row (changed p f) o) ≡ parent_of_row o
      parent_of_row-kept none = refl
      parent_of_row-kept (some n) = parent_kept n

  module _ (d : ℕ) (destination : is_active_folder d nodes ≡ true)
      (below_d : (n : NodeRecord) → (f n).parent_id ≡ some d)
      (clear : (a : ℕ) (n : NodeRecord)
        → get_node_by_id a nodes ≡ some n
        → p n ≡ true
        → (d ≢ a) × ¬ Below active nodes (children active nodes (a ∷ [])) d) where
    parent_of-moved :
        (o : Option NodeRecord)
        → parent_of_row (map_row (changed p f) o) ≡ (if moves p o then some d else parent_of_row o)
    parent_of-moved none = refl
    parent_of-moved (some n) = ground (arith, below_d n)

    moved-clear : (a : ℕ) → Above nodes d a → moves p (get_node_by_id a nodes) ≡ false
    moved-clear a above = elim (Option-cases (get_node_by_id a nodes)) [
      | inl e ↦ rw e refl
      | inr (n, e) ↦ elim (Bool-cases (p n)) [
        | inl hit ↦
            let (apart, not_below) = clear a n e hit in
            absurd (elim (Above-active_folder nodes h d a destination above).1 [
              | inl same ↦ apart same
              | inr below ↦ not_below below
            ])
        | inr miss ↦ rw e miss
      ]
    ]

    -- A move of nodes that are neither the destination nor above it keeps the hierarchy.
    pub moved-IsHierarchy : IsHierarchy after
    moved-IsHierarchy =
        with_forest
          (moved-IsForest nodes after (λ x. moves p (get_node_by_id x nodes)) d
            (λ x. parent_of-after x ∙ parent_of-moved (get_node_by_id x nodes)) moved-clear
            h.forest)
          (folders-of (λ n c. elim (Bool-cases (p n)) [
            | inl hit ↦ rw (hit, below_d n) (folder_of_active nodes (some d) destination)
            | inr miss ↦ rw miss c
          ]))
          (closed-of (λ n a c. elim (Bool-cases (p n)) [
            | inl hit ↦ rw (hit, below_d n) destination
            | inr miss ↦ rw miss c
          ]))
