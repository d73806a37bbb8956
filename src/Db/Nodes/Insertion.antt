-- ===== src/Db/Nodes/Insertion.antt =====
-- An INSERT into `nodes` and the hierarchy, for create_folder of crates/db/src/lib.rs.
use mathlib.Core.WellFounded.{Acc}
use strife.Base.{
  ℕ, ◌≡◌, refl, subst, String, Option, none, some, List, [], ◌∷◌, true, false, arith, inl, inr,
  ◌==◌, any, All, Bool-cases, Option-cases,
}
use strife.Base.Rows.{All-map₂, row-All}
use strife.Base.Result.{ok}
use strife.Db.Schema.{NodeRecord, folder}
use strife.Db.Nodes.{
  get_node_by_id, node_exists, node_clash, active_folder, is_active_folder, parent_exists,
  insert_node, create_folder, new_node, ensure_active_folder,
}
use strife.Db.Nodes.Tree.Termination.{parent_of, IsParent, IsForest}
use strife.Db.Nodes.Invariant.{IsHierarchy, HasActiveParent, HasFolderParent, folder_of_active}

insert_node-parts :
    (n : NodeRecord) (nodes after : List NodeRecord)
    → insert_node n nodes ≡ ok after
    → (after ≡ n ∷ nodes)
      × (any (node_clash n) nodes ≡ false)
      × (parent_exists n.parent_id nodes ≡ true)
unfolding insert_node
insert_node-parts n nodes after e = ground arith

not-node_exists :
    (n : NodeRecord) (nodes : List NodeRecord)
    → any (node_clash n) nodes ≡ false
    → node_exists n.id nodes ≡ false
not-node_exists n [] h = refl
not-node_exists n (m ∷ ms) h = ground (arith, not-node_exists n ms)

parent_of-exists :
    (nodes : List NodeRecord) (x p : ℕ)
    → All (λ n. parent_exists n.parent_id nodes ≡ true) nodes
    → parent_of nodes x ≡ some p
    → node_exists p nodes ≡ true
parent_of-exists nodes x p h e = elim (Option-cases (get_node_by_id x nodes)) [
  | inl missing ↦ let never : ◌≡◌ {A = Option ℕ} none (some p) = rw (missing, parent_of) at e in cc
  | inr (n, at_n) ↦
      let is_p : n.parent_id ≡ some p = rw (at_n, parent_of) at e in
      subst (λ o. parent_exists o nodes ≡ true) is_p
        (row-All (λ m. m.id) (λ m. parent_exists m.parent_id nodes ≡ true) x nodes n h at_n)
]

module _ (n : NodeRecord) (nodes : List NodeRecord) (h : IsHierarchy nodes)
    (fresh : node_exists n.id nodes ≡ false) (parent : parent_exists n.parent_id nodes ≡ true) where
  old-Acc : (x : ℕ) → Acc (IsParent nodes) x → n.id == x ≡ false → Acc (IsParent (n ∷ nodes)) x
  old-Acc x (Acc.intro _ up) other = Acc.intro x λ p e.
      let e' : parent_of nodes x ≡ some p = ground arith in
      old-Acc p (up p e') (ground (arith, parent_of-exists nodes x p h.parents e', fresh))

  insert-IsForest : IsForest (n ∷ nodes)
  insert-IsForest x = elim (Bool-cases (n.id == x)) [
    | inl new ↦ Acc.intro x λ p e.
        let is_p : n.parent_id ≡ some p = ground arith in
        let exists : node_exists p nodes ≡ true =
          subst (λ o. parent_exists o nodes ≡ true) is_p parent in
        old-Acc p (h.forest p) (ground (arith, fresh, exists))
    | inr old ↦ old-Acc x (h.forest x) old
  ]

parent_exists-cons :
    (n : NodeRecord) (nodes : List NodeRecord) (o : Option ℕ)
    → parent_exists o nodes ≡ true
    → parent_exists o (n ∷ nodes) ≡ true
parent_exists-cons n nodes none e = refl
parent_exists-cons n nodes (some p) e = ground arith

HasFolderParent-cons :
    (n : NodeRecord) (nodes : List NodeRecord) (o : Option ℕ)
    → HasFolderParent nodes o
    → HasFolderParent (n ∷ nodes) o
HasFolderParent-cons n nodes none e = tt
HasFolderParent-cons n nodes (some p) e = ground arith

HasActiveParent-cons :
    (n : NodeRecord) (nodes : List NodeRecord) (o : Option ℕ)
    → HasActiveParent nodes o
    → HasActiveParent (n ∷ nodes) o
HasActiveParent-cons n nodes none e = tt
HasActiveParent-cons n nodes (some p) e = ground arith

-- A row that the constraints admit keeps the hierarchy, if it goes below a folder, and an active
-- folder below an active one.
pub insert_node-IsHierarchy :
    (n : NodeRecord) (nodes after : List NodeRecord)
    → IsHierarchy nodes
    → HasFolderParent nodes n.parent_id
    → (active_folder n ≡ true → HasActiveParent nodes n.parent_id)
    → insert_node n nodes ≡ ok after
    → IsHierarchy after
insert_node-IsHierarchy n nodes after h below closed e =
    let (same, unique, parent) = insert_node-parts n nodes after e in
    rw same (record {
      unique = (unique, h.unique);
      forest = insert-IsForest n nodes h (not-node_exists n nodes unique) parent;
      parents = (
        parent_exists-cons n nodes n.parent_id parent,
        All-map₂ (λ m. parent_exists m.parent_id nodes ≡ true)
            (λ m. parent_exists m.parent_id nodes ≡ true)
            (λ m. parent_exists m.parent_id (n ∷ nodes) ≡ true)
            (λ m a _. parent_exists-cons n nodes m.parent_id a) nodes h.parents h.parents,
      );
      folders = (
        HasFolderParent-cons n nodes n.parent_id below,
        All-map₂ (λ m. HasFolderParent nodes m.parent_id) (λ m. HasFolderParent nodes m.parent_id)
            (λ m. HasFolderParent (n ∷ nodes) m.parent_id)
            (λ m a _. HasFolderParent-cons n nodes m.parent_id a) nodes h.folders h.folders,
      );
      closed = (
        (λ f. HasActiveParent-cons n nodes n.parent_id (closed f)),
        All-map₂ (λ m. active_folder m ≡ true → HasActiveParent nodes m.parent_id)
            (λ m. active_folder m ≡ true → HasActiveParent nodes m.parent_id)
            (λ m. active_folder m ≡ true → HasActiveParent (n ∷ nodes) m.parent_id)
            (λ m a _ f. HasActiveParent-cons n nodes m.parent_id (a f)) nodes h.closed h.closed,
      );
    })

create_folder-parts :
    (id parent_id : ℕ) (name : String) (now : ℕ) (nodes after : List NodeRecord) (n : NodeRecord)
    → create_folder id parent_id name now nodes ≡ ok (n, after)
    → (is_active_folder parent_id nodes ≡ true)
      × (n ≡ new_node id parent_id name folder none none now)
      × (insert_node n nodes ≡ ok after)
unfolding create_folder ensure_active_folder
create_folder-parts id parent_id name now nodes after n e = ground arith

-- Creating a folder keeps the hierarchy.
pub create_folder-IsHierarchy :
    (id parent_id : ℕ) (name : String) (now : ℕ) (nodes after : List NodeRecord) (n : NodeRecord)
    → IsHierarchy nodes
    → create_folder id parent_id name now nodes ≡ ok (n, after)
    → IsHierarchy after
create_folder-IsHierarchy id parent_id name now nodes after n h e =
    let (folder_above, same, inserted) =
      create_folder-parts id parent_id name now nodes after n e in
    insert_node-IsHierarchy n nodes after h
      (rw same (folder_of_active nodes (some parent_id) folder_above)) (λ _. rw same folder_above)
      inserted
