-- ===== src/Db/Nodes/Invariant.antt =====
-- The invariant of the `nodes` table of crates/db/src/lib.rs: unique keys, parents that are folders, no
-- cycles, and every active folder below an active folder.
use mathlib.Core.WellFounded.{Acc}
use strife.Base.{
  ℕ, ◌≡◌, refl, sym, ap, ◌∙◌, subst, Option, none, some, List, [], ◌∷◌, Bool, true, false, ◌&&◌,
  arith, ◌⊎◌, inl, inr, not, ◌==◌, ==_iff, if◌then◌else◌, any, All, Bool-cases, update_rows,
}
use strife.Base.Rows.{NoClash, rows-found, All-any, All-of_not_any, All-map₂}
use strife.Base.Result.{ok}
use strife.Db.Schema.{NodeRecord}
use strife.Db.Nodes.{
  get_node_by_id, node_clash, active_folder, is_active_folder, parent_exists, has_clash,
  update_nodes, active, is_folder,
}
use strife.Db.Nodes.Tree.{is_child, children}
use strife.Db.Nodes.Tree.Descent.{edge, Below, elem-children, children-elem}
use strife.Db.Nodes.Tree.Termination.{parent_of, IsParent, IsForest, node_keyed}

abbrev pub HasActiveParent : List NodeRecord → Option ℕ → Type 0
HasActiveParent nodes none = Unit {0}
HasActiveParent nodes (some p) = is_active_folder p nodes ≡ true

-- A node with that id is a folder, whatever its state.
abbrev pub is_folder_node : ℕ → List NodeRecord → Bool
is_folder_node id = any (λ n. n.id == id && is_folder n.kind)

abbrev pub HasFolderParent : List NodeRecord → Option ℕ → Type 0
HasFolderParent nodes none = Unit {0}
HasFolderParent nodes (some p) = is_folder_node p nodes ≡ true

-- Unique keys and active sibling names, no cycle, parents that are folders, and active folders below
-- active folders.
pub record IsHierarchy (nodes : List NodeRecord) : Type 0 where
  pub unique : NoClash node_clash nodes
  pub forest : IsForest nodes
  pub parents : All (λ n. parent_exists n.parent_id nodes ≡ true) nodes
  pub folders : All (λ n. HasFolderParent nodes n.parent_id) nodes
  pub closed : All (λ n. active_folder n ≡ true → HasActiveParent nodes n.parent_id) nodes

has_clash-NoClash : (nodes : List NodeRecord) → has_clash nodes ≡ false → NoClash node_clash nodes
has_clash-NoClash [] h = tt
has_clash-NoClash (n ∷ ns) h = (ground arith, has_clash-NoClash ns (ground arith))

update_nodes-tests :
    (p : NodeRecord → Bool) (f : NodeRecord → NodeRecord) (nodes after : List NodeRecord)
    → update_nodes p f nodes ≡ ok after
    → (after ≡ update_rows p f nodes)
      × (has_clash (update_rows p f nodes) ≡ false)
      × (any (λ n. not (parent_exists n.parent_id (update_rows p f nodes))) (update_rows p f nodes)
          ≡ false)
unfolding update_nodes
update_nodes-tests p f nodes after e = ground arith

-- What a successful UPDATE of `nodes` leaves: the table with the rows changed, under the constraints.
pub update_nodes-ok :
    (p : NodeRecord → Bool) (f : NodeRecord → NodeRecord) (nodes after : List NodeRecord)
    → update_nodes p f nodes ≡ ok after
    → (after ≡ update_rows p f nodes)
      × NoClash node_clash after
      × All (λ n. parent_exists n.parent_id after ≡ true) after
update_nodes-ok p f nodes after e =
    let (same, unique, parents) = update_nodes-tests p f nodes after e in
    let table : List NodeRecord = update_rows p f nodes in
    (
      same,
      rw same (has_clash-NoClash table unique),
      rw same (
          All-map₂ (λ n. not (parent_exists n.parent_id table) ≡ false)
            (λ n. not (parent_exists n.parent_id table) ≡ false)
            (λ n. parent_exists n.parent_id table ≡ true) (λ n h _. ground arith) table
            (All-of_not_any _ table parents) (All-of_not_any _ table parents)),
    )

-- `a` is `d` or a node above it.
pub data Above (nodes : List NodeRecord) (d : ℕ) : ℕ → Type 0 where
  self : Above nodes d d
  up : {a b : ℕ} → Above nodes d a → parent_of nodes a ≡ some b → Above nodes d b

module _ (nodes after : List NodeRecord) (moved : ℕ → Bool) (d : ℕ)
    (parents : (x : ℕ) → parent_of after x ≡ (if moved x then some d else parent_of nodes x))
    (clear : (a : ℕ) → Above nodes d a → moved a ≡ false) where
  Above-Acc : (a : ℕ) → Acc (IsParent nodes) a → Above nodes d a → Acc (IsParent after) a
  Above-Acc a (Acc.intro _ above) h = Acc.intro a λ p e.
      let e' : parent_of nodes a ≡ some p = ground (arith, parents a, clear a h) in
      Above-Acc p (above p e') (Above.up h e')

  moved-Acc : (x : ℕ) → Acc (IsParent nodes) d → Acc (IsParent nodes) x → Acc (IsParent after) x
  moved-Acc x at_d (Acc.intro _ above) = Acc.intro x λ p e. elim (Bool-cases (moved x)) [
    | inl yes_moved ↦
        subst (Acc (IsParent after)) (ground (arith, parents x)) (Above-Acc d at_d Above.self)
    | inr stays ↦ moved-Acc p at_d (above p (ground (arith, parents x)))
  ]

  -- Hanging nodes below `d` makes no cycle if none of them is `d` or above it.
  pub moved-IsForest : IsForest nodes → IsForest after
  moved-IsForest f x = moved-Acc x (f d) (f x)

folder_of_active_any :
    (p : ℕ) (ns : List NodeRecord) → is_active_folder p ns ≡ true → is_folder_node p ns ≡ true
folder_of_active_any p [] a = a
folder_of_active_any p (n ∷ ns) a = ground (arith, folder_of_active_any p ns)

pub folder_of_active :
    (nodes : List NodeRecord) (o : Option ℕ) → HasActiveParent nodes o → HasFolderParent nodes o
folder_of_active nodes none a = tt
folder_of_active nodes (some p) a = folder_of_active_any p nodes a

-- The row of an id meets a test on the id's rows.
pub any-of_row :
    (q : NodeRecord → Bool) (d : ℕ) (n : NodeRecord) (ns : List NodeRecord)
    → get_node_by_id d ns ≡ some n
    → q n ≡ true
    → any (λ m. m.id == d && q m) ns ≡ true
any-of_row q d n [] e t = cc
any-of_row q d n (m ∷ ms) e t = elim (Bool-cases (m.id == d)) [
  | inl here ↦ ground arith
  | inr later ↦ ground (arith, any-of_row q d n ms)
]

module _ (nodes : List NodeRecord) (h : IsHierarchy nodes) where
  -- Every row is the node's row.
  pub node-rows : All (λ n. get_node_by_id n.id nodes ≡ some n) nodes
  node-rows = rows-found (λ n. n.id) node_clash node_keyed nodes h.unique

  pub row-of_active_folder :
      (d : ℕ)
      → is_active_folder d nodes ≡ true
      → (n : NodeRecord) × (get_node_by_id d nodes ≡ some n)
        × (active_folder n ≡ true)
        × HasActiveParent nodes n.parent_id
  row-of_active_folder d e =
      let both =
        All-map₂ (λ n. get_node_by_id n.id nodes ≡ some n)
          (λ n. active_folder n ≡ true → HasActiveParent nodes n.parent_id)
          (λ n.
            (get_node_by_id n.id nodes ≡ some n)
            × (active_folder n ≡ true → HasActiveParent nodes n.parent_id))
          (λ n a b. (a, b)) nodes node-rows h.closed in
      let (n, (at_n, closed), hit) = All-any _ (λ n. n.id == d && active_folder n) nodes both e in
      let same : n.id ≡ d = (==_iff n.id d).0 (ground arith) in
      (n, ap (λ i. get_node_by_id i nodes) (sym same) ∙ at_n, ground arith, closed (ground arith))

  Below-under :
      (a b : ℕ) {x : ℕ}
      → edge active nodes b a ≡ true
      → Below active nodes (children active nodes (a ∷ [])) x
      → Below active nodes (children active nodes (b ∷ [])) x
  Below-under a b e (Below.start x i) =
      let (p, is_p, hit) = elem-children active nodes x (a ∷ []) i in
      let same : a ≡ p = (==_iff a p).0 (ground arith) in
      Below.child a x (Below.start a (children-elem active nodes b a (b ∷ []) (ground arith) e))
        (rw same hit)
  Below-under a b e (Below.child p c under i) = Below.child p c (Below-under a b e under) i

  -- Above an active folder there are only active folders, and it is found below each of them.
  pub Above-active_folder :
      (d a : ℕ)
      → is_active_folder d nodes ≡ true
      → Above nodes d a
      → (is_active_folder a nodes ≡ true)
        × ((d ≡ a) ⊎ Below active nodes (children active nodes (a ∷ [])) d)
  Above-active_folder d a f self = (f, inl refl)
  Above-active_folder d b f (up {a} above e) =
      let (folder_a, below) = Above-active_folder d a f above in
      let (n, at_n, is_active, parent) = row-of_active_folder a folder_a in
      let parent_n : n.parent_id ≡ some b = rw (at_n, parent_of) at e in
      let hit : edge active nodes b a ≡ true =
        any-of_row (is_child active b) a n nodes at_n (rw parent_n (ground arith)) in
      (
        subst (HasActiveParent nodes) parent_n parent,
        elim below [
          | inl same ↦
              inr (
                Below.start d
                  (children-elem active nodes b d (b ∷ []) (ground arith) (rw same hit)))
          | inr under ↦ inr (Below-under a b hit under)
        ],
      )
