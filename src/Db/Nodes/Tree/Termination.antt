-- ===== src/Db/Nodes/Tree/Termination.antt =====
-- The depth of a node and the rounds of the recursive queries of crates/db/src/lib.rs.
use mathlib.Core.WellFounded.{Acc, Acc-prop}
use strife.Base.{
  ℕ, zero, suc, ◌+◌, ◌≤◌, ◌<◌, ◌≡◌, refl, ap, subst, Option, none, some, List, [], ◌∷◌, ◌++◌, Bool,
  true, ◌&&◌, arith, inl, inr, ltb, ◌==◌, ==_iff, holds, elem, count, length, some_injective,
  Bool-cases,
}
use strife.Base.Rows.{row, NoClash, rows-found, All-any}
use strife.Db.Schema.{NodeRecord}
use strife.Db.Nodes.{get_node_by_id, node_exists, node_clash}
use strife.Db.Nodes.Tree.{is_child, children, descend}
use strife.Db.Nodes.Tree.Descent.{edge, elem-children}

abbrev pub parent_of_row : Option NodeRecord → Option ℕ
parent_of_row none = none
parent_of_row (some n) = n.parent_id

abbrev pub parent_of : List NodeRecord → ℕ → Option ℕ
parent_of nodes c = parent_of_row (get_node_by_id c nodes)

abbrev pub IsParent : List NodeRecord → ℕ → ℕ → Type 0
IsParent nodes p c = parent_of nodes c ≡ some p

-- No node is above itself: from every id the chain of parents comes to an end.
abbrev pub IsForest : List NodeRecord → Type 0
IsForest nodes = (x : ℕ) → Acc (IsParent nodes) x

depth_at :
    (nodes : List NodeRecord) (x : ℕ)
    → ((p : ℕ) → IsParent nodes p x → ℕ)
    → (o : Option ℕ) → parent_of nodes x ≡ o
    → ℕ
depth_at nodes x f none e = 0
depth_at nodes x f (some p) e = suc (f p e)

depth : (nodes : List NodeRecord) (x : ℕ) → Acc (IsParent nodes) x → ℕ
depth nodes x (Acc.intro _ up) =
    depth_at nodes x (λ p e. depth nodes p (up p e)) (parent_of nodes x) refl

depth-eq :
    (nodes : List NodeRecord) (p q : ℕ) (a : Acc (IsParent nodes) p) (b : Acc (IsParent nodes) q)
    → p ≡ q
    → depth nodes p a ≡ depth nodes q b
depth-eq nodes p q a b e =
    subst (λ r. (c : Acc (IsParent nodes) r) → depth nodes p a ≡ depth nodes r c) e
      (λ c. ap (depth nodes p) (Acc-prop a c)) b

depth_at-suc :
    (nodes : List NodeRecord) (p c : ℕ) (up : (q : ℕ) → IsParent nodes q c → Acc (IsParent nodes) q)
    (b : Acc (IsParent nodes) p) (o : Option ℕ) (q : parent_of nodes c ≡ o)
    → o ≡ some p
    → depth_at nodes c (λ r e. depth nodes r (up r e)) o q ≡ suc (depth nodes p b)
unfolding depth_at
depth_at-suc nodes p c up b none q h = cc
depth_at-suc nodes p c up b (some r) q h = ap suc (depth-eq nodes r p (up r q) b (some_injective h))

depth-suc :
    (nodes : List NodeRecord) (p c : ℕ) (a : Acc (IsParent nodes) c) (b : Acc (IsParent nodes) p)
    → parent_of nodes c ≡ some p
    → depth nodes c a ≡ suc (depth nodes p b)
unfolding depth
depth-suc nodes p c (Acc.intro _ up) b e = depth_at-suc nodes p c up b (parent_of nodes c) refl e

-- the rows above the depth `r`
pub above : (ℕ → ℕ) → ℕ → List NodeRecord → ℕ
above rank r nodes = count (λ n. ltb (rank n.id) r) nodes

above_mono :
    (rank : ℕ → ℕ) (r s : ℕ) (nodes : List NodeRecord)
    → r ≤ s
    → above rank r nodes ≤ above rank s nodes
unfolding above
above_mono rank r s [] h = omega arith
above_mono rank r s (n ∷ ns) h = ground (arith, above_mono rank r s ns)

above-lt :
    (rank : ℕ → ℕ) (p s : ℕ) (nodes : List NodeRecord)
    → node_exists p nodes ≡ true
    → rank p < s
    → above rank (rank p) nodes < above rank s nodes
unfolding above
above-lt rank p s [] e h = cc
above-lt rank p s (n ∷ ns) e h = elim (Bool-cases (n.id == p)) [
  | inl same ↦
      let at : rank n.id ≡ rank p = ap rank ((==_iff n.id p).0 same) in
      ground (arith, above_mono rank (rank p) s ns)
  | inr other ↦ ground (arith, above-lt rank p s ns)
]

above-le-length :
    (rank : ℕ → ℕ) (r : ℕ) (nodes : List NodeRecord) → above rank r nodes ≤ length nodes
unfolding above
above-le-length rank r [] = omega arith
above-le-length rank r (n ∷ ns) = ground (arith, above-le-length rank r ns)

pub above-lt-length :
    (rank : ℕ → ℕ) (p : ℕ) (nodes : List NodeRecord)
    → node_exists p nodes ≡ true
    → above rank (rank p) nodes < length nodes
above-lt-length rank p nodes e = omega (
  arith,
  above-lt rank p (suc (rank p)) nodes e (omega arith),
  above-le-length rank (suc (rank p)) nodes,
)

pub node_keyed : (x y : NodeRecord) → (y.id == x.id) ≡ true → node_clash x y ≡ true
node_keyed x y h = ground arith

holds-eq : (o : Option ℕ) (p : ℕ) → holds o p ≡ true → o ≡ some p
holds-eq none p h = cc
holds-eq (some q) p h = ap some ((==_iff q p).0 h)

module _ (live : NodeRecord → Bool) (nodes : List NodeRecord)
    (unique : NoClash node_clash nodes) where
  -- A row found below `p` is the node's row, and `p` is its parent.
  pub IsParent-edge : (p c : ℕ) → edge live nodes p c ≡ true → IsParent nodes p c
  IsParent-edge p c e =
      let hit =
        All-any (λ n. row (λ m. m.id) n.id nodes ≡ some n) (λ n. n.id == c && is_child live p n)
          nodes (rows-found (λ n. n.id) node_clash node_keyed nodes unique) e in
      let n : NodeRecord = hit.0 in
      let same : n.id ≡ c = (==_iff n.id c).0 (ground (arith, hit.2)) in
      rw (← same) (rw (hit.1, parent_of) (holds-eq n.parent_id p (ground (arith, hit.2))))

pub edge-node_exists :
    (live : NodeRecord → Bool) (p c : ℕ) (nodes : List NodeRecord)
    → edge live nodes p c ≡ true
    → node_exists c nodes ≡ true
edge-node_exists live p c [] e = cc
edge-node_exists live p c (n ∷ ns) e = ground (arith, edge-node_exists live p c ns)

module _ (live : NodeRecord → Bool) (nodes : List NodeRecord) (unique : NoClash node_clash nodes)
    (forest : IsForest nodes) where
  pub rank : ℕ → ℕ
  rank x = depth nodes x (forest x)

  -- a row of round `k`
  unfoldable pub IsDeep : ℕ → ℕ → Type 0
  IsDeep k x = (node_exists x nodes ≡ true) × (k ≤ above rank (rank x) nodes)

  pub children-IsDeep :
      (k : ℕ) (ws : List ℕ)
      → ((x : ℕ) → elem x ws ≡ true → IsDeep k x)
      → (c : ℕ) → elem c (children live nodes ws) ≡ true
      → IsDeep (suc k) c
  unfolding IsDeep
  children-IsDeep k ws h c e =
      let up = elem-children live nodes c ws e in
      let deep = h up.0 up.1 in
      let step : rank c ≡ suc (rank up.0) =
        unfold rank in
        depth-suc nodes up.0 c (forest c) (forest up.0)
          (IsParent-edge live nodes unique up.0 c up.2) in
      (
        edge-node_exists live up.0 c nodes up.2,
        omega (arith, above-lt rank up.0 (rank c) nodes deep.0 (omega (arith, step)), deep.1),
      )

  descend-ends :
      (fuel k : ℕ) (ws : List ℕ)
      → k + fuel ≡ length nodes
      → ((x : ℕ) → elem x ws ≡ true → IsDeep k x)
      → (r : List ℕ) × (descend live nodes fuel ws ≡ some r)
  unfolding descend IsDeep
  descend-ends zero k [] e h = ([], refl)
  descend-ends (suc fuel) k [] e h = ([], refl)
  descend-ends zero k (w ∷ ws) e h =
      let deep = h w (ground arith) in
      absurd (omega (arith, above-lt-length rank w nodes deep.0, deep.1))
  descend-ends (suc fuel) k (w ∷ ws) e h =
      let (r, at_r) =
        descend-ends fuel (suc k) (children live nodes (w ∷ ws)) (omega arith)
          (children-IsDeep k (w ∷ ws) h) in
      ((w ∷ ws) ++ r, rw at_r refl)

  -- Over a forest with unique keys a recursive query that starts at rows of the table ends, and
  -- as many rounds as the table has rows are enough.
  pub descend-terminates :
      (ws : List ℕ)
      → ((x : ℕ) → elem x ws ≡ true → node_exists x nodes ≡ true)
      → (r : List ℕ) × (descend live nodes (length nodes) ws ≡ some r)
  unfolding IsDeep
  descend-terminates ws h =
      descend-ends (length nodes) 0 ws (omega arith) (λ x e. (h x e, omega arith))
