-- ===== src/Db/Nodes/Tree/Distinct.antt =====
-- The recursive query with UNION (collect_active_subtree_ids of crates/db/src/lib.rs): its rows and its end.
use strife.Base.{
  ℕ, zero, suc, ◌+◌, ◌≡◌, refl, ap, subst, some, List, [], ◌∷◌, ◌++◌, Bool, true, false, ◌||◌,
  arith, ◌⊎◌, inl, inr, ◌↔◌, ◌==◌, ==_iff, any-append, elem, length, some_injective, Bool-cases,
}
use strife.Base.Rows.{NoClash}
use strife.Db.Schema.{NodeRecord}
use strife.Db.Nodes.{node_exists, node_clash}
use strife.Db.Nodes.Tree.{children, new_ids, descend_distinct}
use strife.Db.Nodes.Tree.Descent.{edge, Below, elem-children, children-elem}
use strife.Db.Nodes.Tree.Termination.{IsForest, rank, above-lt-length, IsDeep, children-IsDeep}

-- What `new_ids` keeps is in the list, and it keeps what was not seen.
pub elem-new_ids : (x : ℕ) (seen xs : List ℕ) → elem x (new_ids seen xs) ≡ true → elem x xs ≡ true
elem-new_ids x seen [] h = h
elem-new_ids x seen (y ∷ ys) h =
    ground (arith, elem-new_ids x seen ys, elem-new_ids x (y ∷ seen) ys)

pub new_ids-elem :
    (x : ℕ) (seen xs : List ℕ)
    → elem x xs ≡ true
    → elem x seen ≡ false
    → elem x (new_ids seen xs) ≡ true
new_ids-elem x seen [] h n = h
new_ids-elem x seen (y ∷ ys) h n = elim (Bool-cases (y == x)) [
  | inl hit ↦ ground (arith, ap (λ z. elem z seen) ((==_iff y x).0 hit))
  | inr miss ↦ ground (arith, new_ids-elem x seen ys, new_ids-elem x (y ∷ seen) ys)
]

module _ (live : NodeRecord → Bool) (nodes : List NodeRecord) where
  -- The rows below those seen are seen or in the working table.
  abbrev IsClosed : List ℕ → List ℕ → Type 0
  IsClosed seen ws =
      (p c : ℕ)
      → elem p seen ≡ true
      → edge live nodes p c ≡ true
      → (elem c ws || elem c seen) ≡ true

  elem-next : (x : ℕ) (seen ws : List ℕ) → elem x (ws ++ seen) ≡ (elem x ws || elem x seen)
  elem-next x seen ws = any-append (λ y. y == x) ws seen

  next-IsClosed :
      (seen ws : List ℕ)
      → IsClosed seen ws
      → IsClosed (ws ++ seen) (new_ids (ws ++ seen) (children live nodes ws))
  next-IsClosed seen ws closed p c h e = elim (Bool-cases (elem c (ws ++ seen))) [
    | inl old ↦ ground (arith, old)
    | inr new ↦ elim (Bool-cases (elem p ws)) [
      | inl here ↦ ground (
        arith,
        new_ids-elem c (ws ++ seen) (children live nodes ws)
            (children-elem live nodes p c ws here e) new,
      )
      | inr below ↦
          ground (arith, closed p c (ground (arith, elem-next p seen ws)) e, elem-next c seen ws)
    ]
  ]

  distinct-closed :
      (fuel : ℕ) (seen ws r : List ℕ)
      → IsClosed seen ws
      → descend_distinct live nodes fuel seen ws ≡ some r
      → ((x : ℕ) → (elem x ws || elem x seen) ≡ true → elem x r ≡ true)
        × ((p c : ℕ) → elem p r ≡ true → edge live nodes p c ≡ true → elem c r ≡ true)
  unfolding descend_distinct
  distinct-closed zero seen [] r closed e =
      subst
        (λ s.
          ((x : ℕ) → elem x seen ≡ true → elem x s ≡ true)
          × ((p c : ℕ) → elem p s ≡ true → edge live nodes p c ≡ true → elem c s ≡ true))
        (some_injective e) ((λ x h. h), closed)
  distinct-closed (suc fuel) seen [] r closed e =
      subst
        (λ s.
          ((x : ℕ) → elem x seen ≡ true → elem x s ≡ true)
          × ((p c : ℕ) → elem p s ≡ true → edge live nodes p c ≡ true → elem c s ≡ true))
        (some_injective e) ((λ x h. h), closed)
  distinct-closed zero seen (w ∷ ws) r closed e = absurd cc
  distinct-closed (suc fuel) seen (w ∷ ws) r closed e =
      let (all_in, closed_in) =
        distinct-closed fuel ((w ∷ ws) ++ seen)
          (new_ids ((w ∷ ws) ++ seen) (children live nodes (w ∷ ws))) r
          (next-IsClosed seen (w ∷ ws) closed) e in
      ((λ x h. all_in x (ground (arith, elem-next x seen (w ∷ ws)))), closed_in)

  Below-of_next :
      (ws seen : List ℕ) {x : ℕ}
      → Below live nodes (new_ids seen (children live nodes ws)) x
      → Below live nodes ws x
  Below-of_next ws seen (Below.start x h) =
      let (p, here, e) =
        elem-children live nodes x ws (elem-new_ids x seen (children live nodes ws) h) in
      Below.child p x (Below.start p here) e
  Below-of_next ws seen (Below.child p c b e) = Below.child p c (Below-of_next ws seen b) e

  distinct_sound :
      (fuel : ℕ) (seen ws r : List ℕ) (x : ℕ)
      → descend_distinct live nodes fuel seen ws ≡ some r
      → elem x r ≡ true
      → (elem x seen ≡ true) ⊎ Below live nodes ws x
  unfolding descend_distinct
  distinct_sound zero seen [] r x e h = inl (rw (some_injective e) h)
  distinct_sound (suc fuel) seen [] r x e h = inl (rw (some_injective e) h)
  distinct_sound zero seen (w ∷ ws) r x e h = absurd cc
  distinct_sound (suc fuel) seen (w ∷ ws) r x e h =
      elim (distinct_sound fuel ((w ∷ ws) ++ seen)
        (new_ids ((w ∷ ws) ++ seen) (children live nodes (w ∷ ws))) r x e h) [
          | inl old ↦ elim (Bool-cases (elem x (w ∷ ws))) [
            | inl here ↦ inr (Below.start x here)
            | inr before ↦ inl (ground (arith, elem-next x seen (w ∷ ws)))
          ]
          | inr below ↦ inr (Below-of_next (w ∷ ws) ((w ∷ ws) ++ seen) below)
        ]

  Below-in :
      (ws r : List ℕ) {x : ℕ}
      → ((y : ℕ) → elem y ws ≡ true → elem y r ≡ true)
      → ((p c : ℕ) → elem p r ≡ true → edge live nodes p c ≡ true → elem c r ≡ true)
      → Below live nodes ws x
      → elem x r ≡ true
  Below-in ws r starts closed (Below.start x h) = starts x h
  Below-in ws r starts closed (Below.child p c b e) = closed p c (Below-in ws r starts closed b) e

  -- A recursive query with UNION returns exactly what is at or below its start.
  pub descend_distinct_iff :
      (fuel : ℕ) (ws r : List ℕ) (x : ℕ)
      → descend_distinct live nodes fuel [] ws ≡ some r
      → (elem x r ≡ true) ↔ Below live nodes ws x
  descend_distinct_iff fuel ws r x e =
      let (starts, closed) = distinct-closed fuel [] ws r (λ p c h _. cc) e in
      (
        λ h. elim (distinct_sound fuel [] ws r x e h) [ inl never ↦ absurd cc | inr below ↦ below ],
        λ b. Below-in ws r (λ y h. starts y (ground arith)) closed b,
      )

module _ (live : NodeRecord → Bool) (nodes : List NodeRecord) (unique : NoClash node_clash nodes)
    (forest : IsForest nodes) where
  distinct-ends :
      (fuel k : ℕ) (seen ws : List ℕ)
      → k + fuel ≡ length nodes
      → ((x : ℕ) → elem x ws ≡ true → IsDeep live nodes unique forest k x)
      → (r : List ℕ) × (descend_distinct live nodes fuel seen ws ≡ some r)
  unfolding descend_distinct IsDeep
  distinct-ends zero k seen [] e h = (seen, refl)
  distinct-ends (suc fuel) k seen [] e h = (seen, refl)
  distinct-ends zero k seen (w ∷ ws) e h =
      let (exists, deep) = h w (ground arith) in
      absurd (omega (arith, above-lt-length (rank live nodes unique forest) w nodes exists, deep))
  distinct-ends (suc fuel) k seen (w ∷ ws) e h =
      distinct-ends fuel (suc k) ((w ∷ ws) ++ seen)
        (new_ids ((w ∷ ws) ++ seen) (children live nodes (w ∷ ws))) (omega arith)
        (λ x i.
          children-IsDeep live nodes unique forest k (w ∷ ws) h x
            (elem-new_ids x ((w ∷ ws) ++ seen) (children live nodes (w ∷ ws)) i))

  -- On a forest it ends within as many rounds as the table has rows.
  pub descend_distinct-terminates :
      (ws : List ℕ)
      → ((x : ℕ) → elem x ws ≡ true → node_exists x nodes ≡ true)
      → (r : List ℕ) × (descend_distinct live nodes (length nodes) [] ws ≡ some r)
  unfolding IsDeep
  descend_distinct-terminates ws h =
      distinct-ends (length nodes) 0 [] ws (omega arith) (λ x e. (h x e, omega arith))
