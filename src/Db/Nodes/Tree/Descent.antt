-- ===== src/Db/Nodes/Tree/Descent.antt =====
-- The recursive query with UNION ALL (descendant_ids of crates/db/src/lib.rs) and what is below its start.
use strife.Base.{
  ℕ, zero, suc, ◌≡◌, refl, some, List, [], ◌∷◌, ◌++◌, Bool, true, ◌&&◌, arith, ◌⊎◌, inl, inr, ◌↔◌,
  ◌==◌, ==_iff, any, any-append, elem, where_rows, some_injective, Bool-cases, Option-cases,
}
use strife.Db.Schema.{NodeRecord}
use strife.Db.Nodes.Tree.{is_child, ids, children, descend}

module _ (live : NodeRecord → Bool) (nodes : List NodeRecord) where
  -- A row of `c` is live and has the parent `p`.
  abbrev pub edge : ℕ → ℕ → Bool
  edge p c = any (λ n. n.id == c && is_child live p n) nodes

  -- `x` is in `ws` or hangs below it by live rows.
  pub data Below (ws : List ℕ) : ℕ → Type 0 where
    start : (x : ℕ) → elem x ws ≡ true → Below ws x
    child : (p c : ℕ) → Below ws p → edge p c ≡ true → Below ws c

pub elem-ids :
    (q : NodeRecord → Bool) (c : ℕ) (ns : List NodeRecord)
    → elem c (ids (where_rows q ns)) ≡ any (λ n. n.id == c && q n) ns
elem-ids q c [] = refl
elem-ids q c (n ∷ ns) = ground (arith, elem-ids q c ns)

module _ (live : NodeRecord → Bool) (nodes : List NodeRecord) where
  pub elem-children :
      (c : ℕ) (ws : List ℕ)
      → elem c (children live nodes ws) ≡ true
      → (p : ℕ) × (elem p ws ≡ true) × (edge live nodes p c ≡ true)
  elem-children c [] h = cc
  elem-children c (w ∷ ws) h = elim (Bool-cases (edge live nodes w c)) [
    | inl e ↦ (w, ground arith, e)
    | inr e ↦
        let found = elem-children c ws (
          ground (
            arith,
            any-append (λ y. y == c) (ids (where_rows (is_child live w) nodes))
                (children live nodes ws),
            elem-ids (is_child live w) c nodes,
          )) in
        (found.0, ground (arith, found.1), found.2)
  ]

  pub children-elem :
      (p c : ℕ) (ws : List ℕ)
      → elem p ws ≡ true
      → edge live nodes p c ≡ true
      → elem c (children live nodes ws) ≡ true
  children-elem p c [] h e = cc
  children-elem p c (w ∷ ws) h e =
      rw
        (
          any-append (λ y. y == c) (ids (where_rows (is_child live w) nodes))
              (children live nodes ws),
          elem-ids (is_child live w) c nodes,
        )
        (elim (Bool-cases (w == p)) [
          | inl same ↦ rw ((==_iff w p).0 same, e) refl
          | inr other ↦ ground (arith, children-elem p c ws (ground arith) e)
        ])

  Below-of_children :
      (ws : List ℕ) {x : ℕ} → Below live nodes (children live nodes ws) x → Below live nodes ws x
  Below-of_children ws (Below.start x h) =
      let up = elem-children x ws h in Below.child up.0 x (Below.start up.0 up.1) up.2
  Below-of_children ws (Below.child p c b e) = Below.child p c (Below-of_children ws b) e

  Below-cases :
      (ws : List ℕ) {x : ℕ}
      → Below live nodes ws x
      → (elem x ws ≡ true) ⊎ Below live nodes (children live nodes ws) x
  Below-cases ws (Below.start x h) = inl h
  Below-cases ws (Below.child p c b e) = elim (Below-cases ws b) [
    | inl here ↦ inr (Below.start c (children-elem p c ws here e))
    | inr down ↦ inr (Below.child p c down e)
  ]

  not-Below-nil : {x : ℕ} → ¬ Below live nodes [] x
  not-Below-nil (Below.start x h) = cc
  not-Below-nil (Below.child p c b e) = not-Below-nil b

  descend_sound :
      (fuel : ℕ) (ws r : List ℕ) (x : ℕ)
      → descend live nodes fuel ws ≡ some r
      → elem x r ≡ true
      → Below live nodes ws x
  unfolding descend
  descend_sound zero [] r x e h = ground arith
  descend_sound (suc fuel) [] r x e h = ground arith
  descend_sound zero (w ∷ ws) r x e h = cc
  descend_sound (suc fuel) (w ∷ ws) r x e h =
      elim (Option-cases (descend live nodes fuel (children live nodes (w ∷ ws)))) [
        | inl n ↦ ground arith
        | inr (rest, at_rest) ↦
            let whole : (w ∷ ws) ++ rest ≡ r = some_injective (rw at_rest at e) in
            elim (Bool-cases (elem x (w ∷ ws))) [
              | inl here ↦ Below.start x here
              | inr below ↦ Below-of_children (w ∷ ws) (
                  descend_sound fuel (children live nodes (w ∷ ws)) rest x at_rest
                    (ground (arith, any-append (λ y. y == x) (w ∷ ws) rest)))
            ]
      ]

  descend_complete :
      (fuel : ℕ) (ws r : List ℕ) (x : ℕ)
      → descend live nodes fuel ws ≡ some r
      → Below live nodes ws x
      → elem x r ≡ true
  unfolding descend
  descend_complete zero [] r x e h = absurd (not-Below-nil h)
  descend_complete (suc fuel) [] r x e h = absurd (not-Below-nil h)
  descend_complete zero (w ∷ ws) r x e h = cc
  descend_complete (suc fuel) (w ∷ ws) r x e h =
      elim (Option-cases (descend live nodes fuel (children live nodes (w ∷ ws)))) [
        | inl n ↦ ground arith
        | inr (rest, at_rest) ↦
            let whole : (w ∷ ws) ++ rest ≡ r = some_injective (rw at_rest at e) in
            elim (Below-cases (w ∷ ws) h) [
              | inl here ↦ ground (arith, any-append (λ y. y == x) (w ∷ ws) rest)
              | inr below ↦ ground (
                arith,
                any-append (λ y. y == x) (w ∷ ws) rest,
                descend_complete fuel (children live nodes (w ∷ ws)) rest x at_rest below,
              )
            ]
      ]

  -- A recursive query that ends returns exactly the ids of its start and of the rows that hang
  -- below it by live rows.
  pub descend_iff :
      (fuel : ℕ) (ws r : List ℕ) (x : ℕ)
      → descend live nodes fuel ws ≡ some r
      → (elem x r ≡ true) ↔ Below live nodes ws x
  descend_iff fuel ws r x e = (descend_sound fuel ws r x e, descend_complete fuel ws r x e)
