-- ===== src/Base/Rows.antt =====
-- Tables as lists of rows: lookup by key, unique indexes, and what an UPDATE does to both.
use Prim.Native.Nat.{ℕ}
use mathlib.Core.Path.{◌≡◌, refl, sym, ap, subst, ◌∙◌}
use mathlib.Core.Logic.{inl, inr}
use mathlib.Core.Bool.{Bool, true, false}
use mathlib.Core.List.{List, [], ◌∷◌}
use mathlib.Core.Option.{Option, none, some}
use native.Mathlib.Omega.{arith}
use strife.Base.Tests.{◌==◌, ==_iff, some_injective, Bool-cases, if◌then◌else◌}
use strife.Base.Lists.{any, where_rows, update_rows, order_by, insert_by, All}

module _ {ℓ} {A : Type ℓ} where
  -- The first row of a key.
  abbrev pub row : (A → ℕ) → ℕ → List A → Option A
  row key i [] = none
  row key i (x ∷ xs) = if key x == i then some x else row key i xs

  abbrev pub changed : (A → Bool) → (A → A) → A → A
  changed p f x = if p x then f x else x

  abbrev pub map_row : (A → A) → Option A → Option A
  map_row f none = none
  map_row f (some x) = some (f x)

  -- No two rows clash: a unique index.
  abbrev pub NoClash : (A → A → Bool) → List A → Type 0
  NoClash clash [] = Unit {0}
  NoClash clash (x ∷ xs) = (any (clash x) xs ≡ false) × NoClash clash xs

module _ {ℓ} {A : Type ℓ} where
  pub All-of_forall {κ} : (P : A → Type κ) → ((x : A) → P x) → (xs : List A) → All P xs
  All-of_forall P h [] = tt
  All-of_forall P h (x ∷ xs) = (h x, All-of_forall P h xs)

  pub All-map₂ {κ μ ν} :
      (P : A → Type κ) (Q : A → Type μ) (R : A → Type ν)
      → ((x : A) → P x → Q x → R x)
      → (xs : List A) → All P xs
      → All Q xs
      → All R xs
  All-map₂ P Q R f [] p q = tt
  All-map₂ P Q R f (x ∷ xs) p q = (f x p.0 q.0, All-map₂ P Q R f xs p.1 q.1)

  pub All-of_not_any : (p : A → Bool) (xs : List A) → any p xs ≡ false → All (λ x. p x ≡ false) xs
  All-of_not_any p [] h = tt
  All-of_not_any p (x ∷ xs) h = (ground arith, All-of_not_any p xs (ground arith))

  -- What holds of all rows holds of one that passes a test.
  pub All-any {κ} :
      (P : A → Type κ) (p : A → Bool) (xs : List A)
      → All P xs
      → any p xs ≡ true
      → (x : A) × P x × (p x ≡ true)
  All-any P p [] h e = cc
  All-any P p (x ∷ xs) h e = elim (Bool-cases (p x)) [
    | inl here ↦ (x, h.0, here)
    | inr later ↦ All-any P p xs h.1 (rw later at e)
  ]

  pub All-where_rows {κ} :
      (P : A → Type κ) (p : A → Bool) (xs : List A)
      → All P xs
      → All (λ x. P x × (p x ≡ true)) (where_rows p xs)
  All-where_rows P p [] h = tt
  All-where_rows P p (x ∷ xs) h = ground (arith, All-where_rows P p xs h.1)

  pub All-of_where_rows {κ} :
      (P : A → Type κ) (p : A → Bool) (xs : List A)
      → All P (where_rows p xs)
      → All (λ x. p x ≡ true → P x) xs
  All-of_where_rows P p [] h = tt
  All-of_where_rows P p (x ∷ xs) h = elim (Bool-cases (p x)) [
    | inl e ↦
        let h' : All P (x ∷ where_rows p xs) = rw e at h in
        (λ _. h'.0, All-of_where_rows P p xs h'.1)
    | inr e ↦ (λ t. cc, All-of_where_rows P p xs (rw e at h))
  ]

  All-of_insert_by {κ} :
      (P : A → Type κ) (le : A → A → Bool) (x : A) (xs : List A)
      → All P (insert_by le x xs)
      → P x × All P xs
  All-of_insert_by P le x [] h = h
  All-of_insert_by P le x (y ∷ ys) h = elim (Bool-cases (le x y)) [
    | inl e ↦ let h' : All P (x ∷ y ∷ ys) = rw e at h in h'
    | inr e ↦
        let h' : All P (y ∷ insert_by le x ys) = rw e at h in
        let (at_x, rest) = All-of_insert_by P le x ys h'.1 in (at_x, (h'.0, rest))
  ]

  -- What holds of the ordered rows holds of the rows.
  pub All-of_order_by {κ} :
      (P : A → Type κ) (le : A → A → Bool) (xs : List A) → All P (order_by le xs) → All P xs
  All-of_order_by P le [] h = tt
  All-of_order_by P le (x ∷ xs) h =
      let (at_x, rest) = All-of_insert_by P le x (order_by le xs) h in
      (at_x, All-of_order_by P le xs rest)

module _ {ℓ} {A : Type ℓ} (key : A → ℕ) where
  -- The row of a key has that key, and what holds of all rows.
  pub key-row : (i : ℕ) (xs : List A) (x : A) → row key i xs ≡ some x → key x ≡ i
  key-row i [] x e = cc
  key-row i (y ∷ ys) x e = elim (Bool-cases (key y == i)) [
    | inl hit ↦ ap key (sym (some_injective (rw hit at e))) ∙ (==_iff (key y) i).0 hit
    | inr miss ↦ key-row i ys x (rw miss at e)
  ]

  pub row-All {κ} :
      (P : A → Type κ) (i : ℕ) (xs : List A) (x : A) → All P xs → row key i xs ≡ some x → P x
  row-All P i [] x h e = cc
  row-All P i (y ∷ ys) x h e = elim (Bool-cases (key y == i)) [
    | inl hit ↦ subst P (some_injective (rw hit at e)) h.0
    | inr miss ↦ row-All P i ys x h.1 (rw miss at e)
  ]

  -- An UPDATE that leaves the key alone acts on the row of each key.
  pub row-update_rows :
      (p : A → Bool) (f : A → A)
      → ((x : A) → key (f x) ≡ key x)
      → (i : ℕ) (xs : List A)
      → row key i (update_rows p f xs) ≡ map_row (changed p f) (row key i xs)
  row-update_rows p f same i [] = refl
  row-update_rows p f same i (x ∷ xs) = ground (arith, same x, row-update_rows p f same i xs)

  -- Two rows of one key are one row.
  pub eq_of_key :
      (x y : A) (xs : List A)
      → row key (key x) xs ≡ some x
      → row key (key y) xs ≡ some y
      → (key y == key x) ≡ true
      → x ≡ y
  eq_of_key x y xs px py same =
      some_injective (sym px ∙ ap (λ i. row key i xs) (sym ((==_iff (key y) (key x)).0 same)) ∙ py)

  -- A test that no row passes fails on the row of a key.
  pub row-not_any :
      (p : A → Bool) (i : ℕ) (xs : List A) (x : A)
      → any p xs ≡ false
      → row key i xs ≡ some x
      → p x ≡ false
  row-not_any p i [] x h e = cc
  row-not_any p i (y ∷ ys) x h e = ground (arith, row-not_any p i ys x)

  row-cons : (x : A) (xs : List A) → row key (key x) (x ∷ xs) ≡ some x
  row-cons x xs = ground arith

  module _ (clash : A → A → Bool)
      (keyed : (x y : A) → (key y == key x) ≡ true → clash x y ≡ true) where
    -- Under a unique index on the key every row is the row of its key.
    pub rows-found : (xs : List A) → NoClash clash xs → All (λ x. row key (key x) xs ≡ some x) xs
    rows-found [] h = tt
    rows-found (x ∷ xs) h = (
      row-cons x xs,
      All-map₂ (λ y. clash x y ≡ false) (λ y. row key (key y) xs ≡ some y)
          (λ y. row key (key y) (x ∷ xs) ≡ some y) (λ y p q. ground (arith, keyed x y)) xs
          (All-of_not_any (clash x) xs h.0) (rows-found xs h.1),
    )

-- What holds of the rows of an updated table.
pub All-update_rows {ℓ κ μ} :
    {A : Type ℓ} (P : A → Type κ) (R : A → Type μ) (p : A → Bool) (f : A → A)
    → ((x : A) → P x → R (changed p f x))
    → (xs : List A) → All P xs
    → All R (update_rows p f xs)
All-update_rows P R p f keep [] h = tt
All-update_rows P R p f keep (x ∷ xs) h = (keep x h.0, All-update_rows P R p f keep xs h.1)

module _ {ℓ} {A : Type ℓ} (Q : A → Type 0) (p : A → Bool) (f : A → A) where
  module _ (clash : A → A → Bool)
      (less : (x y : A)
        → Q x
        → Q y
        → clash (changed p f x) (changed p f y) ≡ true
        → clash x y ≡ true) where
    any-update_rows :
        (x : A) (xs : List A)
        → Q x
        → All Q xs
        → any (clash x) xs ≡ false
        → any (clash (changed p f x)) (update_rows p f xs) ≡ false
    any-update_rows x [] qx q h = refl
    any-update_rows x (y ∷ ys) qx q h = ground (arith, less x y qx q.0, any-update_rows x ys qx q.1)

    -- An UPDATE that makes no new clash keeps a unique index.
    pub update_rows-NoClash :
        (xs : List A) → All Q xs → NoClash clash xs → NoClash clash (update_rows p f xs)
    update_rows-NoClash [] q h = tt
    update_rows-NoClash (x ∷ xs) q h =
        (any-update_rows x xs q.0 q.1 h.0, update_rows-NoClash xs q.1 h.1)

  pub update_rows-All :
      (P : A → Type 0)
      → ((x : A) → Q x → P x → P (changed p f x))
      → (xs : List A) → All Q xs
      → All P xs
      → All P (update_rows p f xs)
  update_rows-All P keep [] q h = tt
  update_rows-All P keep (x ∷ xs) q h = (keep x q.0 h.0, update_rows-All P keep xs q.1 h.1)
