-- ===== src/Base/Ordered.antt =====
-- ORDER BY and LIMIT: what an ordered table and a part of it hold.
use Prim.Native.Nat.{min}
use strife.Base.{
  any, ◌≤◌, ◌||◌, ◌==◌, some_injective, ℕ, zero, suc, ◌≡◌, refl, ap, ◌∙◌, some, List, [], ◌∷◌, map,
  Bool, true, false, ◌&&◌, arith, inl, inr, where_rows, insert_by, order_by, take, length, All,
  Bool-cases,
}
use strife.Base.Rows.{row}

-- Every row stands before the next one.
abbrev pub IsOrdered {ℓ} : {A : Type ℓ} → (A → A → Bool) → List A → Type 0
IsOrdered le [] = Unit {0}
IsOrdered le (x ∷ []) = Unit {0}
IsOrdered le (x ∷ y ∷ ys) = (le x y ≡ true) × IsOrdered le (y ∷ ys)

module _ {ℓ} {A : Type ℓ} (le : A → A → Bool) where
  module _ (total : (x y : A) → le x y ≡ false → le y x ≡ true) where
    insert_second :
        (x y : A) (ys : List A)
        → le x y ≡ false
        → IsOrdered le (y ∷ ys)
        → IsOrdered le (insert_by le x ys)
        → IsOrdered le (y ∷ insert_by le x ys)
    insert_second x y [] over h i = (total x y over, tt)
    insert_second x y (z ∷ zs) over h i = elim (Bool-cases (le x z)) [
      | inl below ↦ rw below (total x y over, rw below at i)
      | inr above ↦ rw above (h.0, rw above at i)
    ]

    tail-IsOrdered : (y : A) (ys : List A) → IsOrdered le (y ∷ ys) → IsOrdered le ys
    tail-IsOrdered y [] h = tt
    tail-IsOrdered y (z ∷ zs) h = h.1

    pub insert_by-IsOrdered :
        (x : A) (ys : List A) → IsOrdered le ys → IsOrdered le (insert_by le x ys)
    insert_by-IsOrdered x [] h = tt
    insert_by-IsOrdered x (y ∷ ys) h = elim (Bool-cases (le x y)) [
      | inl below ↦ rw below ((below, h))
      | inr above ↦
          rw above (insert_second x y ys above h (insert_by-IsOrdered x ys (tail-IsOrdered y ys h)))
    ]

    pub order_by-IsOrdered : (xs : List A) → IsOrdered le (order_by le xs)
    order_by-IsOrdered [] = tt
    order_by-IsOrdered (x ∷ xs) = insert_by-IsOrdered x (order_by le xs) (order_by-IsOrdered xs)

  pub take-IsOrdered : (n : ℕ) (xs : List A) → IsOrdered le xs → IsOrdered le (take n xs)
  take-IsOrdered zero xs h = tt
  take-IsOrdered (suc n) [] h = tt
  take-IsOrdered (suc n) (x ∷ []) h = one n
    where
      one : (n : ℕ) → IsOrdered le (x ∷ take n [])
      one zero = tt
      one (suc n) = tt
  take-IsOrdered (suc zero) (x ∷ y ∷ ys) h = tt
  take-IsOrdered (suc (suc n)) (x ∷ y ∷ ys) h = (h.0, take-IsOrdered (suc n) (y ∷ ys) h.1)

  pub length-insert_by : (x : A) (ys : List A) → length (insert_by le x ys) ≡ suc (length ys)
  length-insert_by x [] = refl
  length-insert_by x (y ∷ ys) = ground (arith, length-insert_by x ys)

  pub length-order_by : (xs : List A) → length (order_by le xs) ≡ length xs
  length-order_by [] = refl
  length-order_by (x ∷ xs) = length-insert_by x (order_by le xs) ∙ ap suc (length-order_by xs)

  pub insert_by-All {κ} :
      (P : A → Type κ) (x : A) (ys : List A) → P x → All P ys → All P (insert_by le x ys)
  insert_by-All P x [] h hs = (h, tt)
  insert_by-All P x (y ∷ ys) h hs = elim (Bool-cases (le x y)) [
    | inl below ↦ rw below ((h, hs))
    | inr above ↦ rw above ((hs.0, insert_by-All P x ys h hs.1))
  ]

  pub order_by-All {κ} : (P : A → Type κ) (xs : List A) → All P xs → All P (order_by le xs)
  order_by-All P [] h = tt
  order_by-All P (x ∷ xs) h = insert_by-All P x (order_by le xs) h.0 (order_by-All P xs h.1)

pub take-All {ℓ κ} :
    {A : Type ℓ} (P : A → Type κ) (n : ℕ) (xs : List A) → All P xs → All P (take n xs)
take-All P zero xs h = tt
take-All P (suc n) [] h = tt
take-All P (suc n) (x ∷ xs) h = (h.0, take-All P n xs h.1)

pub length-take {ℓ} : {A : Type ℓ} (n : ℕ) (xs : List A) → length (take n xs) ≡ min n (length xs)
length-take zero xs = ground arith
length-take (suc n) [] = ground arith
length-take (suc n) (x ∷ xs) = ground (arith, length-take n xs)

pub map-All {ℓ κ μ} :
    {A : Type ℓ} {B : Type κ} (P : B → Type μ) (f : A → B) (xs : List A)
    → All (λ x. P (f x)) xs
    → All P (map f xs)
map-All P f [] h = tt
map-All P f (x ∷ xs) h = (h.0, map-All P f xs h.1)

pub where_rows-passes {ℓ} :
    {A : Type ℓ} (p : A → Bool) (xs : List A) → All (λ x. p x ≡ true) (where_rows p xs)
where_rows-passes p [] = tt
where_rows-passes p (x ∷ xs) = elim (Bool-cases (p x)) [
  | inl h ↦ rw h ((h, where_rows-passes p xs))
  | inr h ↦ rw h (where_rows-passes p xs)
]

-- A table has the rows of its ordered copy.
any-insert_by {ℓ} :
    {A : Type ℓ} (p : A → Bool) (le : A → A → Bool) (x : A) (ys : List A)
    → any p (insert_by le x ys) ≡ (p x || any p ys)
any-insert_by p le x [] = refl
any-insert_by p le x (y ∷ ys) = ground (arith, any-insert_by p le x ys)

pub any-order_by {ℓ} :
    {A : Type ℓ} (p : A → Bool) (le : A → A → Bool) (xs : List A)
    → any p (order_by le xs) ≡ any p xs
any-order_by p le [] = refl
any-order_by p le (x ∷ xs) =
    ground (arith, any-insert_by p le x (order_by le xs), any-order_by p le xs)

pub any-where_rows {ℓ} :
    {A : Type ℓ} (p q : A → Bool) (xs : List A) → any p (where_rows q xs) ≡ any (λ x. q x && p x) xs
any-where_rows p q [] = refl
any-where_rows p q (x ∷ xs) = ground (arith, any-where_rows p q xs)

pub any-row {ℓ} :
    {A : Type ℓ} (key : A → ℕ) (p : A → Bool) (i : ℕ) (xs : List A) (x : A)
    → row key i xs ≡ some x
    → p x ≡ true
    → any p xs ≡ true
any-row key p i [] x e h = cc
any-row key p i (y ∷ ys) x e h = elim (Bool-cases (key y == i)) [
  | inl hit ↦ let same : y ≡ x = some_injective (rw hit at e) in ground (arith, ap p same)
  | inr miss ↦ ground (arith, any-row key p i ys x (rw miss at e) h)
]

pub any-map {ℓ κ} :
    {A : Type ℓ} {B : Type κ} (p : B → Bool) (f : A → B) (xs : List A)
    → any p (map f xs) ≡ any (λ x. p (f x)) xs
any-map p f [] = refl
any-map p f (x ∷ xs) = ground (arith, any-map p f xs)

pub length-map {ℓ κ} :
    {A : Type ℓ} {B : Type κ} (f : A → B) (xs : List A) → length (map f xs) ≡ length xs
length-map f [] = refl
length-map f (x ∷ xs) = ap suc (length-map f xs)

pub length-where_rows {ℓ} :
    {A : Type ℓ} (p : A → Bool) (xs : List A) → length (where_rows p xs) ≤ length xs
length-where_rows p [] = omega arith
length-where_rows p (x ∷ xs) = ground (arith, length-where_rows p xs)

-- A limit that is great enough takes all.
pub take-whole {ℓ} : {A : Type ℓ} (n : ℕ) (xs : List A) → length xs ≤ n → take n xs ≡ xs
take-whole zero [] h = refl
take-whole zero (x ∷ xs) h = absurd (omega (arith, h))
take-whole (suc n) [] h = refl
take-whole (suc n) (x ∷ xs) h = ap (λ l. x ∷ l) (take-whole n xs (omega (arith, h)))

-- Every row stands in the relation to the next one.
abbrev pub IsChain {ℓ κ} : {A : Type ℓ} → (A → A → Type κ) → List A → Type κ
IsChain R [] = Unit
IsChain R (x ∷ []) = Unit
IsChain R (x ∷ y ∷ ys) = R x y × IsChain R (y ∷ ys)

pub IsOrdered-IsChain {ℓ κ} :
    {A : Type ℓ} (le : A → A → Bool) (R : A → A → Type κ)
    → ((x y : A) → le x y ≡ true → R x y)
    → (xs : List A) → IsOrdered le xs
    → IsChain R xs
IsOrdered-IsChain le R f [] h = tt
IsOrdered-IsChain le R f (x ∷ []) h = tt
IsOrdered-IsChain le R f (x ∷ y ∷ ys) h = (f x y h.0, IsOrdered-IsChain le R f (y ∷ ys) h.1)
