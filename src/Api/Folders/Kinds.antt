-- ===== src/Api/Folders/Kinds.antt =====
-- parse_kinds of crates/api/src/folders.rs: the filters that a query names.
use strife.Base.{
  ◌≡◌, refl, sym, ap, subst, ◌∙◌, List, [], ◌∷◌, Bool, true, ◌||◌, arith, inl, inr, ltb, leb,
  ==_iff, any, insert_by, order_by, Bool-cases,
}
use strife.Base.Result.{ok, >>=-eq-ok, ok_injective}
use strife.Base.Text.{Text}
use strife.Db.Listing.{ChildrenKindFilter}
use strife.Base.Ordered.{IsOrdered, order_by-IsOrdered}
use strife.Api.Folders.{debug_rank, same_filter, dedup, kinds_of, parts_of, parse_kinds}

abbrev by_rank : ChildrenKindFilter → ChildrenKindFilter → Bool
by_rank a b = leb (debug_rank a) (debug_rank b)

abbrev pub strictly : ChildrenKindFilter → ChildrenKindFilter → Bool
strictly a b = ltb (debug_rank a) (debug_rank b)

abbrev pub has : ChildrenKindFilter → List ChildrenKindFilter → Bool
has k = any (same_filter k)

has-insert_by :
    (k x : ChildrenKindFilter) (xs : List ChildrenKindFilter)
    → has k (insert_by by_rank x xs) ≡ (same_filter k x || has k xs)
has-insert_by k x [] = refl
has-insert_by k x (y ∷ ys) = ground (arith, has-insert_by k x ys)

has-order_by :
    (k : ChildrenKindFilter) (xs : List ChildrenKindFilter) → has k (order_by by_rank xs) ≡ has k xs
has-order_by k [] = refl
has-order_by k (x ∷ xs) =
    has-insert_by k x (order_by by_rank xs) ∙ ap (λ b. same_filter k x || b) (has-order_by k xs)

has-dedup : (k : ChildrenKindFilter) (xs : List ChildrenKindFilter) → has k (dedup xs) ≡ has k xs
has-dedup k [] = refl
has-dedup k (x ∷ []) = refl
has-dedup k (x ∷ y ∷ ys) = ground (arith, has-dedup k (y ∷ ys))

-- The first of the rest stays the first.
dedup-first :
    (y : ChildrenKindFilter) (ys : List ChildrenKindFilter)
    → (z : ChildrenKindFilter) × (zs : List ChildrenKindFilter) × (dedup (y ∷ ys) ≡ z ∷ zs)
      × (debug_rank z ≡ debug_rank y)
dedup-first y [] = (y, [], refl, refl)
dedup-first y (x ∷ xs) =
    let (z, zs, e, r) = dedup-first x xs in
    elim (Bool-cases (same_filter y x)) [
      | inl same ↦ (z, zs, rw same e, r ∙ sym ((==_iff (debug_rank y) (debug_rank x)).0 same))
      | inr apart ↦ (y, dedup (x ∷ xs), rw apart refl, refl)
    ]

strictly-cons :
    (x z : ChildrenKindFilter) (zs : List ChildrenKindFilter)
    → strictly x z ≡ true
    → IsOrdered strictly (z ∷ zs)
    → IsOrdered strictly (x ∷ z ∷ zs)
strictly-cons x z zs h o = (h, o)

dedup-IsOrdered :
    (xs : List ChildrenKindFilter) → IsOrdered by_rank xs → IsOrdered strictly (dedup xs)
dedup-IsOrdered [] h = tt
dedup-IsOrdered (x ∷ []) h = tt
dedup-IsOrdered (x ∷ y ∷ ys) h =
    let rest = dedup-IsOrdered (y ∷ ys) h.1 in
    let (z, zs, e, r) = dedup-first y ys in
    elim (Bool-cases (same_filter x y)) [
      | inl same ↦ rw same rest
      | inr apart ↦ rw apart (
          subst (λ l. IsOrdered strictly (x ∷ l)) (sym e)
            (strictly-cons x z zs (ground (arith, h.0, r)) (subst (IsOrdered strictly) e rest)))
    ]

-- The filters that are parsed are those that the query's parts name, each once, in a fixed order.
pub parse_kinds-IsOrdered :
    (values : List Text) (kinds : List ChildrenKindFilter)
    → parse_kinds values ≡ ok kinds
    → IsOrdered strictly kinds
      × (named : List ChildrenKindFilter) × (kinds_of (parts_of values) ≡ ok named)
      × ((k : ChildrenKindFilter) → has k kinds ≡ has k named)
unfolding parse_kinds
parse_kinds-IsOrdered values kinds e =
    let (named, read, e') =
      >>=-eq-ok (kinds_of (parts_of values)) (λ l. ok (dedup (order_by by_rank l))) e in
    let same : dedup (order_by by_rank named) ≡ kinds = ok_injective e' in
    (
      subst (IsOrdered strictly) same (
          dedup-IsOrdered (order_by by_rank named)
            (order_by-IsOrdered by_rank (λ x y h. ground arith) named)),
      named,
      read,
      (λ k. ap (has k) (sym same) ∙ has-dedup k (order_by by_rank named) ∙ has-order_by k named),
    )
