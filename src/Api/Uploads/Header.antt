-- ===== src/Api/Uploads/Header.antt =====
-- parse_content_range of crates/api/src/uploads.rs: the Content-Range header of a chunk, and the upload
-- of a chunk from its headers on.
use strife.Base.{
  ℕ, ◌≤◌, ◌<◌, ◌≡◌, refl, ap, ◌∙◌, Option, none, some, [], ◌∷◌, ◌++◌, true, false, arith, inl, inr,
  ltb, leb, ◌==◌, if◌then◌else◌, Bool-cases, All, All-append, subst, some_injective,
}
use strife.Base.Int.{ℤ, pos, negsuc}
use strife.Base.Result.{err, Result}
use strife.Base.Text.{
  Text, codes, and_then, strip_prefix, split_once, same_text, parse_i64, to_text, parse_i64-to_text,
  to_text-free, to_text-cons, to_text-IsDigits, IsDigits, parse_i64-le, and_then-eq-some,
  split_once-append,
}
use strife.Db.Uploads.{i64_max}
use strife.Storage.Objects.{Body}
use strife.Importer.{World}
use strife.Api.Uploads.{
  ContentRange, is_content_range, UploadApiError, bad_request, UploadProgressResponse, upload_chunk,
}

-- start < 0
abbrev non_negative : ℤ → Option ℕ
non_negative (pos n) = some n
non_negative (negsuc n) = none

-- start < 0 || end < start, where a negative end is below the start
abbrev bounds : ℕ → ℤ → Option ℕ
bounds start (pos end) = if ltb end start then none else some end
bounds start (negsuc n) = none

-- parsed <= end
abbrev above : ℕ → ℤ → Option (Option ℕ)
above end (pos n) = if leb n end then none else some (some n)
above end (negsuc n) = none

abbrev parse_total : ℕ → Text → Option (Option ℕ)
parse_total end t =
    if same_text t (codes "*") then some none else and_then (parse_i64 t) (above end)

unfoldable pub parse_content_range : Text → Option ContentRange
parse_content_range value = and_then (strip_prefix (codes "bytes ") value) λ v.
    and_then (split_once b'/' v) λ outer. and_then (split_once b'-' outer.0) λ inner.
      and_then (and_then (parse_i64 inner.0) non_negative) λ start.
        and_then (and_then (parse_i64 inner.1) (bounds start)) λ end.
          and_then (parse_total end outer.1)
            λ total. some (record { start = start; end = end; total = total })

-- The parts of a header that is accepted.
abbrev made : ℕ → ℕ → Text → Option ContentRange
made start end t =
    and_then (parse_total end t) λ total. some (record { start = start; end = end; total = total })

abbrev ended : Text → Text → ℕ → Option ContentRange
ended e t start = and_then (and_then (parse_i64 e) (bounds start)) λ end. made start end t

bounds-some : (start end : ℕ) (e : ℤ) → bounds start e ≡ some end → (e ≡ pos end) × (start ≤ end)
bounds-some start end (pos n) h = ground arith
bounds-some start end (negsuc n) h = cc

above-some :
    (end : ℕ) (n : ℤ) (total : Option ℕ)
    → above end n ≡ some total
    → (m : ℕ) × (total ≡ some m) × (end < m)
above-some end (pos n) total h = (n, ground arith, ground arith)
above-some end (negsuc n) total h = cc

total-is_content_range :
    (start end : ℕ) (t : Text) (total : Option ℕ)
    → start ≤ end
    → end ≤ i64_max
    → parse_total end t ≡ some total
    → is_content_range (record { start = start; end = end; total = total }) ≡ true
total-is_content_range start end t total le big e = elim (Bool-cases (same_text t (codes "*"))) [
  | inl star ↦ ground arith
  | inr number ↦
      let (n, _, checked) = and_then-eq-some (parse_i64 t) (above end) (rw number at e) in
      let (m, same, lt) = above-some end n total checked in ground arith
]

made-is_content_range :
    (start end : ℕ) (t : Text) (r : ContentRange)
    → start ≤ end
    → end ≤ i64_max
    → made start end t ≡ some r
    → is_content_range r ≡ true
made-is_content_range start end t r le big e =
    let (total, totalled, e') =
      and_then-eq-some (parse_total end t)
        (λ total. some (record { start = start; end = end; total = total })) e in
    subst (λ x. is_content_range x ≡ true) (some_injective e')
      (total-is_content_range start end t total le big totalled)

ended-is_content_range :
    (e t : Text) (start : ℕ) (r : ContentRange)
    → ended e t start ≡ some r
    → is_content_range r ≡ true
ended-is_content_range e t start r h =
    let (end, at_end, h') =
      and_then-eq-some (and_then (parse_i64 e) (bounds start)) (λ end. made start end t) h in
    let (z, parsed, checked) = and_then-eq-some (parse_i64 e) (bounds start) at_end in
    let (is_pos, le) = bounds-some start end z checked in
    made-is_content_range start end t r le (parse_i64-le end e (parsed ∙ ap some is_pos)) h'

abbrev inner_parts : Text → Text × Text → Option ContentRange
inner_parts t inner = and_then (and_then (parse_i64 inner.0) non_negative) (ended inner.1 t)

abbrev outer_parts : Text × Text → Option ContentRange
outer_parts outer = and_then (split_once b'-' outer.0) (inner_parts outer.1)

outer-is_content_range :
    (outer : Text × Text) (r : ContentRange)
    → outer_parts outer ≡ some r
    → is_content_range r ≡ true
outer-is_content_range outer r e =
    let (inner, _, e') = and_then-eq-some (split_once b'-' outer.0) (inner_parts outer.1) e in
    let (start, _, e'') =
      and_then-eq-some (and_then (parse_i64 inner.0) non_negative) (ended inner.1 outer.1) e' in
    ended-is_content_range inner.1 outer.1 start r e''

-- A Content-Range that the parser accepts is one: it is not empty and not negative, its end is an
-- i64, and a total that it names lies above the end.
pub parse_content_range-is_content_range :
    (value : Text) (r : ContentRange)
    → parse_content_range value ≡ some r
    → is_content_range r ≡ true
unfolding parse_content_range
parse_content_range-is_content_range value r e =
    let (v, _, e') =
      and_then-eq-some (strip_prefix (codes "bytes ") value)
        (λ v. and_then (split_once b'/' v) outer_parts) e in
    let (outer, _, e'') = and_then-eq-some (split_once b'/' v) outer_parts e' in
    outer-is_content_range outer r e''

-- `bytes start-end/total`
abbrev pub content_range_text : ℕ → ℕ → Text → Text
content_range_text start end total =
    codes "bytes " ++ ((to_text start ++ (b'-' ∷ to_text end)) ++ (b'/' ∷ total))

abbrev total_text : Option ℕ → Text
total_text none = codes "*"
total_text (some n) = to_text n

range_free :
    (start end : ℕ) → All (λ c. (c == b'/') ≡ false) (to_text start ++ (b'-' ∷ to_text end))
range_free start end =
    All-append (λ c. (c == b'/') ≡ false) (to_text start) (b'-' ∷ to_text end)
      (to_text-free b'/' start refl) (refl, to_text-free b'/' end refl)

number_not_star :
    (s : Text) (c : ℕ) (t : Text) → s ≡ c ∷ t → IsDigits s → same_text s (codes "*") ≡ false
number_not_star [] c t e d = refl
number_not_star (a ∷ s) c t e d = ground (arith, d.0)

bounds-pos : (start end : ℕ) → start ≤ end → bounds start (pos end) ≡ some end
bounds-pos start end h = ground arith

total_text-parse :
    (end : ℕ) (total : Option ℕ)
    → is_content_range (record { start = end; end = end; total = total }) ≡ true
    → ((n : ℕ) → total ≡ some n → n ≤ i64_max)
    → parse_total end (total_text total) ≡ some total
total_text-parse end none h big = refl
total_text-parse end (some n) h big =
    let (c, s, e) = to_text-cons n in
    rw (number_not_star (to_text n) c s e (to_text-IsDigits n), parse_i64-to_text n (big n refl))
      (ground arith)

-- The parser reads back every range that is written as a Content-Range, with its total or with `*`.
pub parse_content_range-text :
    (r : ContentRange)
    → is_content_range r ≡ true
    → ((n : ℕ) → r.total ≡ some n → n ≤ i64_max)
    → parse_content_range (content_range_text r.start r.end (total_text r.total)) ≡ some r
unfolding parse_content_range
parse_content_range-text r h big =
    rw
      (
        split_once-append b'/' (to_text r.start ++ (b'-' ∷ to_text r.end)) (total_text r.total)
            (range_free r.start r.end),
        split_once-append b'-' (to_text r.start) (to_text r.end) (to_text-free b'-' r.start refl),
        parse_i64-to_text r.start (ground arith),
        parse_i64-to_text r.end (ground arith),
        bounds-pos r.start r.end (ground arith),
        total_text-parse r.end r.total (ground arith) big,
      )
      refl

abbrev pub with_range :
    Option ContentRange
    → (ContentRange → Result UploadApiError UploadProgressResponse × World)
    → World
    → Result UploadApiError UploadProgressResponse × World
with_range none rest w = (err (bad_request "A valid Content-Range header is required"), w)
with_range (some range) rest w = rest range

-- upload_chunk from its headers on: `header` is the Content-Range as text, where there is one.
unfoldable pub upload_chunk_request :
    ℕ → ℕ → Option Text → Body → ℕ → World → Result UploadApiError UploadProgressResponse × World
upload_chunk_request id session_id header body now w =
    with_range (and_then header parse_content_range)
      (λ range. upload_chunk id session_id range body now w) w
