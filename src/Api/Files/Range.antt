-- ===== src/Api/Files/Range.antt =====
-- parse_range of crates/api/src/files.rs: the Range header of a download.
use strife.Base.{
  ℕ, ◌+◌, ◌-◌, ◌≤◌, ◌<◌, ◌≡◌, refl, ap, ◌∙◌, Option, none, some, [], ◌∷◌, ◌++◌, Bool, true, false,
  ◌||◌, not, arith, inl, inr, ltb, leb, ◌==◌, min, if◌then◌else◌, Bool-cases, lt→ltb, any-append,
  All,
}
use strife.Base.Result.{Result, ok, err, ◌>>=◌, ◌>>◌, guard, ok_or, >>=-eq-ok}
use strife.Base.Text.{
  Text, codes, and_then, strip_prefix, split_once, has_char, parse_u64, to_text, u64_max,
  parse_u64-to_text, to_text-cons, has_char-free, to_text-free, split_once-append,
  strip_prefix-append,
}

-- Both ends are in the range.
pub record ByteRange : Type 0 where
  pub start : ℕ
  pub end : ℕ

-- ByteRange::length
abbrev pub length : ByteRange → ℕ
length r = r.end - r.start + 1

pub data RangeError : Type 0 where
  unsatisfiable : RangeError

-- What a header value is as text: nothing when a byte of it is not visible ASCII.
abbrev pub HeaderValue : Type 0
HeaderValue = Option Text

abbrev without_comma : Text → Option Text
without_comma s = if has_char b',' s then none else some s

abbrev is_empty : Text → Bool
is_empty [] = true
is_empty (c ∷ s) = false

abbrev positive : ℕ → Option ℕ
positive n = if ltb 0 n then some n else none

abbrev suffix_range : ℕ → Text → Result RangeError ByteRange
suffix_range total end = do
  suffix ← ok_or (and_then (parse_u64 end) positive) unsatisfiable
  ok (record { start = total - min suffix total; end = total - 1 })

abbrev range_end : ℕ → Text → Result RangeError ℕ
range_end total end =
    if is_empty end
    then ok (total - 1)
    else (ok_or (parse_u64 end) unsatisfiable >>= λ e. ok (min e (total - 1)))

abbrev from_start : ℕ → Text → Text → Result RangeError ByteRange
from_start total start end = do
  s ← ok_or (parse_u64 start) unsatisfiable
  e ← range_end total end
  ok (record { start = s; end = e })

-- total == 0 || range.start > range.end || range.start >= total
abbrev outside : ℕ → ByteRange → Bool
outside total r = total == 0 || (ltb r.end r.start || leb total r.start)

unfoldable pub parse_range : HeaderValue → ℕ → Result RangeError ByteRange
parse_range value total = do
  v ← ok_or (and_then (and_then value (strip_prefix (codes "bytes="))) without_comma) unsatisfiable
  parts ← ok_or (split_once b'-' v) unsatisfiable
  r ← (if is_empty parts.0 then suffix_range total parts.1 else from_start total parts.0 parts.1)
  guard (not (outside total r)) unsatisfiable
  ok r

suffix-end :
    (total : ℕ) (t : Text) (r : ByteRange) → suffix_range total t ≡ ok r → r.end ≤ total - 1
suffix-end total t r e =
    let (n, _, made) =
      >>=-eq-ok (ok_or (and_then (parse_u64 t) positive) unsatisfiable)
        (λ n. ok (record { start = total - min n total; end = total - 1 })) e in
    ground arith

range_end-le : (total : ℕ) (t : Text) (n : ℕ) → range_end total t ≡ ok n → n ≤ total - 1
range_end-le total t n e = elim (Bool-cases (is_empty t)) [
  | inl to_end ↦ ground arith
  | inr closed ↦
      let (m, _, made) =
        >>=-eq-ok (ok_or (parse_u64 t) unsatisfiable) (λ m. ok (min m (total - 1)))
          (rw closed at e) in
      ground arith
]

from_start-end :
    (total : ℕ) (s t : Text) (r : ByteRange) → from_start total s t ≡ ok r → r.end ≤ total - 1
from_start-end total s t r e =
    let (a, _, rest) =
      >>=-eq-ok (ok_or (parse_u64 s) unsatisfiable)
        (λ a. range_end total t >>= λ b. ok (record { start = a; end = b })) e in
    let (b, ended, made) =
      >>=-eq-ok (range_end total t) (λ b. ok (record { start = a; end = b })) rest in
    let h = range_end-le total t b ended in ground arith

abbrev within : ℕ → ByteRange → Result RangeError ByteRange
within total r = guard (not (outside total r)) unsatisfiable >> ok r

abbrev requested : ℕ → Text → Text → Result RangeError ByteRange
requested total start end =
    if is_empty start then suffix_range total end else from_start total start end

requested-end :
    (total : ℕ) (s t : Text) (r : ByteRange) → requested total s t ≡ ok r → r.end ≤ total - 1
requested-end total s t r e = elim (Bool-cases (is_empty s)) [
  | inl suffix ↦ suffix-end total t r (rw suffix at e)
  | inr start ↦ from_start-end total s t r (rw start at e)
]

-- An accepted range lies in the file and is not empty, whatever the header says.
pub parse_range-bounds :
    (value : HeaderValue) (total : ℕ) (r : ByteRange)
    → parse_range value total ≡ ok r
    → (r.start ≤ r.end) × (r.end < total) × (r.start + length r ≤ total) × (0 < length r)
unfolding parse_range
parse_range-bounds value total r e =
    let (v, _, split) =
      >>=-eq-ok
        (ok_or (and_then (and_then value (strip_prefix (codes "bytes="))) without_comma)
          unsatisfiable)
        (λ v. ok_or (split_once b'-' v) unsatisfiable >>= λ parts.
          requested total parts.0 parts.1 >>= within total)
        e in
    let (parts, _, rest) =
      >>=-eq-ok (ok_or (split_once b'-' v) unsatisfiable)
        (λ parts. requested total parts.0 parts.1 >>= within total) split in
    let (q, made, kept) = >>=-eq-ok (requested total parts.0 parts.1) (within total) rest in
    let h = requested-end total parts.0 parts.1 q made in
    elim (Bool-cases (outside total q)) [
      | inl out ↦ absurd (ground arith)
      | inr in_file ↦ ground arith
    ]

-- The header's text after its prefix has been read.
parse_range-parts :
    (s t : Text) (total : ℕ)
    → All (λ c. (c == b'-') ≡ false) s
    → has_char b',' (s ++ (b'-' ∷ t)) ≡ false
    → parse_range (some (codes "bytes=" ++ (s ++ (b'-' ∷ t)))) total
      ≡ (requested total s t >>= within total)
unfolding parse_range
parse_range-parts s t total dash comma =
    let prefix = strip_prefix-append (codes "bytes=") (s ++ (b'-' ∷ t)) in
    let split = split_once-append b'-' s t dash in rw (prefix, comma, split) refl

number_free : (n : ℕ) → has_char b',' (to_text n) ≡ false
number_free n = has_char-free b',' (to_text n) (to_text-free b',' n refl)

number_dash :
    (n : ℕ) (t : Text) → has_char b',' t ≡ false → has_char b',' (to_text n ++ (b'-' ∷ t)) ≡ false
number_dash n t h = any-append (λ d. d == b',') (to_text n) (b'-' ∷ t) ∙ rw (number_free n, h) refl

number_ne : (n : ℕ) → is_empty (to_text n) ≡ false
number_ne n = let (c, s, e) = to_text-cons n in ap is_empty e

within-ok :
    (total start end : ℕ)
    → start ≤ end
    → start < total
    → within total (record { start = start; end = end }) ≡ ok (record { start = start; end = end })
within-ok total start end le lt = ground arith

beyond :
    (total start : ℕ) (e : Result RangeError ℕ)
    → total ≤ start
    → ((e >>= λ b. ok (record { start = start; end = b })) >>= within total) ≡ err unsatisfiable
beyond total start (ok b) h = ground arith
beyond total start (err unsatisfiable) h = refl

abbrev pub header : Text → Text → HeaderValue
header s t = some (codes "bytes=" ++ (s ++ (b'-' ∷ t)))

-- The three forms of a range, written in numbers, are read back: `bytes=start-end`, whose end is cut at the
-- last byte; `bytes=start-`, to the last byte; and `bytes=-end`, the last bytes, which are the whole
-- file when there are fewer. A range that starts at the end of the file is refused.
pub parse_range-header :
    (total start end : ℕ)
    → start ≤ end
    → start < total
    → 0 < end
    → end ≤ u64_max
    → total ≤ u64_max
    → (parse_range (header (to_text start) (to_text end)) total
        ≡ ok (record { start = start; end = min end (total - 1) }))
      × (parse_range (header (to_text start) []) total
          ≡ ok (record { start = start; end = total - 1 }))
      × (parse_range (header [] (to_text end)) total
          ≡ ok (record { start = total - min end total; end = total - 1 }))
      × (parse_range (header (to_text total) (to_text end)) total ≡ err unsatisfiable)
parse_range-header total start end le lt given big all = (
  parse_range-parts (to_text start) (to_text end) total (to_text-free b'-' start refl)
        (number_dash start (to_text end) (number_free end))
      ∙ rw
          (
            number_ne start,
            number_ne end,
            parse_u64-to_text start (omega arith),
            parse_u64-to_text end big,
          )
          (within-ok total start (min end (total - 1)) (omega arith) lt),
  parse_range-parts (to_text start) [] total (to_text-free b'-' start refl)
        (number_dash start [] refl)
      ∙ rw (number_ne start, parse_u64-to_text start (omega arith))
          (within-ok total start (total - 1) (omega arith) lt),
  parse_range-parts [] (to_text end) total tt (number_free end)
      ∙ rw (parse_u64-to_text end big, lt→ltb 0 end given)
          (within-ok total (total - min end total) (total - 1) (omega arith) (omega arith)),
  parse_range-parts (to_text total) (to_text end) total (to_text-free b'-' total refl)
        (number_dash total (to_text end) (number_free end))
      ∙ rw (number_ne total, parse_u64-to_text total all)
          (beyond total total (range_end total (to_text end)) (omega arith)),
)
