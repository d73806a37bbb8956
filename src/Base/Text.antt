-- ===== src/Base/Text.antt =====
-- Text as character codes, and what the code uses of Rust's `str` and integers: `strip_prefix`,
-- `split_once`, `contains`, `parse` and `to_string`.
use Prim.Native.Char.{code}
use strife.Base.{
  ℕ, zero, suc, ◌+◌, ◌-◌, ◌*◌, ◌/◌, ◌%◌, ◌≤◌, ◌≡◌, ◌∙◌, refl, ap, String, Option, none, some, List,
  [], ◌∷◌, ◌++◌, Bool, true, false, ◌&&◌, arith, ltb, leb, ◌==◌, if◌then◌else◌, All, All-append,
  any, inl, inr, Bool-cases, leb→le,
}
use strife.Base.Int.{ℤ, pos, negsuc}

abbrev pub Text : Type 0
Text = List ℕ

abbrev pub codes : String → Text
codes String.[] = []
codes (String.◌∷◌ c s) = code c ∷ codes s

abbrev pub and_then {ℓ κ} : {A : Type ℓ} {B : Type κ} → Option A → (A → Option B) → Option B
and_then none f = none
and_then (some a) f = f a

abbrev pub strip_prefix : Text → Text → Option Text
strip_prefix [] s = some s
strip_prefix (p ∷ ps) [] = none
strip_prefix (p ∷ ps) (c ∷ s) = if c == p then strip_prefix ps s else none

abbrev pub starts_with : Text → Text → Bool
starts_with [] s = true
starts_with (p ∷ ps) [] = false
starts_with (p ∷ ps) (c ∷ s) = (c == p) && starts_with ps s

abbrev onto_first : ℕ → List Text → List Text
onto_first c [] = (c ∷ []) ∷ []
onto_first c (s ∷ rest) = (c ∷ s) ∷ rest

-- The parts between the occurrences of a character: the empty text has one part, which is empty.
abbrev pub split_char : ℕ → Text → List Text
split_char sep [] = [] ∷ []
split_char sep (c ∷ s) = if c == sep then [] ∷ split_char sep s else onto_first c (split_char sep s)

abbrev pub same_text : Text → Text → Bool
same_text [] [] = true
same_text (a ∷ s) (b ∷ t) = (a == b) && same_text s t
same_text _ _ = false

-- s.contains(c) for a character
abbrev pub has_char : ℕ → Text → Bool
has_char c s = any (λ d. d == c) s

abbrev before : ℕ → Option (Text × Text) → Option (Text × Text)
before c none = none
before c (some (a, b)) = some (c ∷ a, b)

abbrev pub split_once : ℕ → Text → Option (Text × Text)
split_once sep [] = none
split_once sep (c ∷ s) = if c == sep then some ([], s) else before c (split_once sep s)

abbrev pub is_digit : ℕ → Bool
is_digit c = leb b'0' c && leb c b'9'

-- The digits of a number that is at most `max`: a digit is refused where it makes the number larger.
abbrev parse_digits : ℕ → ℕ → Text → Option ℕ
parse_digits max acc [] = some acc
parse_digits max acc (c ∷ s) =
    if is_digit c && leb (acc * 10 + (c - b'0')) max
    then parse_digits max (acc * 10 + (c - b'0')) s
    else none

-- Digits, of which there is one at least.
abbrev parse_number : ℕ → Text → Option ℕ
parse_number max [] = none
parse_number max (c ∷ s) = parse_digits max 0 (c ∷ s)

-- A leading `+` is allowed.
abbrev unsigned : ℕ → Text → Option ℕ
unsigned max [] = none
unsigned max (c ∷ s) = if c == b'+' then parse_number max s else parse_digits max 0 (c ∷ s)

abbrev pub u64_max : ℕ
u64_max = 18446744073709551615

-- s.parse::<u64>().ok()
unfoldable pub parse_u64 : Text → Option ℕ
parse_u64 s = unsigned u64_max s

abbrev negated : Option ℕ → Option ℤ
negated none = none
negated (some zero) = some (pos 0)
negated (some (suc n)) = some (negsuc n)

abbrev as_pos : Option ℕ → Option ℤ
as_pos none = none
as_pos (some n) = some (pos n)

-- s.parse::<i64>().ok()
unfoldable pub parse_i64 : Text → Option ℤ
parse_i64 [] = none
parse_i64 (c ∷ s) =
    if c == b'-'
    then negated (parse_number 9223372036854775808 s)
    else as_pos (unsigned 9223372036854775807 (c ∷ s))

-- The decimal digits of n, where fuel is at least n.
abbrev digits : ℕ → ℕ → Text
digits zero n = (b'0' + n % 10) ∷ []
digits (suc fuel) n =
    if ltb n 10 then (b'0' + n) ∷ [] else digits fuel (n / 10) ++ ((b'0' + n % 10) ∷ [])

-- n.to_string()
unfoldable pub to_text : ℕ → Text
to_text n = digits n n

abbrev pub IsDigits : Text → Type 0
IsDigits = All (λ c. is_digit c ≡ true)

digits-IsDigits : (fuel n : ℕ) → IsDigits (digits fuel n)
digits-IsDigits zero n = (ground arith, tt)
digits-IsDigits (suc fuel) n = elim (Bool-cases (ltb n 10)) [
  | inl e ↦ rw e ((ground arith, tt))
  | inr e ↦ rw e (
      All-append (λ c. is_digit c ≡ true) (digits fuel (n / 10)) ((b'0' + n % 10) ∷ [])
        (digits-IsDigits fuel (n / 10)) (ground arith, tt))
]

pub to_text-IsDigits : (n : ℕ) → IsDigits (to_text n)
unfolding to_text
to_text-IsDigits n = digits-IsDigits n n

parse_digits-append :
    (max acc : ℕ) (s t : Text)
    → parse_digits max acc (s ++ t) ≡ and_then (parse_digits max acc s) (λ a. parse_digits max a t)
parse_digits-append max acc [] t = refl
parse_digits-append max acc (c ∷ s) t =
    ground (arith, parse_digits-append max (acc * 10 + (c - b'0')) s t)

parse-digits : (max fuel n : ℕ) → n ≤ fuel → n ≤ max → parse_digits max 0 (digits fuel n) ≡ some n
parse-digits max zero n f h = ground arith
parse-digits max (suc fuel) n f h =
    let step = parse_digits-append max 0 (digits fuel (n / 10)) ((b'0' + n % 10) ∷ []) in
    let rest = parse-digits max fuel (n / 10) in ground (arith, step, rest)

append-cons : (s t : Text) (c : ℕ) → (d : ℕ) × (u : Text) × (s ++ (c ∷ t) ≡ d ∷ u)
append-cons [] t c = (c, t, refl)
append-cons (a ∷ s) t c = (a, s ++ (c ∷ t), refl)

digits-cons : (fuel n : ℕ) → (c : ℕ) × (s : Text) × (digits fuel n ≡ c ∷ s)
digits-cons zero n = (b'0' + n % 10, [], refl)
digits-cons (suc fuel) n = elim (Bool-cases (ltb n 10)) [
  | inl e ↦ (b'0' + n, [], rw e refl)
  | inr e ↦ let (c, s, h) = append-cons (digits fuel (n / 10)) [] (b'0' + n % 10) in (c, s, rw e h)
]

unsigned-digits :
    (max : ℕ) (s : Text) (c : ℕ) (t : Text)
    → s ≡ c ∷ t
    → IsDigits s
    → unsigned max s ≡ parse_digits max 0 s
unsigned-digits max [] c t e d = cc
unsigned-digits max (a ∷ s) c t e d = ground (arith, d.0)

parse_i64-digits :
    (s : Text) (c : ℕ) (t : Text)
    → s ≡ c ∷ t
    → IsDigits s
    → parse_i64 s ≡ as_pos (parse_digits 9223372036854775807 0 s)
unfolding parse_i64
parse_i64-digits [] c t e d = cc
parse_i64-digits (a ∷ s) c t e d = ground (arith, d.0)

-- `parse` reads the number that `to_string` wrote.
pub parse_u64-to_text : (n : ℕ) → n ≤ u64_max → parse_u64 (to_text n) ≡ some n
unfolding parse_u64 to_text
parse_u64-to_text n h =
    let (c, s, e) = digits-cons n n in
    unsigned-digits u64_max (digits n n) c s e (digits-IsDigits n n)
    ∙ parse-digits u64_max n n (omega arith) h

pub parse_i64-to_text : (n : ℕ) → n ≤ 9223372036854775807 → parse_i64 (to_text n) ≡ some (pos n)
unfolding to_text
parse_i64-to_text n h =
    let (c, s, e) = digits-cons n n in
    parse_i64-digits (digits n n) c s e (digits-IsDigits n n)
    ∙ ap as_pos (parse-digits 9223372036854775807 n n (omega arith) h)

-- No character but a digit is in the text of a number.
pub to_text-free : (sep n : ℕ) → is_digit sep ≡ false → All (λ c. (c == sep) ≡ false) (to_text n)
to_text-free sep n h = free (to_text n) (to_text-IsDigits n)
  where
    free : (s : Text) → IsDigits s → All (λ c. (c == sep) ≡ false) s
    free [] d = tt
    free (c ∷ s) d = (ground (arith, d.0), free s d.1)

-- The text in front of the first separator, and the text behind it.
pub split_once-append :
    (sep : ℕ) (s t : Text)
    → All (λ c. (c == sep) ≡ false) s
    → split_once sep (s ++ (sep ∷ t)) ≡ some (s, t)
split_once-append sep [] t h = ground arith
split_once-append sep (c ∷ s) t h = ground (arith, split_once-append sep s t)

pub strip_prefix-append : (p s : Text) → strip_prefix p (p ++ s) ≡ some s
strip_prefix-append [] s = refl
strip_prefix-append (c ∷ p) s = ground (arith, strip_prefix-append p s)

pub to_text-cons : (n : ℕ) → (c : ℕ) × (s : Text) × (to_text n ≡ c ∷ s)
unfolding to_text
to_text-cons n = digits-cons n n

-- A character that is in neither of two texts is not in the two behind each other.
pub has_char-free : (sep : ℕ) (s : Text) → All (λ c. (c == sep) ≡ false) s → has_char sep s ≡ false
has_char-free sep [] h = refl
has_char-free sep (c ∷ s) h = ground (arith, has_char-free sep s)

parse_digits-le : (max acc n : ℕ) (s : Text) → acc ≤ max → parse_digits max acc s ≡ some n → n ≤ max
parse_digits-le max acc n [] h e = ground arith
parse_digits-le max acc n (c ∷ s) h e = elim (Bool-cases (leb (acc * 10 + (c - b'0')) max)) [
  | inl fits ↦
      parse_digits-le max (acc * 10 + (c - b'0')) n s (leb→le (acc * 10 + (c - b'0')) max fits)
        (ground arith)
  | inr over ↦ absurd (ground arith)
]

unsigned-le : (max n : ℕ) (s : Text) → unsigned max s ≡ some n → n ≤ max
unsigned-le max n [] e = cc
unsigned-le max n (c ∷ s) e = elim (Bool-cases (c == b'+')) [
  | inl plus ↦ number-le s (rw plus at e)
  | inr digit ↦ parse_digits-le max 0 n (c ∷ s) (omega arith) (rw digit at e)
]
  where
    number-le : (t : Text) → parse_number max t ≡ some n → n ≤ max
    number-le [] e = cc
    number-le (d ∷ t) e = parse_digits-le max 0 n (d ∷ t) (omega arith) e

negated-pos : (n : ℕ) (o : Option ℕ) → negated o ≡ some (pos n) → n ≤ 0
negated-pos n none e = cc
negated-pos n (some zero) e = ground arith
negated-pos n (some (suc m)) e = absurd (ground arith)

as_pos-some : (n : ℕ) (o : Option ℕ) → as_pos o ≡ some (pos n) → o ≡ some n
as_pos-some n none e = cc
as_pos-some n (some m) e = cc

-- What `parse` returns is an i64.
pub parse_i64-le : (n : ℕ) (s : Text) → parse_i64 s ≡ some (pos n) → n ≤ 9223372036854775807
unfolding parse_i64
parse_i64-le n [] e = cc
parse_i64-le n (c ∷ s) e = elim (Bool-cases (c == b'-')) [
  | inl minus ↦
      let h = negated-pos n (parse_number 9223372036854775808 s) (rw minus at e) in omega arith
  | inr other ↦
      unsigned-le 9223372036854775807 n (c ∷ s)
        (as_pos-some n (unsigned 9223372036854775807 (c ∷ s)) (rw other at e))
]

-- The parts of a chain of options that gives a value.
pub and_then-eq-some {ℓ κ} :
    {A : Type ℓ} {B : Type κ} (o : Option A) (f : A → Option B) {b : B}
    → and_then o f ≡ some b
    → (a : A) × (o ≡ some a) × (f a ≡ some b)
and_then-eq-some none f e = cc
and_then-eq-some (some a) f e = (a, refl, e)
