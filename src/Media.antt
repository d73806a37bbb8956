-- ===== src/Media.antt =====
-- crates/media: what is read from the JSON of the external extractors. A JSON value has the accessors of
-- serde_json; floating-point numbers are not modelled, so what the code makes of them is a parameter.
pub mod Exif
pub mod Ffprobe
use strife.Base.{ℕ, String, Option, none, some, List, [], ◌∷◌, str_eq, if◌then◌else◌}
use strife.Base.Int.{ℤ, pos, negsuc, ltb_ℤ}
use strife.Base.Text.{Text, codes, and_then, parse_i64}

-- A JSON value, as far as the code looks into one: a number with its value where it is an i64 and with
-- its text, a string, or another value.
pub data Value : Type 0 where
  number : Option ℤ → String → Value
  string : String → Value
  other : Value

-- A JSON object: its keys are different.
abbrev pub Object : Type 0
Object = List (String × Value)

abbrev pub get : String → Object → Option Value
get key [] = none
get key ((k, v) ∷ rest) = if str_eq k key then some v else get key rest

-- value.as_i64(), else the number in a string
abbrev pub as_integer : Value → Option ℤ
as_integer (number i text) = i
as_integer (string s) = parse_i64 (codes s)
as_integer other = none

-- -2147483648 <= value <= 2147483647
abbrev pub i32_of : ℤ → Option ℤ
i32_of (pos n) = if ltb_ℤ (pos n) (pos 2147483648) then some (pos n) else none
i32_of (negsuc n) = if ltb_ℤ (pos n) (pos 2147483648) then some (negsuc n) else none
