-- ===== src/Request/Scan.antt =====
-- The numbers and ranges in the values of headers: std::from_chars, std::stoll and the two regular
-- expressions of `parseHeaders` in src/http/HttpRequest.cpp.
use simple_tcp.Prelude.{
  ℕ, ◌==◌, ◌||◌, ◌&&◌, Bool, true, false, List, [], ◌∷◌, ◌++◌, Option, none, some, leb,
  if◌then◌else◌, drop, ℤ, pos, negsuc, sub_ℕ, fits_int64, is_digit, value,
}
use simple_tcp.Strings.{Text, text, starts_with, c_string}
use simple_tcp.Request.Results.{Parsed, ok, threw, ◌>>=◌}

-- the digits at the start of a text, and what stands behind them
abbrev pub span_digits : Text → Text × Text
span_digits [] = ([], [])
span_digits (c ∷ s) =
    let rest = span_digits s in if is_digit c then (c ∷ rest.0, rest.1) else ([], c ∷ s)

-- What std::from_chars comes to.
pub data Number : Type 0 where
  invalid_argument result_out_of_range : Number
  number : ℤ → Number

abbrev in_range : ℤ → Number
in_range n = if fits_int64 n then number n else result_out_of_range

abbrev with_digits : (ℕ → ℤ) → Text → Number
with_digits f [] = invalid_argument
with_digits f (c ∷ s) = in_range (f (value 0 (c ∷ s)))

-- `std::from_chars` into an int64_t: an optional minus sign, and then the digits at the start.
unfoldable pub from_chars : Text → Number
from_chars [] = invalid_argument
from_chars (c ∷ s) =
    if c == b'-'
    then with_digits (λ n. sub_ℕ 0 n) (span_digits s).0
    else with_digits pos (span_digits (c ∷ s)).0

-- `std::stoll` of digits: std::out_of_range where the number is too large.
unfoldable pub stoll : Text → Parsed ℤ
stoll s = if fits_int64 (pos (value 0 s)) then ok (pos (value 0 s)) else threw

abbrev one_line : Text → Bool
one_line [] = true
one_line (c ∷ s) = if c == 10 || c == 13 then false else one_line s

-- `bytes=(.*)` on the C string of the value: the group.
unfoldable pub match_bytes : Text → Option Text
match_bytes v =
    let s = c_string v in
    let rest = drop 6 s in
    if starts_with (text "bytes=") s && one_line rest then some rest else none

-- `\s`
abbrev is_blank : ℕ → Bool
is_blank c = c == 32 || leb 9 c && leb c 13

abbrev skip_blanks : Text → Text
skip_blanks [] = []
skip_blanks (c ∷ s) = let rest = skip_blanks s in if is_blank c then rest else c ∷ s

-- the second group, up to the end of the text
abbrev match_end : Text → Text × Text → Option (Text × Text)
match_end first (second, []) = some (first, second)
match_end first (second, c ∷ s) = none

abbrev match_dash : Text × Text → Option (Text × Text)
match_dash (first, []) = none
match_dash (first, c ∷ s) = if c == b'-' then match_end first (span_digits s) else none

-- `\s*(\d*)-(\d*)` on a part: its two groups.
unfoldable pub match_range : Text → Option (Text × Text)
match_range s = match_dash (span_digits (skip_blanks s))

-- a number that may be left out
abbrev number_or : ℤ → Text → Parsed ℤ
number_or n [] = ok n
number_or n (c ∷ s) = stoll (c ∷ s)

-- the two bounds of a range
unfoldable pub bounds : Text × Text → Parsed (ℤ × ℤ)
bounds (first, second) = do a ← number_or (pos 0) first; b ← number_or (negsuc 0) second; ok (a, b)

-- the loop over the parts
unfoldable pub ranges : List Text → List (ℤ × ℤ) → Parsed (List (ℤ × ℤ))
ranges [] rs = ok rs
ranges (s ∷ ss) rs = elim (match_range s) [
  | none ↦ ranges ss rs
  | some groups ↦ do r ← bounds groups; ranges ss (rs ++ (r ∷ []))
]
