-- ===== src/Strings.antt =====
-- Texts, as lists of their bytes, the searches of std::string_view, and the helpers of
-- include/base/StringHelper.h.
pub mod Find
pub mod Strip
pub mod Split
mod Tests
use Prim.Native.Char.{code}
use Prim.Native.String.{String}
use simple_tcp.Prelude.{
  ℕ, zero, suc, ◌+◌, ◌-◌, Bool, true, false, not, ◌&&◌, ◌==◌, ltb, leb, List, [], ◌∷◌, ◌++◌, Option,
  none, some, if◌then◌else◌, member, length, take, drop, get_elem?,
}

abbrev pub Text : Type 0
Text = List ℕ

-- the bytes of an ASCII literal
abbrev pub text : String → Text
text String.[] = []
text (String.◌∷◌ c s) = code c ∷ text s

abbrev pub same_text : Text → Text → Bool
same_text [] [] = true
same_text [] (y ∷ ys) = false
same_text (x ∷ xs) [] = false
same_text (x ∷ xs) (y ∷ ys) = x == y && same_text xs ys

-- CRLF
abbrev pub crlf : Text
crlf = 13 ∷ 10 ∷ []

abbrev pub starts_with : Text → Text → Bool
starts_with [] s = true
starts_with (c ∷ p) [] = false
starts_with (c ∷ p) (x ∷ s) = x == c && starts_with p s

abbrev pub next : Option ℕ → Option ℕ
next none = none
next (some n) = some (suc n)

-- `s.find(p)`, where `npos` is `none`
abbrev pub find : Text → Text → Option ℕ
find p [] = if starts_with p [] then some 0 else none
find p (x ∷ s) = let later = next (find p s) in if starts_with p (x ∷ s) then some 0 else later

-- `s.find_first_not_of(token)`, as what is left of `s` from there
abbrev pub skip_any : Text → Text → Option Text
skip_any token [] = none
skip_any token (x ∷ s) =
    let later = skip_any token s in if member x token then later else some (x ∷ s)

-- The text that a pointer to its bytes stands for, where a string is made of the pointer alone.
abbrev pub c_string : Text → Text
c_string [] = []
c_string (x ∷ s) = let rest = c_string s in if x == 0 then [] else x ∷ rest

-- `str[i] == ' '`, for a position inside the text
abbrev pub is_space : Text → ℕ → Bool
is_space s i = elim (get_elem? s i) [ none ↦ false | some c ↦ c == 32 ]

-- The `while` of `strip`, with fuel: `none` where it was still running.
unfoldable pub strip_loop : ℕ → Text → ℕ → ℕ → Option (ℕ × ℕ)
strip_loop zero s start end = none
strip_loop (suc fuel) s start end = elim (ltb start end) [
  | false ↦ some (start, end)
  | true ↦ elim (not (is_space s start) && not (is_space s (end - 1))) [
    | true ↦ some (start, end)
    | false ↦
        strip_loop fuel s (if is_space s start then start + 1 else start)
          (if is_space s (end - 1) then end - 1 else end)
  ]
]

-- the end of `strip`
abbrev pub cut_out : Text → ℕ × ℕ → Text
cut_out s w = if leb w.1 w.0 then [] else take (w.1 - w.0) (drop w.0 s)

-- `strip`: a round shortens the text by a byte, so that the fuel is enough.
unfoldable pub strip : Text → Option Text
strip s = elim (strip_loop (suc (suc (length s))) s 0 (length s)) [
  | none ↦ none
  | some w ↦ some (cut_out s w)
]

abbrev pub put_first : Text → Option (List Text) → Option (List Text)
put_first w none = none
put_first w (some ws) = some (w ∷ ws)

-- The `while` of `split`, with fuel, from what is left of the text at `start_pos`.
unfoldable pub split_loop : ℕ → Text → Option Text → Option (List Text)
split_loop zero token start = none
split_loop (suc fuel) token none = some []
split_loop (suc fuel) token (some s) = elim (find token s) [
  | none ↦ some []
  | some n ↦ put_first (take n s) (split_loop fuel token (skip_any token (drop n s)))
]

-- the two first searches of `split`
abbrev pub first_end : Text → Option Text → Option ℕ
first_end token none = none
first_end token (some s) = find token s

-- `split`: `behind` is what stands in memory behind the view `str`, which `str.data()` reaches.
unfoldable pub split : Text → Text → Text → Option (List Text)
split behind str token = elim (first_end token (skip_any token str)) [
  | none ↦ some (c_string (str ++ behind) ∷ [])
  | some n ↦ split_loop (suc (length str)) token (skip_any token str)
]
