-- ===== src/Request/Decimal.antt =====
-- Decimal texts: std::to_string is read back by std::from_chars.
use simple_tcp.Prelude.{
  ℕ, zero, suc, ◌+◌, ◌/◌, ◌%◌, ◌<◌, ◌≡◌, refl, sym, ap, ◌∙◌, Bool, true, false, ◌&&◌, ◌==◌, [], ◌∷◌,
  arith, ltb, ltb→lt, ltb→le, Bool-cases, inl, inr, if◌then◌else◌, ℤ, pos, negsuc, sub_ℕ,
  fits_int64, digits_onto, to_string, is_digit, value,
}
use simple_tcp.Strings.{Text}
use simple_tcp.Request.Scan.{span_digits, number, result_out_of_range, from_chars}

abbrev all_digits : Text → Bool
all_digits [] = true
all_digits (c ∷ s) = is_digit c && all_digits s

span_digits_all : (s : Text) → all_digits s ≡ true → span_digits s ≡ (s, [])
span_digits_all [] h = refl
span_digits_all (c ∷ s) h =
    let first : is_digit c ≡ true = ground (arith, h) in
    let rest : all_digits s ≡ true = ground (arith, h) in rw (first, span_digits_all s rest) refl

-- What the digits of a number in front of a text are.
record Spelt (n : ℕ) (out s : Text) : Type 0 where
  head : ℕ
  tail : Text
  shape : s ≡ head ∷ tail
  digits : all_digits s ≡ true
  number_is : value 0 s ≡ value n out

digits_onto-Spelt :
    (fuel n : ℕ) (out : Text)
    → n < fuel
    → all_digits out ≡ true
    → Spelt n out (digits_onto fuel n out)
digits_onto-Spelt zero n out h d = absurd (omega arith)
digits_onto-Spelt (suc fuel) n out h d = elim (Bool-cases (ltb n 10)) [
  | inl e ↦
      let small = ltb→lt n 10 e in
      rw (e, digits_onto)
        (record {
          head = 48 + n;
          tail = out;
          shape = refl;
          digits = ground (arith, small, d);
          number_is = ap (λ k. value k out) (omega arith);
        })
  | inr e ↦
      let large = ltb→le n 10 e in
      let digit : all_digits ((48 + n % 10) ∷ out) ≡ true = ground (arith, d) in
      let more = digits_onto-Spelt fuel (n / 10) ((48 + n % 10) ∷ out) (omega arith) digit in
      rw (e, digits_onto)
        (record {
          head = more.head;
          tail = more.tail;
          shape = more.shape;
          digits = more.digits;
          number_is = more.number_is ∙ ap (λ k. value k out) (omega arith);
        })
]

from_chars_digits :
    (c : ℕ) (s : Text)
    → all_digits (c ∷ s) ≡ true
    → fits_int64 (pos (value 0 (c ∷ s))) ≡ true
    → from_chars (c ∷ s) ≡ number (pos (value 0 (c ∷ s)))
unfolding from_chars
from_chars_digits c s h f =
    let unsigned : (c == b'-') ≡ false = ground (arith, h) in
    rw (unsigned, span_digits_all (c ∷ s) h, from_chars, f) refl

from_chars_negative :
    (c : ℕ) (s : Text) (n : ℕ)
    → all_digits (c ∷ s) ≡ true
    → value 0 (c ∷ s) ≡ suc n
    → fits_int64 (negsuc n) ≡ true
    → from_chars (45 ∷ c ∷ s) ≡ number (negsuc n)
unfolding from_chars
from_chars_negative c s n h e f =
    let negated : sub_ℕ 0 (suc n) ≡ negsuc n = ground arith in
    rw (span_digits_all (c ∷ s) h, from_chars, e)
      (ap (λ z. if fits_int64 z then number z else result_out_of_range) negated ∙ rw f refl)

-- Every int64_t is read back from its decimal text.
pub from_chars-to_string : (z : ℤ) → fits_int64 z ≡ true → from_chars (to_string z) ≡ number z
unfolding to_string
from_chars-to_string (pos n) h =
    let s = digits_onto-Spelt (suc n) n [] (omega arith) refl in
    let same : value 0 (s.head ∷ s.tail) ≡ n = ap (value 0) (sym s.shape) ∙ s.number_is in
    ap from_chars s.shape
    ∙ from_chars_digits s.head s.tail (ap all_digits (sym s.shape) ∙ s.digits)
        (ap (λ k. fits_int64 (pos k)) same ∙ h)
    ∙ ap (λ k. number (pos k)) same
from_chars-to_string (negsuc n) h =
    let s = digits_onto-Spelt (suc (suc n)) (suc n) [] (omega arith) refl in
    ap (λ t. from_chars (45 ∷ t)) s.shape
    ∙ from_chars_negative s.head s.tail n (ap all_digits (sym s.shape) ∙ s.digits)
        (ap (value 0) (sym s.shape) ∙ s.number_is) h
