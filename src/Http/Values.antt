-- ===== src/Http/Values.antt =====
-- The values that a response sets (src/http/HttpResponse.cpp) are read whole as C strings.
use simple_tcp.Prelude.{
  ℕ, zero, suc, ◌+◌, ◌/◌, ◌%◌, ◌==◌, ltb, member, digits_onto, to_string, ℤ, pos, negsuc, ap, ◌≡◌,
  refl, Bool, true, false, [], ◌∷◌, ◌++◌, if◌then◌else◌, arith, Bool-cases, inl, inr,
}
use simple_tcp.Strings.{Text, text, c_string}
use simple_tcp.Strings.Find.{member-append}
use simple_tcp.Http.Common.{
  ContentType, unknown_content, binary, plain, html, css, javascript, xml, json, jpeg, png, gif,
  icon, mp4, mpg, content_text, CharSet, unknown_char_set, utf_8, utf_16, utf_32, char_set_text,
  is_unknown_char_set,
}
use simple_tcp.Http.{HttpResponse}
use simple_tcp.Http.Generate.{type_value}

pub c_string_clean : (s : Text) → member 0 s ≡ false → c_string s ≡ s
c_string_clean [] h = refl
c_string_clean (c ∷ s) h = elim (Bool-cases (c == 0)) [
  | inl e ↦ absurd (ground (arith, h, e))
  | inr e ↦ rw e (ap (λ t. c ∷ t) (c_string_clean s (ground (arith, h, e))))
]

digits_onto-clean :
    (fuel n : ℕ) (out : Text) → member 0 out ≡ false → member 0 (digits_onto fuel n out) ≡ false
digits_onto-clean zero n out h = h
digits_onto-clean (suc fuel) n out h = elim (Bool-cases (ltb n 10)) [
  | inl e ↦ rw (e, digits_onto) (ground (arith, h))
  | inr e ↦
      rw (e, digits_onto)
        (digits_onto-clean fuel (n / 10) ((48 + n % 10) ∷ out) (ground (arith, h)))
]

-- Texts that the responses set hold no NUL.
pub c_string-to_string : (n : ℤ) → c_string (to_string n) ≡ to_string n
unfolding to_string
c_string-to_string (pos n) = c_string_clean _ (digits_onto-clean (suc n) n [] refl)
c_string-to_string (negsuc n) =
    c_string_clean (to_string (negsuc n)) (digits_onto-clean (suc (suc n)) (suc n) [] refl)

content_text-clean : (t : ContentType) → member 0 (content_text t) ≡ false
unfolding content_text
content_text-clean unknown_content = refl
content_text-clean binary = refl
content_text-clean plain = refl
content_text-clean html = refl
content_text-clean css = refl
content_text-clean javascript = refl
content_text-clean xml = refl
content_text-clean json = refl
content_text-clean jpeg = refl
content_text-clean png = refl
content_text-clean gif = refl
content_text-clean icon = refl
content_text-clean mp4 = refl
content_text-clean mpg = refl

char_set_text-clean : (c : CharSet) → member 0 (char_set_text c) ≡ false
unfolding char_set_text
char_set_text-clean unknown_char_set = refl
char_set_text-clean utf_8 = refl
char_set_text-clean utf_16 = refl
char_set_text-clean utf_32 = refl

pub c_string-type_value : (r : HttpResponse) → c_string (type_value r) ≡ type_value r
c_string-type_value r = elim (Bool-cases (is_unknown_char_set r.char_set)) [
  | inl e ↦ rw e (c_string_clean (content_text r.content_type) (content_text-clean r.content_type))
  | inr e ↦ rw e (
      c_string_clean (content_text r.content_type ++ (text "; " ++ char_set_text r.char_set)) (
        member-append 0 (content_text r.content_type) (text "; " ++ char_set_text r.char_set)
          (content_text-clean r.content_type)
          (member-append 0 (text "; ") (char_set_text r.char_set) refl
            (char_set_text-clean r.char_set))))
]

pub c_string-keep :
    (b : Bool)
    → c_string (if b then text "keep-alive" else text "close")
      ≡ (if b then text "keep-alive" else text "close")
c_string-keep true = refl
c_string-keep false = refl
