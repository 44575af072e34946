-- ===== src/Http/Choice.antt =====
-- Which type and which encoding a file is given (src/http/HttpResponse.cpp).
use simple_tcp.Prelude.{
  ◌≡◌, ◌⊎◌, refl, sym, subst, ◌∙◌, some-injective, inl, inr, Bool, true, false, ◌||◌, List, [], ◌∷◌,
  Option, none, some, if◌then◌else◌, arith, Bool-cases,
}
use simple_tcp.Strings.{Text, text, same_text}
use simple_tcp.Strings.Find.{same_text→eq, same_text_self}
use simple_tcp.Http.Common.{ContentType, binary, extensions, EncodingType, no_encoding}
use simple_tcp.Http.{HttpResponse, select_encode_type}
use simple_tcp.Http.Files.{type_of_extension, type_of_file}

-- an extension with its type in a table
abbrev pub IsListed : Text → ContentType → List (Text × ContentType) → Type 0
IsListed e t [] = true ≡ false
IsListed e t ((f, u) ∷ ts) = ((e ≡ f) × (t ≡ u)) ⊎ IsListed e t ts

-- The type of a file: binary without an extension, or what the table lists.
pub data HasType : Option Text → ContentType → Type 0 where
  no_extension : HasType none binary
  listed : {e : Text} {t : ContentType} → IsListed e t extensions → HasType (some e) t

-- The files that are compressed.
abbrev pub IsWeb : Text → Type 0
IsWeb e = (e ≡ text ".html") ⊎ ((e ≡ text ".xml") ⊎ ((e ≡ text ".js") ⊎ (e ≡ text ".json")))

-- The encoding: the first one that the client accepts, for the files that are compressed.
pub data Selects : Option Text → List EncodingType → EncodingType → Type 0 where
  first_accepted :
      {e : Text} {c : EncodingType} {cs : List EncodingType} → IsWeb e → Selects (some e) (c ∷ cs) c
  none_accepted : {e : Option Text} → Selects e [] no_encoding
  without_extension : {cs : List EncodingType} → Selects none cs no_encoding
  other_file :
      {e : Text} {cs : List EncodingType}
      → (IsWeb e → true ≡ false)
      → Selects (some e) cs no_encoding

type_of_extension_head :
    (e f : Text) (u : ContentType) (ts : List (Text × ContentType))
    → same_text f e ≡ true
    → type_of_extension e ((f, u) ∷ ts) ≡ some u
unfolding type_of_extension
type_of_extension_head e f u ts same = rw same refl

type_of_extension-some :
    (e : Text) (t : ContentType) (ts : List (Text × ContentType))
    → type_of_extension e ts ≡ some t
    → IsListed e t ts
unfolding type_of_extension
type_of_extension-some e t [] h = absurd (ground (arith, h))
type_of_extension-some e t ((f, u) ∷ ts) h = elim (Bool-cases (same_text f e)) [
  | inl same ↦ inl (
    sym (same_text→eq f e same),
    sym (some-injective (sym (type_of_extension_head e f u ts same) ∙ h)),
  )
  | inr other ↦ inr (type_of_extension-some e t ts (ground (arith, h, other)))
]

type_of_extension-none :
    (e : Text) (t : ContentType) (ts : List (Text × ContentType))
    → type_of_extension e ts ≡ none
    → IsListed e t ts
    → true ≡ false
unfolding type_of_extension
type_of_extension-none e t [] h l = l
type_of_extension-none e t ((f, u) ∷ ts) h l = elim (Bool-cases (same_text f e)) [
  | inl same ↦ absurd (ground (arith, h, type_of_extension_head e f u ts same))
  | inr other ↦ elim l [
    | inl (p, q) ↦ sym (subst (λ x. same_text x e ≡ true) p (same_text_self e)) ∙ other
    | inr later ↦ type_of_extension-none e t ts (ground (arith, h, other)) later
  ]
]

pub type_of_file-HasType :
    (ext : Option Text) (t : ContentType) → type_of_file ext ≡ some t → HasType ext t
unfolding type_of_file
type_of_file-HasType none t h = subst (λ u. HasType none u) (some-injective h) no_extension
type_of_file-HasType (some e) t h = listed (type_of_extension-some e t extensions h)

pub type_of_file-none :
    (ext : Option Text) (t : ContentType) → type_of_file ext ≡ none → HasType ext t → true ≡ false
unfolding type_of_file
type_of_file-none none t h no_extension = absurd (ground (arith, h))
type_of_file-none (some e) t h (listed l) = type_of_extension-none e t extensions h l

abbrev is_web : Text → Bool
is_web e =
    same_text e (text ".html")
    || (same_text e (text ".xml") || (same_text e (text ".js") || same_text e (text ".json")))

or-cases : (a b : Bool) → (a || b) ≡ true → (a ≡ true) ⊎ (b ≡ true)
or-cases true b h = inl refl
or-cases false b h = inr h

or_right : (a b : Bool) → b ≡ true → (a || b) ≡ true
or_right true b h = refl
or_right false b h = h

or_left : (a b : Bool) → a ≡ true → (a || b) ≡ true
or_left true b h = refl
or_left false b h = absurd (ground (arith, h))

is_web-IsWeb : (e : Text) → is_web e ≡ true → IsWeb e
is_web-IsWeb e h = elim (or-cases (same_text e (text ".html")) _ h) [
  | inl a ↦ inl (same_text→eq e _ a)
  | inr h' ↦ inr (elim (or-cases (same_text e (text ".xml")) _ h') [
    | inl a ↦ inl (same_text→eq e _ a)
    | inr h'' ↦ inr (elim (or-cases (same_text e (text ".js")) _ h'') [
      | inl a ↦ inl (same_text→eq e _ a)
      | inr a ↦ inr (same_text→eq e _ a)
    ])
  ])
]

IsWeb-is_web : (e : Text) → IsWeb e → is_web e ≡ true
IsWeb-is_web e (inl p) = subst (λ x. is_web x ≡ true) (sym p) refl
IsWeb-is_web e (inr (inl p)) = subst (λ x. is_web x ≡ true) (sym p) refl
IsWeb-is_web e (inr (inr (inl p))) = subst (λ x. is_web x ≡ true) (sym p) refl
IsWeb-is_web e (inr (inr (inr p))) = subst (λ x. is_web x ≡ true) (sym p) refl

first-Selects :
    (e : Text) (c : EncodingType) (cs : List EncodingType)
    → Selects (some e) (c ∷ cs) (if is_web e then c else no_encoding)
first-Selects e c cs = elim (Bool-cases (is_web e)) [
  | inl web ↦ rw web (first_accepted (is_web-IsWeb e web))
  | inr other ↦ rw other (other_file (λ w. sym (IsWeb-is_web e w) ∙ other))
]

pub select_encode_type-Selects :
    (ext : Option Text) (r : HttpResponse)
    → Selects ext r.avail_encodings (select_encode_type ext r)
unfolding select_encode_type
select_encode_type-Selects none r = without_extension
select_encode_type-Selects (some e) r = go r.avail_encodings
  where
    go :
        (cs : List EncodingType)
        → Selects
            (some e)
            cs
            (elim cs [ [] ↦ no_encoding | c ∷ cs ↦ if is_web e then c else no_encoding ])
    go [] = none_accepted
    go (c ∷ cs) = first-Selects e c cs
