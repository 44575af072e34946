-- ===== src/Http/Headers.antt =====
-- The headers of a response (`setProperty` and `getProperty` of src/http/HttpResponse.cpp).
use simple_tcp.Prelude.{
  ◌≡◌, refl, true, false, [], ◌∷◌, some, if◌then◌else◌, arith, Bool-cases, inl, inr,
}
use simple_tcp.Strings.{Text, same_text, c_string}
use simple_tcp.Strings.Find.{same_text→eq, same_text_self}
use simple_tcp.Http.{Headers, get_property, set_property, put_header}

get_property-put_header :
    (k j : Text) (v : Text) (hs : Headers)
    → get_property j (put_header k v hs) ≡ (if same_text k j then some v else get_property j hs)
unfolding get_property
get_property-put_header k j v [] = refl
get_property-put_header k j v ((i, w) ∷ hs) = elim (Bool-cases (same_text i k)) [
  | inl there ↦ ground (arith, there, same_text→eq i k there)
  | inr other ↦ elim (Bool-cases (same_text i j)) [
    | inl found ↦ ground (arith, other, found, apart other found)
    | inr away ↦ ground (arith, other, away, get_property-put_header k j v hs)
  ]
]
  where
    apart : same_text i k ≡ false → same_text i j ≡ true → same_text k j ≡ false
    apart other found = elim (Bool-cases (same_text k j)) [
      | inl same ↦
          absurd
            (ground (arith, other, same_text_self i, same_text→eq i j found, same_text→eq k j same))
      | inr differ ↦ differ
    ]

-- After `setProperty` the key has the value, whether or not it had one before, and every other key has
-- what it had.
pub get_property-set_property :
    (k j : Text) (v : Text) (hs : Headers)
    → get_property j (set_property k v hs)
      ≡ (if same_text (c_string k) j then some (c_string v) else get_property j hs)
unfolding set_property
get_property-set_property k j v hs = get_property-put_header (c_string k) j (c_string v) hs
