-- ===== src/Request/Kept.antt =====
-- What the loop and the settings of parseHeaders leave as it is, and that they end.
use simple_tcp.Prelude.{
  ℕ, zero, suc, ◌+◌, ◌<◌, ◌≡◌, refl, ◌∙◌, inl, inr, List, [], ◌∷◌, Bool-cases, Option-cases, arith,
  length, take, drop, length-drop, ℤ,
}
use simple_tcp.Strings.{Text, text, crlf, find, strip, split}
use simple_tcp.Strings.Strip.{strip_lem}
use simple_tcp.Strings.Split.{split-ends}
use simple_tcp.Http.Common.{is_get, EncodingType, is_unknown_content}
use simple_tcp.Http.{Headers, get_property}
use simple_tcp.Request.Results.{All, All->>=, All-map, looped}
use simple_tcp.Request.Record.{HttpRequest}
use simple_tcp.Request.Scan.{from_chars, match_bytes, match_range, stoll, bounds, ranges}
use simple_tcp.Request.Settings.{
  set_host, set_connection, encodings, set_encodings, to_content_type, with_length, set_length,
  set_content, set_ranges, settings,
}
use simple_tcp.Request.{add_line, header_loop, parse_headers}

-- Any value.
abbrev pub Any {ℓ} : {A : Type ℓ} → A → Type 0
Any a = Unit {0}

pub strip-All : (s : Text) → All Any (looped (strip s))
strip-All s = rw (strip_lem s) tt

split-All : (s : Text) → All Any (looped (split [] s (text ",")))
split-All s = rw ((split-ends [] s 44 []).1) tt

encodings-All : (ss : List Text) (es : List EncodingType) → All Any (encodings ss es)
unfolding encodings
encodings-All [] es = tt
encodings-All (s ∷ ss) es =
    All->>= Any Any (looped (strip s)) _ (strip-All s) λ t u. encodings-All ss _

bounds-All : (g : Text × Text) → All Any (bounds g)
unfolding bounds stoll
bounds-All ([], []) = tt
bounds-All ([], c ∷ t) = ground arith
bounds-All (c ∷ s, []) = ground arith
bounds-All (c ∷ s, d ∷ t) = ground arith

ranges-All : (ss : List Text) (rs : List (ℤ × ℤ)) → All Any (ranges ss rs)
unfolding ranges
ranges-All [] rs = tt
ranges-All (s ∷ ss) rs = elim (Option-cases (match_range s)) [
  | inl e ↦ rw (e, ranges) (ranges-All ss rs)
  | inr (g, e) ↦ rw (e, ranges) (All->>= Any Any (bounds g) _ (bounds-All g) λ r u. ranges-All ss _)
]

-- What the settings leave as it is.
abbrev pub Keeps : HttpRequest → HttpRequest → Type 0
Keeps r r' =
    (r'.request_type ≡ r.request_type) × (r'.version ≡ r.version) × (r'.headers ≡ r.headers)

set_encodings-All : (r : HttpRequest) → All (Keeps r) (set_encodings r)
unfolding set_encodings
set_encodings-All r = elim (Option-cases (get_property (text "Accept-Encoding") r.headers)) [
  | inl e ↦ rw (e, set_encodings) (refl, refl, refl)
  | inr (v, e) ↦
      rw (e, set_encodings)
        (All->>= Any (Keeps r) (looped (split [] v (text ","))) _ (split-All v) λ ss u.
          All->>= Any (Keeps r) (encodings ss r.accept_encodings) _
            (encodings-All ss r.accept_encodings) λ es u. (refl, refl, refl))
]

with_length-All : (r : HttpRequest) (v : Text) → All (Keeps r) (with_length r (from_chars v))
with_length-All r v = ground arith

set_length-All : (r : HttpRequest) → All (Keeps r) (set_length r)
unfolding set_length
set_length-All r = elim (Option-cases (get_property (text "Content-Length") r.headers)) [
  | inl e ↦ rw (e, set_length) (refl, refl, refl)
  | inr (v, e) ↦ rw (e, set_length) (with_length-All r v)
]

set_content-All : (r : HttpRequest) → All (Keeps r) (set_content r)
unfolding set_content
set_content-All r = elim (Bool-cases (is_get r.request_type)) [
  | inl e ↦ rw (e, set_content) (refl, refl, refl)
  | inr e ↦ elim (Option-cases (get_property (text "Content-Type") r.headers)) [
    | inl f ↦ rw (e, f, set_content) (refl, refl, refl)
    | inr (v, f) ↦ elim (Bool-cases (is_unknown_content (to_content_type v))) [
      | inl g ↦ rw (e, f, g, set_content) tt
      | inr g ↦
          rw (e, f, g, set_content) (set_length-All (record r { content_type = to_content_type v }))
    ]
  ]
]

set_ranges-All : (r : HttpRequest) → All (Keeps r) (set_ranges r)
unfolding set_ranges
set_ranges-All r = elim (Option-cases (get_property (text "Range") r.headers)) [
  | inl e ↦ rw (e, set_ranges) (refl, refl, refl)
  | inr (v, e) ↦ elim (Option-cases (match_bytes v)) [
    | inl f ↦ rw (e, f, set_ranges) (refl, refl, refl)
    | inr (s, f) ↦
        rw (e, f, set_ranges)
          (All->>= Any (Keeps r) (looped (split [] s (text ","))) _ (split-All s) λ ss u.
            All->>= Any (Keeps r) (ranges ss r.ranges) _ (ranges-All ss r.ranges)
              λ rs u. (refl, refl, refl))
  ]
]

Keeps-trans : (a b c : HttpRequest) → Keeps a b → Keeps b c → Keeps a c
Keeps-trans a b c h k = (k.0 ∙ h.0, k.1 ∙ h.1, k.2 ∙ h.2)

settings-All : (r : HttpRequest) → All (Keeps r) (settings r)
unfolding settings set_host set_connection
settings-All r =
    All->>= (Keeps r) (Keeps r) (set_encodings (set_connection (set_host r))) _
      (set_encodings-All (set_connection (set_host r)))
      λ a h.
        All->>= (Keeps r) (Keeps r) (set_content a) _
          (All-map (set_content a) (set_content-All a) λ b k. Keeps-trans r a b h k)
          λ b k. All-map (set_ranges b) (set_ranges-All b) λ c l. Keeps-trans r b c k l

add_line-All : (line : Text) (hs : Headers) → All Any (add_line line hs)
unfolding add_line
add_line-All line hs = elim (Option-cases (find (text ":") line)) [
  | inl e ↦ rw (e, add_line) tt
  | inr (n, e) ↦ rw (e, strip_lem (drop (suc n) line), add_line) tt
]

header_loop-All :
    (fuel : ℕ) (rest : Text) (hs : Headers)
    → length rest < fuel
    → All Any (header_loop fuel rest hs)
unfolding header_loop
header_loop-All zero rest hs h = absurd (omega arith)
header_loop-All (suc fuel) [] hs h = tt
header_loop-All (suc fuel) (c ∷ s) hs h = elim (Option-cases (find crlf (c ∷ s))) [
  | inl e ↦ rw (e, header_loop) tt
  | inr (n, e) ↦
      rw (e, header_loop)
        (All->>= Any Any (add_line (take n (c ∷ s)) hs) _ (add_line-All (take n (c ∷ s)) hs)
          λ hs' u.
            header_loop-All fuel (drop (n + 2) (c ∷ s)) hs'
              (omega (arith, length-drop (n + 2) (c ∷ s))))
]

-- Of a request line: what the rest of the parser does not change.
abbrev pub Line : HttpRequest → HttpRequest → Type 0
Line r r' = (r'.request_type ≡ r.request_type) × (r'.version ≡ r.version)

pub parse_headers-All : (s : Text) (r : HttpRequest) → All (Line r) (parse_headers s r)
unfolding parse_headers
parse_headers-All [] r = (refl, refl)
parse_headers-All (c ∷ s) r =
    All->>= Any (Line r) (header_loop (suc (length (c ∷ s))) (c ∷ s) r.headers) _
      (header_loop-All (suc (length (c ∷ s))) (c ∷ s) r.headers (omega arith))
      λ hs u.
        All-map (settings (record r { headers = hs })) (settings-All (record r { headers = hs }))
          λ r' h. (h.0, h.1)
