-- ===== src/Request/Accepted.antt =====
-- Requests that parseHttpRequest takes: what a client wrote is what the server's handler sees.
use simple_tcp.Prelude.{
  ℕ, ◌^◌, ◌≡◌, refl, ap, ◌∙◌, ◌⊎◌, inl, inr, true, false, List, [], ◌∷◌, ◌++◌, none, some, arith,
  length, ℤ, pos, to_string, fits_int64, ltb→lt, Option-cases,
}
use simple_tcp.Strings.{Text, text}
use simple_tcp.Strings.Strip.{trim, strip_lem}
use simple_tcp.Strings.Split.{split-ends}
use simple_tcp.Http.Common.{
  RequestType, get, post, is_get, http1_1, EncodingType, ContentType, is_unknown_content,
}
use simple_tcp.Http.{Headers, get_property}
use simple_tcp.Request.Results.{ok}
use simple_tcp.Request.Record.{HttpRequest}
use simple_tcp.Request.Decimal.{from_chars-to_string}
use simple_tcp.Request.Settings.{
  set_host, set_connection, encodings, set_encodings, to_encoding_type, to_content_type, set_length,
  set_content, set_ranges, settings,
}
use simple_tcp.Request.{size_ok, parse_body, parse_http_request}
use simple_tcp.Request.Print.{IsUrl, named}
use simple_tcp.Request.Lines.{AreHeaders}
use simple_tcp.Request.RoundTrip.{print, parse_http_request-print}

encodings_ok :
    (ss : List Text) (es : List EncodingType) → (fs : List EncodingType) × (encodings ss es ≡ ok fs)
unfolding encodings
encodings_ok [] es = (es, refl)
encodings_ok (s ∷ ss) es =
    let more = encodings_ok ss (es ++ (to_encoding_type (trim s) ∷ [])) in
    (more.0, rw (strip_lem s, encodings) more.1)

pub set_encodings_ok :
    (r : HttpRequest)
    → (es : List EncodingType) × (set_encodings r ≡ ok (record r { accept_encodings = es }))
unfolding set_encodings
set_encodings_ok r = elim (Option-cases (get_property (text "Accept-Encoding") r.headers)) [
  | inl e ↦ (r.accept_encodings, rw (e, set_encodings) refl)
  | inr (v, e) ↦
      let ws = split-ends [] v 44 [] in
      let es = encodings_ok ws.0 r.accept_encodings in
      (es.0, rw (e, ws.1, es.1, set_encodings) refl)
]

pub set_ranges-none :
    (r : HttpRequest) → get_property (text "Range") r.headers ≡ none → set_ranges r ≡ ok r
unfolding set_ranges
set_ranges-none r e = rw (e, set_ranges) refl

-- Headers that announce a body of a known type and of this length.
pub record Announces (hs : Headers) (n : ℕ) : Type 0 where
  pub type_text : Text
  pub typed : get_property (text "Content-Type") hs ≡ some type_text
  pub known : is_unknown_content (to_content_type type_text) ≡ false
  pub sized : get_property (text "Content-Length") hs ≡ some (to_string (pos n))
  pub small : fits_int64 (pos n) ≡ true

pub set_content_post :
    (r : HttpRequest) (n : ℕ)
    → r.request_type ≡ post
    → (a : Announces r.headers n)
    → set_content r
      ≡ ok (record r { content_type = to_content_type a.type_text; content_length = pos n })
unfolding set_content set_length
set_content_post r n t a =
    rw
      (
        ap is_get t,
        a.typed,
        a.known,
        a.sized,
        from_chars-to_string (pos n) (a.small),
        set_content,
        set_length,
      )
      refl

set_content_get : (r : HttpRequest) → r.request_type ≡ get → set_content r ≡ ok r
unfolding set_content
set_content_get r t = rw (ap is_get t, set_content) refl

-- A GET, or a POST whose headers announce its body.
pub data IsComplete (hs : Headers) (n : ℕ) : RequestType → Type 0 where
  complete_get : IsComplete hs n get
  complete_post : Announces hs n → IsComplete hs n post

-- The content that the headers give.
set_content_ok :
    (t : RequestType) (n : ℕ) (r : HttpRequest)
    → r.request_type ≡ t
    → IsComplete r.headers n t
    → (c : ContentType) × (l : ℤ) × (set_content r
        ≡ ok (record r { content_type = c; content_length = l }))
      × ((body : Text)
          → length body ≡ n
          → size_ok (record r { content_type = c; content_length = l }) body ≡ true)
set_content_ok t n r e complete_get =
    (r.content_type, r.content_length, set_content_get r e, λ body f. rw (ap is_get e) refl)
set_content_ok t n r e (complete_post a) = (
  to_content_type a.type_text,
  pos n,
  set_content_post r n e a,
  λ body f. rw (ap is_get e) (ground (arith, f, ltb→lt n (2 ^ 63) (a.small))),
)

method_of : {hs : Headers} {n : ℕ} (t : RequestType) → IsComplete hs n t → (t ≡ get) ⊎ (t ≡ post)
method_of t complete_get = inl refl
method_of t (complete_post a) = inr refl

-- What the handler of the server is given.
pub record Delivered (t : RequestType) (url : Text) (hs : Headers) (body : Text) (size : ℕ)
    (r : HttpRequest) : Type 0 where
  pub method : r.request_type ≡ t
  pub version : r.version ≡ http1_1
  pub path : r.url ≡ url
  pub fields : r.headers ≡ hs
  pub content : r.body ≡ body
  pub whole : r.request_size ≡ pos size

-- The text of a GET, or of a POST whose headers announce a body of a known type and of its length,
-- of version 1.1, for a path, by which what stands behind the slash is meant, that has no query, no
-- space at its ends, no carriage return and neither HTTP nor GET in it, with one header or more,
-- none of them Range, each written as key, colon, space and value, where the keys are not empty,
-- differ and hold no colon, no key or value holds a carriage return, and no value has a space at
-- its ends: parseHttpRequest accepts it, and gives the method, version, path, headers and body that
-- were written, and the size of the whole.
pub parse_http_request-Delivered :
    (t : RequestType) (url : Text) (h : Text × Text) (hs : Headers) (body : Text)
    → IsUrl url
    → AreHeaders [] (h ∷ hs)
    → get_property (text "Range") (h ∷ hs) ≡ none
    → IsComplete (h ∷ hs) (length body) t
    → (r : HttpRequest) × (parse_http_request (print t url (h ∷ hs) body) ≡ ok r)
      × Delivered t url (h ∷ hs) body (length (print t url (h ∷ hs) body)) r
unfolding settings parse_body set_host set_connection
parse_http_request-Delivered t url h hs body v a no_range c =
    let r0 = record (named t url) { headers = h ∷ hs } in
    let es = set_encodings_ok (set_connection (set_host r0)) in
    let r1 = record (set_connection (set_host r0)) { accept_encodings = es.0 } in
    let cs = set_content_ok t (length body) r1 refl c in
    let r2 = record r1 { content_type = cs.0; content_length = cs.1 } in
    let set : settings r0 ≡ ok r2 = rw (es.1, cs.2, set_ranges-none r2 no_range, settings) refl in
    (
      record r2 { body = body; request_size = pos (length (print t url (h ∷ hs) body)) },
      parse_http_request-print h hs a t url body (method_of t c) v
          ∙ rw (set, cs.3 body refl, parse_body) refl,
      record {
        method = refl;
        version = refl;
        path = refl;
        fields = refl;
        content = refl;
        whole = refl;
      },
    )
