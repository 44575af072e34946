-- ===== src/Request/Refused.antt =====
-- Requests that parseHttpRequest does not take, and lines that it cannot read safely.
use simple_tcp.Prelude.{
  ℕ, ◌-◌, ◌%◌, ◌==◌, ◌≤◌, ◌<◌, ◌^◌, ◌≡◌, ◌≢◌, refl, ap, ◌∙◌, ◌⊎◌, inr, false, [], ◌∷◌, ◌++◌, none,
  some, arith, length, take, pos, ltb→lt, ne→==, take-append, drop-append_two,
}
use simple_tcp.Strings.{Text, text, crlf, find}
use simple_tcp.Strings.Find.{find-append}
use simple_tcp.Http.Common.{RequestType, get, post, is_get}
use simple_tcp.Http.{Headers, get_property}
use simple_tcp.Request.Results.{ok, refused, bad_request, partial_packet}
use simple_tcp.Request.Record.{HttpRequest, fresh}
use simple_tcp.Request.Settings.{set_host, set_connection, set_content, to_content_type, settings}
use simple_tcp.Request.{parse_start_line, parse_body, after_line, parse_http_request}
use simple_tcp.Request.Print.{IsUrl, start_line, named, parse_start_line-print, start_line-unbroken}
use simple_tcp.Request.Lines.{AreHeaders}
use simple_tcp.Request.RoundTrip.{print, parse_http_request-print}
use simple_tcp.Request.Accepted.{Announces, set_encodings_ok, set_content_post, set_ranges-none}

-- The headers of a POST whose body is not the announced one: another length is announced, or no type.
pub data IsPartial (hs : Headers) (n : ℕ) : Type 0 where
  other_length : {m : ℕ} → Announces hs m → n ≢ m → IsPartial hs n
  no_type : get_property (text "Content-Type") hs ≡ none → n < 2 ^ 64 - 1 → IsPartial hs n

set_content_untyped :
    (r : HttpRequest)
    → r.request_type ≡ post
    → get_property (text "Content-Type") r.headers ≡ none
    → set_content r ≡ ok r
unfolding set_content
set_content_untyped r e f = rw (ap is_get e, f, set_content) refl

-- The text of a POST of version 1.1, for a path, by which what stands behind the slash is meant,
-- that has no query, no space at its ends, no carriage return and neither HTTP nor GET in it, with
-- one header or more, none of them Range, each written as key, colon, space and value, where the
-- keys are not empty, differ and hold no colon, no key or value holds a carriage return, and no
-- value has a space at its ends: it is refused as a part of a packet where the headers announce a
-- body of a known type and of another length than the body has, shorter or longer; and where they
-- have no Content-Type and the body is shorter than 2 ^ 64 - 1.
pub parse_http_request-partial :
    (url : Text) (h : Text × Text) (hs : Headers) (body : Text)
    → IsUrl url
    → AreHeaders [] (h ∷ hs)
    → get_property (text "Range") (h ∷ hs) ≡ none
    → IsPartial (h ∷ hs) (length body)
    → parse_http_request (print post url (h ∷ hs) body) ≡ refused partial_packet
unfolding settings parse_body set_host set_connection
parse_http_request-partial url h hs body v a no_range (other_length {m} b d) =
    let r0 = record (named post url) { headers = h ∷ hs } in
    let es = set_encodings_ok (set_connection (set_host r0)) in
    let r1 = record (set_connection (set_host r0)) { accept_encodings = es.0 } in
    let c = set_content_post r1 m refl b in
    let r2 = record r1 { content_type = to_content_type b.type_text; content_length = pos m } in
    let small = ltb→lt m (2 ^ 63) (b.small) in
    let other : (length body == m % 2 ^ 64) ≡ false =
      ne→== (length body) (m % 2 ^ 64) (λ e. d (omega (arith, e, small))) in
    parse_http_request-print h hs a post url body (inr refl) v
    ∙ rw (es.1, c, set_ranges-none r2 no_range, settings, parse_body, other) refl
parse_http_request-partial url h hs body v a no_range (no_type e small) =
    let r0 = record (named post url) { headers = h ∷ hs } in
    let es = set_encodings_ok (set_connection (set_host r0)) in
    let r1 = record (set_connection (set_host r0)) { accept_encodings = es.0 } in
    let c = set_content_untyped r1 refl e in
    let other : (length body == 2 ^ 64 - 1 - 0 % 2 ^ 64) ≡ false =
      ne→== (length body) (2 ^ 64 - 1 - 0 % 2 ^ 64) (λ e. omega (arith, e, small)) in
    parse_http_request-print h hs a post url body (inr refl) v
    ∙ rw (es.1, c, set_ranges-none r1 no_range, settings, parse_body, other) refl

-- A request without headers is refused, although its lines are complete.
pub parse_http_request-headerless :
    (t : RequestType) (url : Text)
    → (t ≡ get) ⊎ (t ≡ post)
    → IsUrl url
    → parse_http_request (start_line t url ++ (crlf ++ crlf)) ≡ refused bad_request
unfolding parse_http_request after_line
parse_http_request-headerless t url m v =
    let line = start_line t url in
    let found : find crlf (line ++ (crlf ++ crlf)) ≡ some (length line) =
      find-append 13 (10 ∷ []) line crlf (start_line-unbroken url v t m) in
    let first : parse_start_line (take (length line) (line ++ (crlf ++ crlf))) fresh
        ≡ ok (named t url) =
      ap (λ s. parse_start_line s fresh) (take-append line (crlf ++ crlf))
      ∙ parse_start_line-print url v t m in
    rw (found, first, drop-append_two line crlf crlf, parse_http_request) refl

-- The line of a GET of version 1.1 whose first slash does not stand before its version.
pub record IsAskew (line : Text) (slash version : ℕ) : Type 0 where
  pub names_get : (n : ℕ) × (find (text "GET") line ≡ some n)
  pub known : (n : ℕ) × (find (text "HTTP/1.1") line ≡ some n)
  pub at_slash : find (text "/") line ≡ some slash
  pub at_version : find (text "HTTP") line ≡ some version
  pub askew : version ≤ slash
