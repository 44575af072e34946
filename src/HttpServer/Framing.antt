-- ===== src/HttpServer/Framing.antt =====
-- The text that generateResponse of src/http/HttpResponse.cpp makes can be taken apart again, with the
-- loop that parseHeaders of src/http/HttpRequest.cpp runs over the headers.
use simple_tcp.Prelude.{
  ℕ, suc, ◌+◌, ◌≡◌, refl, sym, ap, ◌∙◌, false, [], ◌∷◌, ◌++◌, some, arith, length, take, drop,
  member, append_assoc, take-append, drop-append_two, take_cong, drop_cong, subst,
}
use simple_tcp.Strings.{Text, text, crlf, find}
use simple_tcp.Strings.Find.{find-append, member-append}
use simple_tcp.Http.Common.{
  Version, unknown_version, http1_0, http1_1, http3_0, version_text, StatusCode, status_text,
  unknown_status, status_ok, partial_content, moved_permanently, bad_request, unauthorized,
  forbidden, not_found, internal_server_error, method_not_implemented, http_version_no_support,
}
use simple_tcp.Http.{Headers, HttpResponse}
use simple_tcp.Http
use simple_tcp.Http.Generate.{status_line, header_lines, final_headers, generate_response}
use simple_tcp.Request.Results
use simple_tcp.Request.{header_loop, blank_line}
use simple_tcp.Request.Lines.{AreHeaders, header_text, header_loop-headers, AreHeaders-Ended}
use simple_tcp.Request.RoundTrip.{length-header_text}

version_text-unbroken : (v : Version) → member 13 (version_text v) ≡ false
unfolding version_text
version_text-unbroken unknown_version = refl
version_text-unbroken http1_0 = refl
version_text-unbroken http1_1 = refl
version_text-unbroken http3_0 = refl

status_text-unbroken : (c : StatusCode) → member 13 (status_text c) ≡ false
unfolding status_text
status_text-unbroken unknown_status = refl
status_text-unbroken status_ok = refl
status_text-unbroken partial_content = refl
status_text-unbroken moved_permanently = refl
status_text-unbroken bad_request = refl
status_text-unbroken unauthorized = refl
status_text-unbroken forbidden = refl
status_text-unbroken not_found = refl
status_text-unbroken internal_server_error = refl
status_text-unbroken method_not_implemented = refl
status_text-unbroken http_version_no_support = refl

status_line-unbroken : (r : HttpResponse) → member 13 (status_line r) ≡ false
status_line-unbroken r =
    member-append 13 (version_text r.version) (text " " ++ status_text r.status)
      (version_text-unbroken r.version) (status_text-unbroken r.status)

header_lines-text : (hs : Headers) → header_lines hs ≡ header_text hs
unfolding header_lines
header_lines-text [] = refl
header_lines-text ((k, v) ∷ hs) =
    ap (λ t. k ++ (text ": " ++ (v ++ (crlf ++ t)))) (header_lines-text hs)
    ∙ sym (append_assoc k (b':' ∷ 32 ∷ v) (crlf ++ header_text hs))

-- The parts of a response's text: up to the first line break, from there to the first blank line, and
-- the rest.
pub record Framed (line : Text) (hs : Headers) (body whole : Text) : Type 0 where
  pub line_ends : find crlf whole ≡ some (length line)
  pub line_is : take (length line) whole ≡ line
  pub blank : ℕ
  pub fields_end : find blank_line (drop (length line + 2) whole) ≡ some blank
  pub fields :
      header_loop (suc (blank + 2)) (take (blank + 2) (drop (length line + 2) whole)) []
      ≡ Results.ok hs
  pub content : drop (blank + 4) (drop (length line + 2) whole) ≡ body

frame :
    (line : Text) (h : Text × Text) (hs : Headers) (body : Text)
    → member 13 line ≡ false
    → AreHeaders [] (h ∷ hs)
    → Framed line (h ∷ hs) body (line ++ (crlf ++ (header_text (h ∷ hs) ++ (crlf ++ body))))
frame line h hs body unbroken a =
    let fields = header_text (h ∷ hs) in
    let rest = fields ++ (crlf ++ body) in
    let b = AreHeaders-Ended h.0 h.1 hs [] body a in
    let behind : drop (length line + 2) (line ++ (crlf ++ rest)) ≡ rest =
      drop-append_two line crlf rest in
    record {
      line_ends = find-append 13 (10 ∷ []) line rest unbroken;
      line_is = take-append line (crlf ++ rest);
      blank = b.0;
      fields_end = ap (find blank_line) behind ∙ b.1;
      fields =
          ap (λ t. header_loop (suc (b.0 + 2)) (take (b.0 + 2) t) []) behind
          ∙ ap (λ t. header_loop (suc (b.0 + 2)) t [])
              (take_cong rest (b.0 + 2) (length fields) b.2 ∙ take-append fields (crlf ++ body))
          ∙ header_loop-headers (h ∷ hs) [] (suc (b.0 + 2)) a
              (omega (arith, b.2, length-header_text (h ∷ hs)));
      content =
          ap (drop (b.0 + 4)) behind
          ∙ drop_cong rest (b.0 + 4) (length fields + 2) (omega (arith, b.2))
          ∙ drop-append_two fields crlf body;
    }

text_of : {s t : Text} → Path (Http.Result Text) (Http.ok s) (Http.ok t) → s ≡ t
text_of {s} e = ap (λ o. elim o [ Http.ok t ↦ t | Http.error x ↦ s | Http.undefined ↦ s ]) e

-- The text of a response, where its headers can be told apart in the order in which they are written:
-- the first line break ends the status line; the headers end at the first blank line, and the loop of
-- parseHeaders reads exactly these, in that order; and what stands behind is the body.
pub generate_response-Framed :
    (order : Headers → Headers) (r : HttpResponse) {seen : Headers} (h : Text × Text) (hs : Headers)
    {whole : Text}
    → final_headers r ≡ Http.ok seen
    → order seen ≡ h ∷ hs
    → AreHeaders [] (h ∷ hs)
    → generate_response order r ≡ Http.ok whole
    → Framed (status_line r) (h ∷ hs) r.body whole
unfolding generate_response
generate_response-Framed order r {seen} h hs {whole} e f a g =
    let made : generate_response order r
        ≡ Http.ok (status_line r ++ (crlf ++ (header_lines (order seen) ++ (crlf ++ r.body)))) =
      rw (e, generate_response) refl in
    let fields : header_lines (order seen) ≡ header_text (h ∷ hs) =
      header_lines-text (order seen) ∙ ap header_text f in
    let shape : status_line r ++ (crlf ++ (header_text (h ∷ hs) ++ (crlf ++ r.body))) ≡ whole =
      ap (λ t. status_line r ++ (crlf ++ (t ++ (crlf ++ r.body)))) (sym fields)
      ∙ text_of (sym made ∙ g) in
    subst (Framed (status_line r) (h ∷ hs) r.body) shape
      (frame (status_line r) h hs r.body (status_line-unbroken r) a)
