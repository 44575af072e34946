-- ===== src/Request/RoundTrip.antt =====
-- What parseHttpRequest reads in a request that a client wrote.
use simple_tcp.Prelude.{
  suc, ◌+◌, ◌≤◌, ◌≡◌, refl, ap, ◌∙◌, ◌⊎◌, [], ◌∷◌, ◌++◌, some, arith, length, take, drop,
  take-append, drop-append_two, length-append, take_cong, drop_cong,
}
use simple_tcp.Strings.{Text, crlf, find}
use simple_tcp.Strings.Find.{find-append}
use simple_tcp.Http.Common.{RequestType, get, post}
use simple_tcp.Http.{Headers}
use simple_tcp.Request.Results.{ok, ◌>>=◌}
use simple_tcp.Request.Record.{HttpRequest, fresh}
use simple_tcp.Request.Settings.{settings}
use simple_tcp.Request.{
  parse_start_line, header_loop, parse_headers, parse_body, after_line, parse_http_request,
}
use simple_tcp.Request.Print.{IsUrl, start_line, named, parse_start_line-print, start_line-unbroken}
use simple_tcp.Request.Lines.{
  AreHeaders, header_line, header_text, header_loop-headers, AreHeaders-Ended,
}

-- A request with headers, as a client writes it.
abbrev pub print : RequestType → Text → Headers → Text → Text
print t url hs body = start_line t url ++ (crlf ++ (header_text hs ++ (crlf ++ body)))

pub length-header_text : (hs : Headers) → length hs ≤ length (header_text hs)
length-header_text [] = omega arith
length-header_text ((k, v) ∷ hs) =
    omega (arith, length-append (header_line k v) (crlf ++ header_text hs), length-header_text hs)

module _ (h : Text × Text) (hs : Headers) (a : AreHeaders [] (h ∷ hs)) where
  parse_headers-text :
      (s : Text) (r : HttpRequest)
      → s ≡ header_text (h ∷ hs)
      → r.headers ≡ []
      → parse_headers s r ≡ settings (record r { headers = h ∷ hs })
  unfolding parse_headers
  parse_headers-text [] r e f = absurd (omega (arith, ap length e, length-header_text (h ∷ hs)))
  parse_headers-text (c ∷ s) r e f =
      ap
        (λ seen. header_loop (suc (length (c ∷ s))) (c ∷ s) seen >>= λ hs'.
          settings (record r { headers = hs' }))
        f
      ∙ ap (λ o. o >>= λ hs'. settings (record r { headers = hs' }))
          (ap (λ t. header_loop (suc (length (c ∷ s))) t []) e
            ∙ header_loop-headers (h ∷ hs) [] (suc (length (c ∷ s))) a
                (omega (arith, ap length e, length-header_text (h ∷ hs))))

  after_line-text :
      (packet body : Text) (r : HttpRequest)
      → r.headers ≡ []
      → after_line packet (header_text (h ∷ hs) ++ (crlf ++ body)) r
        ≡ settings (record r { headers = h ∷ hs }) >>= parse_body packet body
  unfolding after_line
  after_line-text packet body r f =
      let b = AreHeaders-Ended h.0 h.1 hs [] body a in
      let whole = header_text (h ∷ hs) in
      let front : take (b.0 + 2) (whole ++ (crlf ++ body)) ≡ whole =
        take_cong (whole ++ (crlf ++ body)) (b.0 + 2) (length whole) b.2
        ∙ take-append whole (crlf ++ body) in
      let behind : drop (b.0 + 4) (whole ++ (crlf ++ body)) ≡ body =
        drop_cong (whole ++ (crlf ++ body)) (b.0 + 4) (length whole + 2) (omega (arith, b.2))
        ∙ drop-append_two whole crlf body in
      rw (b.1, behind, after_line)
        (ap (λ o. o >>= parse_body packet body)
          (parse_headers-text (take (b.0 + 2) (whole ++ (crlf ++ body))) r front f))

  -- The packet is read as its line, its headers and its body.
  pub parse_http_request-print :
      (t : RequestType) (url body : Text)
      → (t ≡ get) ⊎ (t ≡ post)
      → IsUrl url
      → parse_http_request (print t url (h ∷ hs) body)
        ≡ settings (record (named t url) { headers = h ∷ hs })
          >>= parse_body (print t url (h ∷ hs) body) body
  unfolding parse_http_request
  parse_http_request-print t url body m v =
      let line = start_line t url in
      let rest = header_text (h ∷ hs) ++ (crlf ++ body) in
      let found : find crlf (print t url (h ∷ hs) body) ≡ some (length line) =
        find-append 13 (10 ∷ []) line rest (start_line-unbroken url v t m) in
      let first : parse_start_line (take (length line) (line ++ (crlf ++ rest))) fresh
          ≡ ok (named t url) =
        ap (λ s. parse_start_line s fresh) (take-append line (crlf ++ rest))
        ∙ parse_start_line-print url v t m in
      rw (found, first, drop-append_two line crlf rest, parse_http_request)
        (after_line-text (print t url (h ∷ hs) body) body (named t url) refl)
