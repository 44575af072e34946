-- ===== src/Request/Print.antt =====
-- Requests as a client writes them, and what parseStartLine reads in their first lines.
use simple_tcp.Prelude.{
  ℕ, ◌+◌, ◌-◌, ◌≡◌, refl, sym, ap, ap₂, subst, ◌∙◌, ◌⊎◌, inl, inr, false, [], ◌++◌, none, some,
  arith, length, member, le→ltb, append_assoc, take-append, drop-append, length-append,
}
use simple_tcp.Strings.{Text, text, find}
use simple_tcp.Strings.Find.{find_break, find_break_none, find_present, find-lacking, member-append}
use simple_tcp.Strings.Strip.{trim, trim-space_end, strip_lem}
use simple_tcp.Http.Common.{RequestType, get, post, request_type_text, http1_1}
use simple_tcp.Request.Results.{ok}
use simple_tcp.Request.Record.{HttpRequest, fresh}
use simple_tcp.Request.{version_of, view, take_url, take_target, parse_target, parse_start_line}

-- A path without a query that holds none of the words by which a line is read.
pub record IsUrl (url : Text) : Type 0 where
  pub trimmed : trim url ≡ url
  pub no_query : member b'?' url ≡ false
  pub no_return : member 13 url ≡ false
  pub no_version : find (text "HTTP") url ≡ none
  pub no_get : find (text "GET") url ≡ none

-- what stands behind the slash
abbrev pub target : Text → Text
target url = url ++ text " HTTP/1.1"

abbrev pub start_line : RequestType → Text → Text
start_line t url = request_type_text t ++ (text " /" ++ target url)

-- The request that the line alone gives.
abbrev pub named : RequestType → Text → HttpRequest
named t url = record fresh { request_type = t; version = http1_1; url = url }

module _ (url : Text) (v : IsUrl url) where
  target_http : find (text "HTTP") (target url) ≡ some (length url + 1)
  target_http = find_break 32 72 (text "TTP") url (text "HTTP/1.1") 0 refl v.no_version refl

  target_version : (n : ℕ) × (find (text "HTTP/1.1") (target url) ≡ some n)
  target_version =
      let f = find_present (text "HTTP/1.1") (url ++ text " ") [] in
      (f.0, ap (find (text "HTTP/1.1")) (sym (append_assoc url (text " ") (text "HTTP/1.1"))) ∙ f.1)

  target_query : find (text "?") (target url) ≡ none
  target_query =
      find-lacking b'?' (target url) (member-append b'?' url (text " HTTP/1.1") v.no_query refl)

  target_get : find (text "GET") (target url) ≡ none
  target_get = find_break_none 32 71 (text "ET") url (text "HTTP/1.1") refl v.no_get refl

  between :
      (front : Text) (start : ℕ)
      → length front ≡ start + 1
      → view (front ++ target url) (start + 1) (start + (length url + 2)) ≡ ok (url ++ text " ")
  between front start e =
      let width : start + (length url + 2) - (start + 1) ≡ length (url ++ text " ") =
        omega (arith, length-append url (text " ")) in
      rw
        (
          le→ltb (start + (length url + 2)) (start + 1) (omega arith),
          width,
          sym e,
          drop-append front (target url),
          sym (append_assoc url (text " ") (text "HTTP/1.1")),
          take-append (url ++ text " ") (text "HTTP/1.1"),
        )
        refl

  -- the url is what stands between the slash and the version
  url_between :
      (front : Text) (start : ℕ) (r : HttpRequest)
      → length front ≡ start + 1
      → take_url (front ++ target url) start (start + (length url + 2)) r
        ≡ ok (record r { url = url })
  unfolding take_url
  url_between front start r e =
      rw
        (
          between front start e,
          strip_lem (url ++ text " "),
          trim-space_end url 32 refl,
          v.trimmed,
          take_url,
        )
        refl

  -- `parser` on a line whose slash stands at `start`, behind `front`
  target_line :
      (front : Text) (start n : ℕ) (r : HttpRequest)
      → length front ≡ start + 1
      → find (text "HTTP/1.1") (front ++ target url) ≡ some n
      → find (text "/") (front ++ target url) ≡ some start
      → find (text "?") (front ++ target url) ≡ none
      → find (text "HTTP") (front ++ target url) ≡ some (start + (length url + 2))
      → parse_target (front ++ target url) r ≡ ok (record r { version = http1_1; url = url })
  unfolding parse_target version_of take_target
  target_line front start n r e version slash query http =
      rw (version, slash, parse_target, version_of)
        (ap₂ (λ q h. take_target (front ++ target url) start q h (record r { version = http1_1 }))
            query http
          ∙ url_between front start (record r { version = http1_1 }) e)

  get_line : parse_start_line (start_line get url) fresh ≡ ok (named get url)
  unfolding parse_start_line request_type_text
  get_line =
      target_line (text "GET /") 4 (5 + target_version.0) (record fresh { request_type = get }) refl
        (rw (target_version.1) (ap some (omega arith))) refl (rw target_query refl)
        (rw target_http (ap some (omega arith)))

  post_line : parse_start_line (start_line post url) fresh ≡ ok (named post url)
  unfolding parse_start_line request_type_text
  post_line =
      rw (target_get, parse_start_line)
        (target_line (text "POST /") 5 (6 + target_version.0) (record fresh { request_type = post })
          refl (rw (target_version.1) (ap some (omega arith))) refl (rw target_query refl)
          (rw target_http (ap some (omega arith))))

  -- The first line of a GET or a POST gives its method, its version and its path.
  pub parse_start_line-print :
      (t : RequestType)
      → (t ≡ get) ⊎ (t ≡ post)
      → parse_start_line (start_line t url) fresh ≡ ok (named t url)
  parse_start_line-print t (inl e) =
      subst (λ m. parse_start_line (start_line m url) fresh ≡ ok (named m url)) (sym e) get_line
  parse_start_line-print t (inr e) =
      subst (λ m. parse_start_line (start_line m url) fresh ≡ ok (named m url)) (sym e) post_line

  -- The line has no carriage return.
  pub start_line-unbroken :
      (t : RequestType) → (t ≡ get) ⊎ (t ≡ post) → member 13 (start_line t url) ≡ false
  unfolding request_type_text
  start_line-unbroken t (inl e) =
      subst (λ m. member 13 (start_line m url) ≡ false) (sym e)
        (member-append 13 url (text " HTTP/1.1") v.no_return refl)
  start_line-unbroken t (inr e) =
      subst (λ m. member 13 (start_line m url) ≡ false) (sym e)
        (member-append 13 url (text " HTTP/1.1") v.no_return refl)
