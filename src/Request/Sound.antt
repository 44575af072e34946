-- ===== src/Request/Sound.antt =====
-- What parseHttpRequest has found where it gives a request, and that it always ends.
use simple_tcp.Prelude.{
  ℕ, ◌+◌, ◌≡◌, ◌≢◌, refl, sym, ap, subst, ==→eq, append_assoc, ◌∙◌, ◌⊎◌, inl, inr, true, false,
  ◌++◌, Option, none, some, Bool-cases, Option-cases, arith, length, take, drop, pos, to_size,
}
use simple_tcp.Strings.{Text, text, crlf, find, strip}
use simple_tcp.Strings.Find.{find_lem}
use simple_tcp.Http.Common.{
  get, post, is_unknown_version, Version, unknown_version, http1_0, http1_1, http3_0,
}
use simple_tcp.Request.Results.{ok, hang, All, All->>=, looped}
use simple_tcp.Request.Record.{HttpRequest, fresh}
use simple_tcp.Request.{
  version_of, view, sub_string, take_url, take_target, parse_target, parse_start_line,
  parse_headers, blank_line, size_ok, parse_body, after_line, parse_http_request,
}
use simple_tcp.Request.Kept.{Any, strip-All, Line, parse_headers-All}

-- A request that the line named: one of two methods and one of two versions.
pub record Named (r : HttpRequest) : Type 0 where
  pub method : (r.request_type ≡ get) ⊎ (r.request_type ≡ post)
  pub known : is_unknown_version r.version ≡ false

take_url-All :
    (line : Text) (start end : ℕ) (r : HttpRequest)
    → Named r
    → All Named (take_url line start end r)
unfolding take_url
take_url-All line start end r h =
    All->>= Any Named (view line (start + 1) end) _ (ground arith) λ v u.
      All->>= Any Named (looped (strip v)) _ (strip-All v)
        λ url u. record { method = h.method; known = h.known }

take_target-All :
    (line : Text) (start : ℕ) (query http : Option ℕ) (r : HttpRequest)
    → Named r
    → All Named (take_target line start query http r)
unfolding take_target
take_target-All line start query none r h = tt
take_target-All line start none (some end) r h = take_url-All line start end r h
take_target-All line start (some query) (some end) r h =
    All->>= Any Named (sub_string line query end) _ (ground arith) λ q u.
      take_url-All line start query (record r { query_parameters = q })
        (record { method = h.method; known = h.known })

parse_target-All :
    (line : Text) (r : HttpRequest)
    → (r.request_type ≡ get) ⊎ (r.request_type ≡ post)
    → All Named (parse_target line r)
unfolding parse_target
parse_target-All line r h = go (version_of line) (find (text "/") line) refl refl
  where
    go :
        (v : Version) (slash : Option ℕ)
        → version_of line ≡ v
        → find (text "/") line ≡ slash
        → All Named (parse_target line r)
    go unknown_version slash e f = rw (e, parse_target) tt
    go http1_0 none e f = rw (e, f, parse_target) tt
    go http1_0 (some n) e f =
        rw (e, f, parse_target)
          (take_target-All line n (find (text "?") line) (find (text "HTTP") line)
            (record r { version = http1_0 }) (record { method = h; known = refl }))
    go http1_1 none e f = rw (e, f, parse_target) tt
    go http1_1 (some n) e f =
        rw (e, f, parse_target)
          (take_target-All line n (find (text "?") line) (find (text "HTTP") line)
            (record r { version = http1_1 }) (record { method = h; known = refl }))
    go http3_0 none e f = rw (e, f, parse_target) tt
    go http3_0 (some n) e f =
        rw (e, f, parse_target)
          (take_target-All line n (find (text "?") line) (find (text "HTTP") line)
            (record r { version = http3_0 }) (record { method = h; known = refl }))

parse_start_line-All : (line : Text) (r : HttpRequest) → All Named (parse_start_line line r)
unfolding parse_start_line
parse_start_line-All line r = elim (Option-cases (find (text "GET") line)) [
  | inr (n, e) ↦
      rw (e, parse_start_line) (parse_target-All line (record r { request_type = get }) (inl refl))
  | inl e ↦ elim (Option-cases (find (text "POST") line)) [
    | inr (n, f) ↦
        rw (e, f, parse_start_line)
          (parse_target-All line (record r { request_type = post }) (inr refl))
    | inl f ↦ rw (e, f, parse_start_line) tt
  ]
]

-- A request that stands in the packet: named by its line, with the body behind a blank line, of the
-- size that was announced unless it is a GET, and with the size of the whole packet.
pub record Sound (packet : Text) (r : HttpRequest) : Type 0 where
  pub named : Named r
  pub head : Text
  pub splits : packet ≡ head ++ (blank_line ++ r.body)
  pub whole : r.request_size ≡ pos (length packet)
  pub announced : (r.request_type ≡ get) ⊎ (length r.body ≡ to_size r.content_length)

size_ok_lem :
    (r : HttpRequest) (body : Text)
    → Named r
    → size_ok r body ≡ true
    → (r.request_type ≡ get) ⊎ (length body ≡ to_size r.content_length)
size_ok_lem r body n h = elim n.method [
  | inl e ↦ inl e
  | inr e ↦ inr (==→eq (length body) (to_size r.content_length) (ground (arith, e, h)))
]

Named-Line : (r r' : HttpRequest) → Named r → Line r r' → Named r'
Named-Line r r' n l = record {
  method = elim n.method [ inl e ↦ inl (l.0 ∙ e) | inr e ↦ inr (l.0 ∙ e) ];
  known = ap is_unknown_version l.1 ∙ n.known;
}

parse_body-All :
    (packet head body : Text) (r : HttpRequest)
    → Named r
    → packet ≡ head ++ (blank_line ++ body)
    → All (Sound packet) (parse_body packet body r)
unfolding parse_body
parse_body-All packet head body r n e = elim (Bool-cases (size_ok r body)) [
  | inl h ↦
      rw (h, parse_body)
        (record {
          named = record { method = n.method; known = n.known };
          head = head;
          splits = e;
          whole = refl;
          announced = size_ok_lem r body n h;
        })
  | inr h ↦ rw (h, parse_body) tt
]

after_line-All :
    (packet head rest : Text) (r : HttpRequest)
    → Named r
    → packet ≡ head ++ rest
    → All (Sound packet) (after_line packet rest r)
unfolding after_line
after_line-All packet head rest r n e = elim (Option-cases (find blank_line rest)) [
  | inl f ↦ rw (f, after_line) tt
  | inr (k, f) ↦
      let here : packet ≡ (head ++ take k rest) ++ (blank_line ++ drop (k + 4) rest) =
        e
        ∙ ap (λ t. head ++ t) (find_lem blank_line rest k f)
        ∙ sym (append_assoc head (take k rest) (blank_line ++ drop (k + 4) rest)) in
      rw (f, after_line)
        (All->>= (Line r) (Sound packet) (parse_headers (take (k + 2) rest) r) _
          (parse_headers-All (take (k + 2) rest) r)
          λ r' l.
            parse_body-All packet (head ++ take k rest) (drop (k + 4) rest) r' (Named-Line r r' n l)
              here)
]

parse_http_request-All : (packet : Text) → All (Sound packet) (parse_http_request packet)
unfolding parse_http_request
parse_http_request-All packet = elim (Option-cases (find crlf packet)) [
  | inl e ↦ rw (e, parse_http_request) tt
  | inr (n, e) ↦
      rw (e, parse_http_request)
        (All->>= Named (Sound packet) (parse_start_line (take n packet) fresh) _
          (parse_start_line-All (take n packet) fresh)
          λ r h. after_line-All packet (take n packet ++ crlf) (drop (n + 2) packet) r h (
            find_lem crlf packet n e
            ∙ sym (append_assoc (take n packet) crlf (drop (n + 2) packet))))
]

-- A request that parseHttpRequest gives is a GET or a POST of a known version; its body is what stands
-- behind a blank line of the packet, up to the end of it, and has the announced length unless the
-- request is a GET; and its size is that of the whole packet.
pub parse_http_request-Sound :
    (packet : Text) {r : HttpRequest} → parse_http_request packet ≡ ok r → Sound packet r
parse_http_request-Sound packet e = subst (All (Sound packet)) e (parse_http_request-All packet)

-- parseHttpRequest ends, whatever the packet: none of its loops uses up its rounds.
pub parse_http_request-ends : (packet : Text) → parse_http_request packet ≢ hang
parse_http_request-ends packet e =
    absurd (cc (subst (All (Sound packet)) e (parse_http_request-All packet)))
