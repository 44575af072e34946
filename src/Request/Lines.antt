-- ===== src/Request/Lines.antt =====
-- The lines of headers, as a client writes them, and what the loop of parseHeaders reads in them.
use simple_tcp.Prelude.{
  ℕ, zero, suc, ◌+◌, ◌<◌, ◌≡◌, refl, sym, ap, ◌∙◌, false, [], ◌∷◌, ◌++◌, none, some, arith, length,
  take, drop, member, append_assoc, append-nil, take-append, drop-append_two, length-append, ◌==◌,
  drop_cong,
}
use simple_tcp.Strings.{Text, text, crlf, find}
use simple_tcp.Strings.Find.{find-append, find_beyond, member-append}
use simple_tcp.Strings.Strip.{trim, trim-space, strip_lem}
use simple_tcp.Http.{Headers, get_property}
use simple_tcp.Request.Results.{ok}
use simple_tcp.Request.{insert_header, add_line, header_loop, blank_line}

abbrev pub header_line : Text → Text → Text
header_line k v = k ++ (b':' ∷ 32 ∷ v)

abbrev pub header_text : Headers → Text
header_text [] = []
header_text ((k, v) ∷ hs) = header_line k v ++ (crlf ++ header_text hs)

-- Headers whose lines can be told apart, with keys that are new behind those of `seen`.
pub data AreHeaders : Headers → Headers → Type 0 where
  no_headers : {seen : Headers} → AreHeaders seen []
  more_headers :
      {seen hs : Headers} {c : ℕ} {k v : Text}
      → member b':' (c ∷ k) ≡ false
      → member 13 (c ∷ k) ≡ false
      → member 13 v ≡ false
      → trim v ≡ v
      → get_property (c ∷ k) seen ≡ none
      → AreHeaders (seen ++ ((c ∷ k, v) ∷ [])) hs
      → AreHeaders seen ((c ∷ k, v) ∷ hs)

header_line-unbroken :
    (k v : Text) → member 13 k ≡ false → member 13 v ≡ false → member 13 (header_line k v) ≡ false
header_line-unbroken k v h g = member-append 13 k (b':' ∷ 32 ∷ v) h g

insert_header-new :
    (k v : Text) (hs : Headers)
    → get_property k hs ≡ none
    → insert_header k v hs ≡ hs ++ ((k, v) ∷ [])
unfolding insert_header
insert_header-new k v hs e = rw (e, insert_header) refl

-- A line gives its header to the map.
add_line-header :
    (k v : Text) (hs : Headers)
    → member b':' k ≡ false
    → trim v ≡ v
    → get_property k hs ≡ none
    → add_line (header_line k v) hs ≡ ok (hs ++ ((k, v) ∷ []))
unfolding add_line
add_line-header k v hs h t e =
    let colon : find (text ":") (header_line k v) ≡ some (length k) =
      find-append b':' [] k (32 ∷ v) h in
    let name : take (length k) (header_line k v) ≡ k = take-append k (b':' ∷ 32 ∷ v) in
    let value : drop (suc (length k)) (header_line k v) ≡ 32 ∷ v =
      drop_cong (header_line k v) (suc (length k)) (length k + 1) (omega arith)
      ∙ drop-append_two k (b':' ∷ []) (32 ∷ v) in
    rw (colon, name, value, strip_lem (32 ∷ v), trim-space 32 v refl, t, add_line)
      (ap ok (insert_header-new k v hs e))

-- The loop gives every header to the map, in order.
pub header_loop-headers :
    (hs seen : Headers) (fuel : ℕ)
    → AreHeaders seen hs
    → length hs < fuel
    → header_loop fuel (header_text hs) seen ≡ ok (seen ++ hs)
unfolding header_loop
header_loop-headers hs seen zero a f = absurd (omega arith)
header_loop-headers [] seen (suc fuel) a f = ap ok (sym (append-nil seen))
header_loop-headers (([], v) ∷ hs) seen (suc fuel) a f = elim a [ ]
header_loop-headers ((c ∷ k, v) ∷ hs) seen (suc fuel) (more_headers h p q t e a) f =
    let line = header_line (c ∷ k) v in
    let whole = header_text ((c ∷ k, v) ∷ hs) in
    let found : find crlf whole ≡ some (length line) =
      find-append 13 (10 ∷ []) line (header_text hs) (header_line-unbroken (c ∷ k) v p q) in
    let this : take (length line) whole ≡ line = take-append line (crlf ++ header_text hs) in
    let rest : drop (length line + 2) whole ≡ header_text hs =
      drop-append_two line crlf (header_text hs) in
    rw (found, this, rest, add_line-header (c ∷ k) v seen h t e, header_loop)
      (header_loop-headers hs (seen ++ ((c ∷ k, v) ∷ [])) fuel a (omega arith)
        ∙ ap ok (append_assoc seen ((c ∷ k, v) ∷ []) hs))

-- Where the blank line stands, behind headers that are followed by another line break.
abbrev Ended : Headers → Text → Type 0
Ended hs body =
    (n : ℕ) × (find blank_line (header_text hs ++ (crlf ++ body)) ≡ some n)
    × (n + 2 ≡ length (header_text hs))

find-next_line :
    (x : ℕ) (s : Text) (n : ℕ)
    → (x == 13) ≡ false
    → find blank_line (x ∷ s) ≡ some n
    → find blank_line (crlf ++ (x ∷ s)) ≡ some (n + 2)
find-next_line x s n h e = ground (arith, h, e)

-- One line more in front.
Ended-line :
    (k v : Text) (hs : Headers) (body : Text) (n : ℕ)
    → member 13 (header_line k v) ≡ false
    → find blank_line (crlf ++ (header_text hs ++ (crlf ++ body))) ≡ some n
    → n ≡ length (header_text hs)
    → Ended ((k, v) ∷ hs) body
Ended-line k v hs body n h e f = (
  length (header_line k v) + n,
  ap (find blank_line) (append_assoc (header_line k v) (crlf ++ header_text hs) (crlf ++ body))
      ∙ find_beyond 13 (10 ∷ crlf) (header_line k v) (crlf ++ (header_text hs ++ (crlf ++ body))) n
          h e,
  omega (arith, f, length-append (header_line k v) (crlf ++ header_text hs)),
)

first_byte :
    {seen hs : Headers} {d : ℕ} {j v : Text} → AreHeaders seen ((d ∷ j, v) ∷ hs) → (d == 13) ≡ false
first_byte {d = d} (more_headers h p q t e a) = ground (arith, p)

pub AreHeaders-Ended :
    (k v : Text) (hs seen : Headers) (body : Text)
    → AreHeaders seen ((k, v) ∷ hs)
    → Ended ((k, v) ∷ hs) body
AreHeaders-Ended [] v hs seen body a = elim a [ ]
AreHeaders-Ended (c ∷ k) v [] seen body (more_headers h p q t e a) =
    Ended-line (c ∷ k) v [] body 0 (header_line-unbroken (c ∷ k) v p q) refl refl
AreHeaders-Ended (c ∷ k) v (([], v') ∷ hs) seen body (more_headers h p q t e a) = elim a [ ]
AreHeaders-Ended (c ∷ k) v ((d ∷ j, v') ∷ hs) seen body (more_headers h p q t e a) =
    let later = AreHeaders-Ended (d ∷ j) v' hs (seen ++ ((c ∷ k, v) ∷ [])) body a in
    Ended-line (c ∷ k) v ((d ∷ j, v') ∷ hs) body (later.0 + 2) (header_line-unbroken (c ∷ k) v p q)
      (find-next_line d ((header_line j v' ++ (crlf ++ header_text hs)) ++ (crlf ++ body)) later.0
        (first_byte a) later.1)
      later.2
