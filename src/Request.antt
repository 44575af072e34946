-- ===== src/Request.antt =====
-- The parser of HTTP requests (include/http/HttpRequest.h, src/http/HttpRequest.cpp).
pub mod Results
pub mod Record
pub mod Scan
pub mod Settings
pub mod Kept
pub mod Print
pub mod Lines
pub mod Decimal
pub mod RoundTrip
pub mod Accepted
pub mod Refused
pub mod Sound
mod Tests
use simple_tcp.Prelude.{
  ℕ, zero, suc, ◌+◌, ◌-◌, ◌==◌, Bool, true, false, List, [], ◌∷◌, ◌++◌, Option, none, some,
  if◌then◌else◌, ltb, length, take, drop, ℤ, pos, negsuc, to_size,
}
use simple_tcp.Strings.{Text, text, crlf, find, strip}
use simple_tcp.Http.Common.{
  RequestType, get, post, is_get, Version, unknown_version, http1_0, http1_1,
}
use simple_tcp.Http.{Headers, get_property}
use Record.{HttpRequest, fresh}
use Settings.{settings}
use Results.{Parsed, ok, refused, threw, fault, hang, bad_request, partial_packet, ◌>>=◌, looped}

-- `mVersion`, from the request line
unfoldable pub version_of : Text → Version
version_of line = elim (find (text "HTTP/1.1") line) [
  | some n ↦ http1_1
  | none ↦ elim (find (text "HTTP/1.0") line) [ some n ↦ http1_0 | none ↦ unknown_version ]
]

-- `std::string { data + start, end - start }`: a length that wraps round is std::length_error.
abbrev pub sub_string : Text → ℕ → ℕ → Parsed Text
sub_string s start end = if ltb end start then threw else ok (take (end - start) (drop start s))

-- the same as a view: one with a length that wraps round is read outside the text.
abbrev pub view : Text → ℕ → ℕ → Parsed Text
view s start end = if ltb end start then fault else ok (take (end - start) (drop start s))

-- the end of `parser`
unfoldable pub take_url : Text → ℕ → ℕ → HttpRequest → Parsed HttpRequest
take_url line start end r = do
  v ← view line (start + 1) end
  url ← looped (strip v)
  ok (record r { url = url })

-- `parser` where there is a slash, with the positions of `?` and of `HTTP`
unfoldable pub take_target : Text → ℕ → Option ℕ → Option ℕ → HttpRequest → Parsed HttpRequest
take_target line start query none r = fault
take_target line start none (some end) r = take_url line start end r
take_target line start (some query) (some end) r = do
  q ← sub_string line query end
  take_url line start query (record r { query_parameters = q })

-- `parser`: where it gives false the caller throws BadRequest.
unfoldable pub parse_target : Text → HttpRequest → Parsed HttpRequest
parse_target line r = elim (version_of line) [
  | unknown_version ↦ refused bad_request
  | v ↦ elim (find (text "/") line) [
    | none ↦ refused bad_request
    | some start ↦
        take_target line start (find (text "?") line) (find (text "HTTP") line)
          (record r { version = v })
  ]
]

-- `parseStartLine`: where it gives false the caller throws BadRequest.
unfoldable pub parse_start_line : Text → HttpRequest → Parsed HttpRequest
parse_start_line line r = elim (find (text "GET") line) [
  | some n ↦ parse_target line (record r { request_type = get })
  | none ↦ elim (find (text "POST") line) [
    | some n ↦ parse_target line (record r { request_type = post })
    | none ↦ refused bad_request
  ]
]

-- `mHeaders.insert`: a header that is there keeps its value.
unfoldable pub insert_header : Text → Text → Headers → Headers
insert_header k v hs = elim (get_property k hs) [ none ↦ hs ++ ((k, v) ∷ []) | some w ↦ hs ]

-- one line of the loop of `parseHeaders`
unfoldable pub add_line : Text → Headers → Parsed Headers
add_line line hs = elim (find (text ":") line) [
  | none ↦ ok hs
  | some n ↦ do v ← looped (strip (drop (suc n) line)); ok (insert_header (take n line) v hs)
]

-- The loop of `parseHeaders`, with fuel, on what is left of the text at `start_pos`.
unfoldable pub header_loop : ℕ → Text → Headers → Parsed Headers
header_loop zero rest hs = hang
header_loop (suc fuel) rest hs = elim (find crlf rest) [
  | none ↦ ok hs
  | some n ↦ do hs' ← add_line (take n rest) hs; header_loop fuel (drop (n + 2) rest) hs'
]

-- `parseHeaders`: where it gives false the caller throws BadRequest.
unfoldable pub parse_headers : Text → HttpRequest → Parsed HttpRequest
parse_headers [] r = ok r
parse_headers (c ∷ s) r = do
  hs ← header_loop (suc (length (c ∷ s))) (c ∷ s) r.headers
  settings (record r { headers = hs })

-- BLANK_LINE
abbrev pub blank_line : Text
blank_line = crlf ++ crlf

-- the check of the body's size
abbrev pub size_ok : HttpRequest → Text → Bool
size_ok r body =
    let right = length body == to_size r.content_length in
    if is_get r.request_type then true else right

-- the third part of `parseHttpRequest`
unfoldable pub parse_body : Text → Text → HttpRequest → Parsed HttpRequest
parse_body packet body r = elim (size_ok r body) [
  | false ↦ refused partial_packet
  | true ↦ ok (record r { body = body; request_size = pos (length packet) })
]

-- the second part of `parseHttpRequest`, on what is left of the packet behind the request line
unfoldable pub after_line : Text → Text → HttpRequest → Parsed HttpRequest
after_line packet rest r = elim (find blank_line rest) [
  | none ↦ refused bad_request
  | some n ↦ do r' ← parse_headers (take (n + 2) rest) r; parse_body packet (drop (n + 4) rest) r'
]

-- `parseHttpRequest`. An empty request line is refused by `parse_start_line`, as it names no method.
unfoldable pub parse_http_request : Text → Parsed HttpRequest
parse_http_request packet = elim (find crlf packet) [
  | none ↦ refused bad_request
  | some n ↦ do
    r ← parse_start_line (take n packet) fresh
    after_line packet (drop (n + 2) packet) r
]
