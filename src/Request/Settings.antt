-- ===== src/Request/Settings.antt =====
-- What `parseHeaders` of src/http/HttpRequest.cpp takes from the headers, once they are in the map.
use simple_tcp.Prelude.{
  ◌||◌, Bool, true, false, List, [], ◌∷◌, ◌++◌, Option, none, some, if◌then◌else◌,
}
use simple_tcp.Strings.{Text, text, same_text, strip, split}
use simple_tcp.Http.Common.{
  is_get, ContentType, unknown_content, is_unknown_content, html, json, jpeg, png, gif, plain,
  content_text, EncodingType, no_encoding, gzip, br, deflate, encoding_text,
}
use simple_tcp.Http.{get_property}
use simple_tcp.Request.Results.{Parsed, ok, refused, bad_request, ◌>>=◌, looped}
use simple_tcp.Request.Record.{HttpRequest}
use simple_tcp.Request.Scan.{
  invalid_argument, result_out_of_range, number, Number, from_chars, match_bytes, ranges,
}

-- `to_encoding_type`
unfoldable pub to_encoding_type : Text → EncodingType
unfolding encoding_text
to_encoding_type s =
    if same_text s (encoding_text gzip)
    then gzip
    else if same_text s (encoding_text br)
    then br
    else if same_text s (encoding_text deflate)
    then deflate
    else no_encoding

-- `to_content_type`
unfoldable pub to_content_type : Text → ContentType
unfolding content_text
to_content_type s =
    if same_text s (content_text html)
    then html
    else if same_text s (content_text json)
    then json
    else if same_text s (content_text jpeg)
    then jpeg
    else if same_text s (content_text png)
    then png
    else if same_text s (content_text gif)
    then gif
    else if same_text s (content_text plain)
    then plain
    else unknown_content

abbrev pub or_empty : Option Text → Text → Text
or_empty none old = old
or_empty (some v) old = v

unfoldable pub set_host : HttpRequest → HttpRequest
set_host r = record r { host = or_empty (get_property (text "Host") r.headers) r.host }

abbrev says : Text → Option Text → Bool
says s none = false
says s (some v) = same_text v s

unfoldable pub set_connection : HttpRequest → HttpRequest
set_connection r = record r {
  keep_alive =
      says (text "keep-alive") (get_property (text "Connections") r.headers) || r.keep_alive;
}

unfoldable pub encodings : List Text → List EncodingType → Parsed (List EncodingType)
encodings [] es = ok es
encodings (s ∷ ss) es = do t ← looped (strip s); encodings ss (es ++ (to_encoding_type t ∷ []))

unfoldable pub set_encodings : HttpRequest → Parsed HttpRequest
set_encodings r = elim (get_property (text "Accept-Encoding") r.headers) [
  | none ↦ ok r
  | some v ↦ do
    ss ← looped (split [] v (text ","))
    es ← encodings ss r.accept_encodings
    ok (record r { accept_encodings = es })
]

abbrev pub with_length : HttpRequest → Number → Parsed HttpRequest
with_length r invalid_argument = refused bad_request
with_length r result_out_of_range = ok r
with_length r (number n) = ok (record r { content_length = n })

unfoldable pub set_length : HttpRequest → Parsed HttpRequest
set_length r = elim (get_property (text "Content-Length") r.headers) [
  | none ↦ ok r
  | some v ↦ with_length r (from_chars v)
]

unfoldable pub set_content : HttpRequest → Parsed HttpRequest
set_content r = elim (is_get r.request_type) [
  | true ↦ ok r
  | false ↦ elim (get_property (text "Content-Type") r.headers) [
    | none ↦ ok r
    | some v ↦ elim (is_unknown_content (to_content_type v)) [
      | true ↦ refused bad_request
      | false ↦ set_length (record r { content_type = to_content_type v })
    ]
  ]
]

unfoldable pub set_ranges : HttpRequest → Parsed HttpRequest
set_ranges r = elim (get_property (text "Range") r.headers) [
  | none ↦ ok r
  | some v ↦ elim (match_bytes v) [
    | none ↦ ok r
    | some s ↦ do
      ss ← looped (split [] s (text ","))
      rs ← ranges ss r.ranges
      ok (record r { ranges = rs })
  ]
]

-- the part of `parseHeaders` behind its loop
unfoldable pub settings : HttpRequest → Parsed HttpRequest
settings r = do a ← set_encodings (set_connection (set_host r)); b ← set_content a; set_ranges b
