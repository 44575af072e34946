-- ===== src/Http/Generate.antt =====
-- `generateResponse` of src/http/HttpResponse.cpp, and the fixed responses of
-- include/http/HttpResponse.h.
use simple_tcp.Prelude.{not, [], ◌∷◌, ◌++◌, if◌then◌else◌, pos, ◌-ℤ◌, ◌==ℤ◌, fits_int64, to_string}
use simple_tcp.Strings.{Text, text, crlf}
use simple_tcp.Http.Common.{
  version_text, status_text, content_text, char_set_text, is_unknown_content, is_unknown_char_set,
}
use simple_tcp.Http.{
  Headers, set_property, HttpResponse, Range, Result, ok, error, undefined, bad_content,
  validate_response,
}

abbrev pub status_line : HttpResponse → Text
status_line r = version_text r.version ++ (text " " ++ status_text r.status)

abbrev pub type_value : HttpResponse → Text
type_value r =
    if is_unknown_char_set r.char_set
    then content_text r.content_type
    else content_text r.content_type ++ (text "; " ++ char_set_text r.char_set)

abbrev pub range_value : Range → Text
range_value g =
    text "bytes "
    ++ (to_string g.start ++ (text "-" ++ (to_string g.end ++ (text "/" ++ to_string g.total))))

-- the headers for the type and the length of the content
unfoldable pub describe : HttpResponse → Headers
describe r =
    let named =
      if is_unknown_content r.content_type
      then r.headers
      else set_property (text "Content-Type") (type_value r) r.headers in
    set_property (text "Content-Length") (to_string r.content_length) named

-- the header for the range, where there is one
unfoldable pub check_range : HttpResponse → Headers → Result Headers
check_range r hs =
    let width = r.content_range.end -ℤ r.content_range.start in
    if r.content_range.total ==ℤ pos 0
    then ok hs
    else if not (fits_int64 width)
    then undefined
    else if width ==ℤ r.content_length
    then ok (set_property (text "Content-Range") (range_value r.content_range) hs)
    else error bad_content

unfoldable pub connect : HttpResponse → Headers → Headers
connect r hs =
    set_property (text "Connection") (if r.keep_alive then text "keep-alive" else text "close") hs

-- the loop that writes the headers
unfoldable pub header_lines : Headers → Text
header_lines [] = []
header_lines ((k, v) ∷ hs) = k ++ (text ": " ++ (v ++ (crlf ++ header_lines hs)))

-- `mHeaders` when the loop starts
unfoldable pub final_headers : HttpResponse → Result Headers
final_headers r = elim (validate_response r) [
  | error e ↦ error e
  | undefined ↦ undefined
  | ok u ↦ elim (check_range r (describe r)) [
    | error e ↦ error e
    | undefined ↦ undefined
    | ok hs ↦ ok (connect r hs)
  ]
]

-- `generateResponse`: `order` is the order in which an unordered map is traversed.
unfoldable pub generate_response : (Headers → Headers) → HttpResponse → Result Text
generate_response order r = elim (final_headers r) [
  | error e ↦ error e
  | undefined ↦ undefined
  | ok hs ↦ ok (status_line r ++ (crlf ++ (header_lines (order hs) ++ (crlf ++ r.body))))
]

-- HTTP_NOT_FOUND_RESPONSE
unfoldable pub not_found_response : Text
not_found_response =
    text "HTTP/1.1 404 Not Found"
    ++ (crlf
        ++ (text "Content-Type: text/html"
            ++ (crlf
                ++ (text "<HTML><TITLE>Not Found</TITLE>"
                    ++ (crlf
                        ++ (text "<BODY><P>The server could not fulfill"
                            ++ (crlf
                                ++ (text "your request because the resource specified"
                                    ++ (crlf
                                        ++ (text "is unavailable or nonexistent."
                                            ++ (crlf ++ (text "</BODY></HTML>" ++ crlf))))))))))))

-- HTTP_BAD_REQUEST_RESPONSE
unfoldable pub bad_request_response : Text
bad_request_response =
    text "HTTP/1.1 400 Bad Request"
    ++ (crlf
        ++ (text "Content-Type: text/html"
            ++ (crlf
                ++ (text
                      "<P>Your browser sent a bad request, such as a POST without a Content-Length."
                    ++ crlf))))

-- HTTP_UNSUPPORT_METHOD_RESPONSE
unfoldable pub unsupport_method_response : Text
unsupport_method_response =
    text "HTTP/1.1 501 Method Not Implemented"
    ++ (crlf
        ++ (text "Content-Type: text/html"
            ++ (crlf ++ (text "<P>Your browser sent a request with unsupport method." ++ crlf))))
