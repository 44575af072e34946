-- ===== src/Http/Common.antt =====
-- The enumerations of include/http/HttpCommon.h, with their texts.
use simple_tcp.Prelude.{ℕ, Bool, true, false, List, [], ◌∷◌}
use simple_tcp.Strings.{Text, text}

pub data Version : Type 0 where
  unknown_version http1_0 http1_1 http3_0 : Version

abbrev pub is_unknown_version : Version → Bool
is_unknown_version unknown_version = true
is_unknown_version _ = false

unfoldable pub version_text : Version → Text
version_text http1_0 = text "HTTP/1.0"
version_text http1_1 = text "HTTP/1.1"
version_text _ = text "UNKNOWN"

pub data StatusCode : Type 0 where
  unknown_status status_ok partial_content moved_permanently bad_request unauthorized forbidden
        not_found internal_server_error method_not_implemented http_version_no_support :
      StatusCode

abbrev pub is_unknown_status : StatusCode → Bool
is_unknown_status unknown_status = true
is_unknown_status _ = false

-- `to_unsigned`
abbrev pub to_unsigned : StatusCode → ℕ
to_unsigned unknown_status = 0
to_unsigned status_ok = 200
to_unsigned partial_content = 206
to_unsigned moved_permanently = 301
to_unsigned bad_request = 400
to_unsigned unauthorized = 401
to_unsigned forbidden = 403
to_unsigned not_found = 404
to_unsigned internal_server_error = 500
to_unsigned method_not_implemented = 501
to_unsigned http_version_no_support = 505

unfoldable pub status_text : StatusCode → Text
status_text status_ok = text "200 OK"
status_text partial_content = text "206 Partial Content"
status_text moved_permanently = text "301 Moved Permanently"
status_text bad_request = text "400 Bad Request"
status_text forbidden = text "403 Forbindden"
status_text not_found = text "404 Not Found"
status_text internal_server_error = text "500 Internal Server Error"
status_text method_not_implemented = text "501 Method Not Implemented"
status_text _ = text "UNKNOWN"

pub data ContentType : Type 0 where
  unknown_content binary plain html css javascript xml json jpeg png gif icon mp4 mpg : ContentType

abbrev pub is_unknown_content : ContentType → Bool
is_unknown_content unknown_content = true
is_unknown_content _ = false

unfoldable pub content_text : ContentType → Text
content_text binary = text "application/octet-stream"
content_text plain = text "text/plain"
content_text html = text "text/html"
content_text css = text "text/css"
content_text javascript = text "application/x-javascript"
content_text xml = text "application/xml"
content_text json = text "application/json"
content_text jpeg = text "image/jpeg"
content_text png = text "image/png"
content_text gif = text "image/gif"
content_text icon = text "application/x-ico"
content_text mp4 = text "video/mpeg4"
content_text mpg = text "video/mpg"
content_text unknown_content = text "UNKNOWN"

pub data CharSet : Type 0 where
  unknown_char_set utf_8 utf_16 utf_32 : CharSet

abbrev pub is_unknown_char_set : CharSet → Bool
is_unknown_char_set unknown_char_set = true
is_unknown_char_set _ = false

unfoldable pub char_set_text : CharSet → Text
char_set_text utf_8 = text "charset=UTF-8"
char_set_text utf_16 = text "charset=UTF-16"
char_set_text utf_32 = text "charset=UTF-32"
char_set_text unknown_char_set = text "UNKNOWN"

pub data EncodingType : Type 0 where
  no_encoding gzip compress deflate br : EncodingType

unfoldable pub encoding_text : EncodingType → Text
encoding_text br = text "br"
encoding_text gzip = text "gzip"
encoding_text compress = text "compress"
encoding_text deflate = text "deflate"
encoding_text no_encoding = text "No encoding"

-- the extensions of `Str2ContentType`
abbrev pub extensions : List (Text × ContentType)
extensions =
    (text ".html", html)
    ∷ (text ".jpg", jpeg)
    ∷ (text ".png", png)
    ∷ (text ".txt", plain)
    ∷ (text ".js", javascript)
    ∷ (text ".json", json)
    ∷ (text ".xml", xml)
    ∷ (text ".mp4", mp4)
    ∷ (text ".ico", icon)
    ∷ (text ".css", css)
    ∷ (text ".mpeg", mpg)
    ∷ (text ".mpg", mpg)
    ∷ []

pub data RequestType : Type 0 where
  unknown_type get post put delete : RequestType

abbrev pub is_get : RequestType → Bool
is_get get = true
is_get _ = false

unfoldable pub request_type_text : RequestType → Text
request_type_text get = text "GET"
request_type_text post = text "POST"
request_type_text put = text "PUT"
request_type_text delete = text "DELETE"
request_type_text unknown_type = text "UNKNOWN"
