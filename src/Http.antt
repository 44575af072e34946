-- ===== src/Http.antt =====
-- The responses of an HTTP server (include/http/HttpCommon.h, include/http/HttpResponse.h,
-- src/http/HttpResponse.cpp). A text is the list of its bytes.
pub mod Common
pub mod Headers
pub mod Generate
pub mod Values
pub mod Replies
pub mod Files
pub mod Served
pub mod Choice
pub mod Chosen
pub mod Unpacked
mod Tests
use simple_tcp.Prelude.{
  ℕ, suc, ◌+◌, ◌*◌, ◌-◌, Bool, true, false, not, ◌&&◌, ◌||◌, ◌==◌, ltb, List, [], ◌∷◌, ◌++◌, Option,
  none, some, if◌then◌else◌, ℤ, pos, negsuc, is_negative,
}
use simple_tcp.Strings.{Text, text, same_text, c_string}
use Common.{
  Version, unknown_version, StatusCode, unknown_status, ContentType, unknown_content, CharSet,
  unknown_char_set, EncodingType, no_encoding, version_text, status_text, to_unsigned, content_text,
  char_set_text, is_unknown_version, is_unknown_status, is_unknown_content, is_unknown_char_set,
}

-- `mHeaders`
abbrev pub Headers : Type 0
Headers = List (Text × Text)

-- `getProperty`, for a key that holds no NUL
unfoldable pub get_property : Text → Headers → Option Text
get_property k [] = none
get_property k ((j, v) ∷ hs) = if same_text j k then some v else get_property k hs

-- A value that is there is replaced.
abbrev pub put_header : Text → Text → Headers → Headers
put_header k v [] = (k, v) ∷ []
put_header k v ((j, w) ∷ hs) =
    let rest = put_header k v hs in if same_text j k then (j, v) ∷ hs else (j, w) ∷ rest

-- `setProperty`: both views are read by `data()`, as C strings. They end at a NUL, as in all calls of
-- the library.
unfoldable pub set_property : Text → Text → Headers → Headers
set_property k v hs = put_header (c_string k) (c_string v) hs

pub record Range : Type 0 where
  pub start : ℤ
  pub end : ℤ
  pub total : ℤ

pub record HttpResponse : Type 0 where
  pub status : StatusCode
  pub version : Version
  pub content_type : ContentType
  pub content_length : ℤ
  pub content_range : Range
  pub keep_alive : Bool
  pub char_set : CharSet
  pub avail_encodings : List EncodingType
  pub headers : Headers
  pub body : Text

-- The constructor.
abbrev pub fresh : HttpResponse
fresh = record {
  status = unknown_status;
  version = unknown_version;
  content_type = unknown_content;
  content_length = negsuc 0;
  content_range = record { start = pos 0; end = pos 0; total = pos 0 };
  keep_alive = false;
  char_set = unknown_char_set;
  avail_encodings = [];
  headers = [];
  body = [];
}

-- `ResponseErrorType`
pub data ResponseError : Type 0 where
  bad_response bad_content_type bad_content bad_version bad_status file_not_found : ResponseError

-- `undefined`: an overflow of int64_t, which C++ leaves undefined.
pub data Result (A : Type 0) : Type 0 where
  ok : A → Result A
  error : ResponseError → Result A
  undefined : Result A

-- `validateResponse`
unfoldable pub validate_response : HttpResponse → Result (Unit {0})
validate_response r =
    if is_unknown_version r.version
    then error bad_version
    else if is_unknown_status r.status
    then error bad_status
    else if ltb (to_unsigned r.status) 300 && is_negative r.content_length
    then error bad_content
    else ok tt

-- `selectEncodeType`, for a file with the extension, if it has one
unfoldable pub select_encode_type : Option Text → HttpResponse → EncodingType
select_encode_type none r = no_encoding
select_encode_type (some ext) r = elim r.avail_encodings [
  | [] ↦ no_encoding
  | e ∷ es ↦
      if same_text ext (text ".html")
        || (same_text ext (text ".xml")
            || (same_text ext (text ".js") || same_text ext (text ".json")))
      then e
      else no_encoding
]
