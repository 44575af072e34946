-- ===== src/Http/Files.antt =====
-- `setContentByFilePath` of src/http/HttpResponse.cpp. The file is seen through its extension and
-- what reading it comes to; the two compressors give nothing where they throw.
use simple_tcp.Prelude.{List, [], ◌∷◌, Option, none, some, if◌then◌else◌, length, pos}
use simple_tcp.Strings.{Text, text, same_text}
use simple_tcp.Http.Common.{
  ContentType, binary, extensions, EncodingType, no_encoding, gzip, deflate, encoding_text,
}
use simple_tcp.Http.{
  HttpResponse, set_property, Result, ok, error, file_not_found, select_encode_type,
}

-- `Str2ContentType.at`
unfoldable pub type_of_extension : Text → List (Text × ContentType) → Option ContentType
type_of_extension ext [] = none
type_of_extension ext ((e, t) ∷ ts) =
    let rest = type_of_extension ext ts in if same_text e ext then some t else rest

-- the type of a file; `none` where ResponseError is thrown
unfoldable pub type_of_file : Option Text → Option ContentType
type_of_file none = some binary
type_of_file (some ext) = type_of_extension ext extensions

-- the end of `setContentByFilePath`
abbrev finish : ContentType → Text → HttpResponse → HttpResponse
finish t body r = record r { body = body; content_type = t; content_length = pos (length body) }

unfoldable pub encoded : EncodingType → HttpResponse → HttpResponse
unfolding encoding_text
encoded e r = record r {
  headers = set_property (text "Content-Encoding") (encoding_text e) r.headers;
}

abbrev pub compressed :
    EncodingType → ContentType → Option Text → HttpResponse → Result HttpResponse
compressed e t none r = error file_not_found
compressed e t (some body) r = ok (finish t body (encoded e r))

module _ (compress_gzip compress_deflate : Text → Option Text) where
  -- the body, for the selected encoding
  unfoldable pub set_file : EncodingType → ContentType → Text → HttpResponse → Result HttpResponse
  set_file no_encoding t file r = ok (finish t file r)
  set_file gzip t file r = compressed gzip t (compress_gzip file) r
  set_file e t file r = compressed deflate t (compress_deflate file) r

  -- `setContentByFilePath`: every std::runtime_error, ResponseError with them, is caught and turned
  -- into FileNotFound.
  unfoldable pub set_content_by_file_path :
      Option Text → Option Text → HttpResponse → Result HttpResponse
  set_content_by_file_path ext file r = elim (type_of_file ext) [
    | none ↦ error file_not_found
    | some t ↦ elim file [
      | none ↦ error file_not_found
      | some bytes ↦ set_file (select_encode_type ext r) t bytes r
    ]
  ]
