-- ===== src/Http/Tests.antt =====
-- Runs of HttpResponse, and its theorems at a small page.
use simple_tcp.Prelude.{◌≡◌, refl, [], ◌∷◌, Option, some, pos, to_string, arith}
use simple_tcp.Strings.{Text, text}
use simple_tcp.Http.Common.{
  http1_1, not_found, status_ok, gzip, deflate, br, html, content_text, encoding_text,
}
use simple_tcp.Http.{
  Headers, HttpResponse, fresh, bad_version, bad_content, ok, error, validate_response,
  set_property, select_encode_type,
}
use simple_tcp.Http.Generate.{describe, check_range, connect, final_headers}
use simple_tcp.Http.Files.{
  type_of_file, type_of_extension, encoded, set_file, set_content_by_file_path,
}
use simple_tcp.Http.Replies.{Announced, final_headers-Announced}
use simple_tcp.Buffer.Memory.{resized}
use simple_tcp.Compress.{compress_gzip, init_stream, call, end_stream, filled, run}
use simple_tcp.Compress.Copying.{
  copying, deflate_copy-IsDeflate, inflate_copy-IsInflate, copy_buffer-IsCompress,
  copy_buffer-IsUncompress,
}
use simple_tcp.Http.Unpacked.{gzipped, deflated, IsUnpacked, set_content_by_file_path-IsUnpacked}
use simple_tcp.Http.Chosen.{Serves, set_content_by_file_path-Serves}

unset_version_is_refused : validate_response fresh ≡ error bad_version
unfolding validate_response
unset_version_is_refused = refl

unset_length_is_refused :
    validate_response (record fresh { version = http1_1; status = status_ok }) ≡ error bad_content
unfolding validate_response
unset_length_is_refused = refl

not_found_needs_no_length :
    validate_response (record fresh { version = http1_1; status = not_found }) ≡ ok tt
unfolding validate_response
not_found_needs_no_length = refl

first_encoding :
    select_encode_type (some (text ".html")) (record fresh { avail_encodings = br ∷ gzip ∷ [] })
    ≡ br
unfolding select_encode_type
first_encoding = refl

abbrev page : HttpResponse
page = record fresh {
  version = http1_1;
  status = status_ok;
  content_type = html;
  content_length = pos 2;
  headers = (text "Date", text "b") ∷ [];
  body = text "hi";
}

abbrev page_headers : Headers
page_headers =
    (text "Date", text "b")
    ∷ (text "Content-Type", text "text/html")
    ∷ (text "Content-Length", text "2")
    ∷ (text "Connection", text "close")
    ∷ []

page_announces : final_headers page ≡ ok page_headers
unfolding final_headers validate_response check_range describe connect set_property content_text
    to_string
page_announces = refl

final_headers-Announced_example : Announced page (text "Date") page_headers
final_headers-Announced_example = final_headers-Announced page (text "Date") page_announces refl

-- A compressor for the tests, which puts a mark in front.
abbrev marking : Text → Option Text
marking s = some (1 ∷ s)

abbrev gzip_request : HttpResponse
gzip_request = record fresh { avail_encodings = gzip ∷ deflate ∷ [] }

set_content_by_file_path-Serves_example :
    Serves marking marking (some (text ".html")) gzip_request (some (text "hi")) (
      set_content_by_file_path marking marking
        (some (text ".html"))
        (some (text "hi"))
        gzip_request)
set_content_by_file_path-Serves_example =
    set_content_by_file_path-Serves marking marking (some (text ".html")) gzip_request
      (some (text "hi"))

-- An encoding that was asked for without deflate is answered with deflate.
brotli_gets_deflate :
    set_file marking marking br html (text "hi") fresh
    ≡ ok (record fresh {
      headers = (text "Content-Encoding", text "deflate") ∷ [];
      body = 1 ∷ text "hi";
      content_type = html;
      content_length = pos 3;
    })
unfolding set_file encoded encoding_text set_property
brotli_gets_deflate = refl

abbrev page_request : HttpResponse
page_request = record fresh { avail_encodings = gzip ∷ [] }

abbrev page_response : HttpResponse
page_response = record page_request {
  headers = (text "Content-Encoding", text "gzip") ∷ [];
  body = text "hi";
  content_type = html;
  content_length = pos 2;
}

html_is_gzipped :
    set_content_by_file_path
      (gzipped copying 3)
      (deflated copying 3)
      (some (text ".html"))
      (some (text "hi"))
      page_request
    ≡ ok page_response
unfolding set_content_by_file_path type_of_file type_of_extension set_file select_encode_type
    encoded encoding_text set_property compress_gzip run init_stream call end_stream filled resized
html_is_gzipped = refl

set_content_by_file_path-IsUnpacked_example : IsUnpacked copying 3 (text "hi") 2 page_response
set_content_by_file_path-IsUnpacked_example =
    set_content_by_file_path-IsUnpacked copying 3 deflate_copy-IsDeflate inflate_copy-IsInflate
      copy_buffer-IsCompress copy_buffer-IsUncompress tt refl (text "hi") 2 (omega arith)
      (some (text ".html")) page_request page_response (omega arith) html_is_gzipped
