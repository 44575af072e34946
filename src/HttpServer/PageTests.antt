-- ===== src/HttpServer/PageTests.antt =====
-- The framing of a small response.
use simple_tcp.Prelude.{◌≡◌, refl, [], ◌∷◌, ◌++◌, pos, to_string}
use simple_tcp.Strings.{Text, text, crlf}
use simple_tcp.Http.Common.{http1_1, status_ok, html, version_text, status_text, content_text}
use simple_tcp.Http.{Headers, HttpResponse, fresh, get_property, set_property, validate_response}
use simple_tcp.Http
use simple_tcp.Http.Generate.{
  status_line, generate_response, final_headers, check_range, describe, connect, header_lines,
}
use simple_tcp.Request.Lines.{AreHeaders, no_headers, more_headers}
use simple_tcp.HttpServer.Framing.{Framed, generate_response-Framed}

abbrev page : HttpResponse
page = record fresh {
  version = http1_1;
  status = status_ok;
  content_type = html;
  content_length = pos 2;
  body = text "hi";
}

abbrev identity : Headers → Headers
identity hs = hs

abbrev later_headers : Headers
later_headers = (text "Content-Length", text "2") ∷ (text "Connection", text "close") ∷ []

page_headers :
    final_headers page ≡ Http.ok ((text "Content-Type", text "text/html") ∷ later_headers)
unfolding final_headers validate_response check_range connect set_property describe content_text
    to_string
page_headers = refl

are_headers : AreHeaders [] ((text "Content-Type", text "text/html") ∷ later_headers)
unfolding get_property
are_headers =
    more_headers refl refl refl refl refl
      (more_headers refl refl refl refl refl (more_headers refl refl refl refl refl no_headers))

abbrev page_text : Text
page_text =
    text "HTTP/1.1 200 OK"
    ++ (crlf
        ++ (text "Content-Type: text/html"
            ++ (crlf
                ++ (text "Content-Length: 2"
                    ++ (crlf ++ (text "Connection: close" ++ (crlf ++ (crlf ++ text "hi"))))))))

page_is : generate_response identity page ≡ Http.ok page_text
unfolding generate_response final_headers validate_response check_range version_text status_text
    header_lines connect set_property describe content_text to_string
page_is = refl

generate_response-Framed_example :
    Framed
      (status_line page)
      ((text "Content-Type", text "text/html") ∷ later_headers)
      (text "hi")
      page_text
generate_response-Framed_example =
    generate_response-Framed identity page (text "Content-Type", text "text/html") later_headers
      page_headers refl are_headers page_is
