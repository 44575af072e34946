-- ===== src/HttpServer/Tests.antt =====
-- Runs of the message callback, and its theorems at a small connection.
use simple_tcp.Prelude.{
  ℕ, ◌≡◌, refl, [], ◌∷◌, ◌++◌, List, true, false, some, none, inl, arith, ok, debug_build, threw,
  other_exception, length, length-append, length-replicate, replicate, pos, to_string, ◌≤◌,
}
use simple_tcp.Strings.{Text, text, crlf}
use simple_tcp.Http.Common.{
  http1_1, status_ok, html, post, version_text, status_text, content_text, request_type_text,
}
use simple_tcp.Http.{Headers, HttpResponse, fresh, get_property, set_property, validate_response}
use simple_tcp.Http
use simple_tcp.Http.Generate.{
  generate_response, bad_request_response, final_headers, check_range, describe, connect,
  header_lines,
}
use simple_tcp.Request.Results
use simple_tcp.Request.Record.{HttpRequest}
use simple_tcp.Request.{parse_http_request, parse_start_line}
use simple_tcp.Request.Results.{partial_packet}
use simple_tcp.Request.Settings.{to_content_type}
use simple_tcp.Request.Print.{IsUrl}
use simple_tcp.Request.Lines.{AreHeaders, no_headers, more_headers}
use simple_tcp.Request.RoundTrip.{print}
use simple_tcp.Request.Accepted.{Announces, complete_post, Delivered, parse_http_request-Delivered}
use simple_tcp.Request.Refused.{other_length, parse_http_request-partial}
use simple_tcp.Buffer.{TcpBuffer, received}
use simple_tcp.Buffer.Valid.{contents}
use simple_tcp.Epoller.Mask.{no_events, error_event}
use simple_tcp.Epoller.{normal, ctl_mod, has_channel}
use simple_tcp.Channel.{Site, Port}
use simple_tcp.Channel.Interest.{IsWatched}
use simple_tcp.Connection.{Conn, connected, Callbacks, handle_read}
use simple_tcp.Connection.Sending.{Submitted}
use simple_tcp.HttpServer.{Handler, answered, on_message}
use simple_tcp.HttpServer.Answering.{
  CanSend, Replied, on_message-Replied, on_message-unhandled, on_message-bad_request,
}
use simple_tcp.HttpServer.Waiting.{CanRead, handle_read-completes}

abbrev site : Site
site = record { build = debug_build; ctl = λ c. true; in_thread = true; removable = true }

abbrev silent : Callbacks
silent = record {
  on_message = none;
  on_connection = none;
  on_write_complete = none;
  on_high_water_mark = none;
  on_close = none;
}

-- channel 70 of descriptor 7, which asks to read
abbrev port : Port
port = record {
  channel = record {
    id = 70;
    fd = 7;
    event = record error_event { readable = true; urgent = true };
    revent = no_events;
    priority = normal;
  };
  poller = record {
    channel_map = (7, 70) ∷ [];
    channel_set = 70 ∷ [];
    issued = ctl_mod 7 (record error_event { readable = true; urgent = true }) ∷ [];
  };
}

watched : IsWatched port
unfolding has_channel
watched = record {
  known = refl;
  mask = record error_event { readable = true; urgent = true };
  watched = refl;
  agrees = (refl, refl, refl);
  paired = refl;
}

-- A connection that holds these bytes of a request.
abbrev holding : List ℕ → Conn
holding bytes = record {
  state = connected;
  port = some port;
  open_socket = true;
  recv = record { buffer = bytes ++ replicate 200 0; read_pos = 0; write_pos = length bytes };
  send = record { buffer = replicate 400 0; read_pos = 0; write_pos = 0 };
  sent = [];
  shut = false;
  queued = [];
}

abbrev identity : Headers → Headers
identity hs = hs

abbrev page : HttpResponse
page = record fresh {
  version = http1_1;
  status = status_ok;
  content_type = html;
  content_length = pos 2;
  body = text "hi";
}

-- It answers every request with the page.
abbrev handler : Handler
handler request response = answered page

abbrev page_text : Text
page_text =
    text "HTTP/1.1 200 OK"
    ++ (crlf
        ++ (text "Content-Type: text/html"
            ++ (crlf
                ++ (text "Content-Length: 2"
                    ++ (crlf ++ (text "Connection: close" ++ (crlf ++ (crlf ++ text "hi"))))))))

page_is : generate_response identity page ≡ Http.ok page_text
unfolding generate_response final_headers validate_response check_range version_text status_text
    header_lines connect set_property describe content_text to_string
page_is = refl

abbrev form_headers : Headers
form_headers = (text "Content-Length", text "2") ∷ []

-- a POST with its headers, and this body
abbrev form : Text → Text
form = print post [] ((text "Content-Type", text "text/html") ∷ form_headers)

are_headers : AreHeaders [] ((text "Content-Type", text "text/html") ∷ form_headers)
unfolding get_property
are_headers =
    more_headers refl refl refl refl refl (more_headers refl refl refl refl refl no_headers)

is_url : IsUrl []
is_url = record {
  trimmed = refl;
  no_query = refl;
  no_return = refl;
  no_version = refl;
  no_get = refl;
}

announces : Announces ((text "Content-Type", text "text/html") ∷ form_headers) 2
unfolding get_property to_content_type to_string content_text
announces = record {
  type_text = text "text/html";
  typed = refl;
  known = refl;
  sized = refl;
  small = refl;
}

no_range :
    get_property (text "Range") ((text "Content-Type", text "text/html") ∷ form_headers) ≡ none
unfolding get_property
no_range = refl

whole_form :
    (r : HttpRequest) × (parse_http_request (form (text "xy")) ≡ Results.ok r)
    × Delivered post []
        ((text "Content-Type", text "text/html") ∷ form_headers)
        (text "xy")
        (length (form (text "xy")))
        r
whole_form =
    parse_http_request-Delivered post [] (text "Content-Type", text "text/html") form_headers
      (text "xy") is_url are_headers no_range (complete_post announces)

part_of_form : parse_http_request (form (text "x")) ≡ Results.refused partial_packet
part_of_form =
    parse_http_request-partial [] (text "Content-Type", text "text/html") form_headers (text "x")
      is_url are_headers no_range (other_length announces (λ e. absurd (omega arith)))

abbrev nonsense : Text
nonsense = text "nonsense" ++ crlf

nonsense_refused : parse_http_request nonsense ≡ Results.refused Results.bad_request
unfolding parse_http_request parse_start_line
nonsense_refused = refl

can_send :
    (held bytes : List ℕ)
    → length held ≤ 1000
    → length bytes ≤ 400
    → CanSend site silent port bytes (holding held)
can_send held bytes h b = record {
  inside = refl;
  live = record { up = refl; there = refl; valid = omega arith; port = refl; watched = watched };
  received_valid =
      omega (arith, length-append held (replicate 200 0), length-replicate {A = ℕ} 200 0);
  small = omega arith;
  fits = inl (omega (arith, length-replicate {A = ℕ} 400 0));
  quiet = inl refl;
  accepted = refl;
}

on_message-Replied_example :
    (s' : Conn) × (on_message site silent identity (some handler) (holding (form (text "xy")))
      ≡ ok tt s')
    × Replied false page_text (holding (form (text "xy"))) s'
unfolding contents request_type_text
on_message-Replied_example =
    on_message-Replied site silent identity handler (holding (form (text "xy"))) port page page_text
      (can_send (form (text "xy")) page_text (omega arith) (omega arith)) (whole_form.1) refl
      page_is

on_message-unhandled_example :
    (b : TcpBuffer) × (on_message site silent identity none (holding (form (text "xy")))
      ≡ threw other_exception (record (holding (form (text "xy"))) { recv = b }))
    × (contents b ≡ [])
unfolding contents request_type_text
on_message-unhandled_example =
    on_message-unhandled site silent identity (holding (form (text "xy"))) (omega arith)
      (whole_form.1)

on_message-bad_request_example :
    (s' : Conn) × (on_message site silent identity none (holding nonsense) ≡ ok tt s')
    × Submitted bad_request_response (holding nonsense) s'
unfolding contents bad_request_response
on_message-bad_request_example =
    on_message-bad_request site silent identity none (holding nonsense) port
      (can_send nonsense bad_request_response (omega arith) (omega arith)) nonsense_refused

-- Callbacks with the server's onMessage.
abbrev serving : Callbacks
serving = record silent { on_message = some (on_message site silent identity (some handler)) }

can_read : CanRead (text "y") (holding (form (text "x")))
unfolding request_type_text
can_read = record { valid = omega arith; fits = omega arith; room = omega arith }

handle_read-completes_example :
    (on_message site silent identity (some handler) (holding (form (text "x")))
      ≡ ok tt (holding (form (text "x"))))
    × (s' : Conn) × (handle_read site serving (received (text "y")) 0 (holding (form (text "x")))
        ≡ ok tt s')
    × Replied false page_text (holding (form (text "x"))) s'
unfolding contents request_type_text
handle_read-completes_example =
    handle_read-completes site silent identity serving handler b'y' [] 0 (holding (form (text "x")))
      port page page_text refl can_read
      (can_send (form (text "x")) page_text (omega arith) (omega arith)) part_of_form (whole_form.1)
      refl page_is
