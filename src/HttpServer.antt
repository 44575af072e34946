-- ===== src/HttpServer.antt =====
-- class HttpServer (include/http/HttpServer.h, src/http/HttpServer.cpp): the message callback that
-- it gives to its connections. The user's handler of requests comes from outside.
pub mod Answering
pub mod Waiting
pub mod Framing
mod Tests
mod PageTests
use simple_tcp.Prelude.{
  Bool, true, false, List, Option, none, some, M, ok, threw, fault, hang, ◌>>=◌, ◌>>◌, return,
  throw, other_exception, to_size, if◌then◌else◌,
}
use simple_tcp.Strings.{Text}
use simple_tcp.Http.Common.{bad_request}
use simple_tcp.Http.{Headers, HttpResponse, fresh, Result}
use simple_tcp.Http
use simple_tcp.Http.Generate.{generate_response, bad_request_response}
use simple_tcp.Request.Results.{partial_packet, RequestErrorType}
use simple_tcp.Request.Results
use simple_tcp.Request.Record.{HttpRequest}
use simple_tcp.Request.{parse_http_request}
use simple_tcp.Channel.{Site}
use simple_tcp.Connection.{Conn, Callbacks, read_all, extract, send, shutdown_connection}

-- What the user's handler comes to: the response that it leaves, or an exception, a RequestError or
-- another.
pub data Answer : Type 0 where
  answered : HttpResponse → Answer
  raised_request_error : RequestErrorType → Answer
  raised : Answer

-- `RequestHandle`
abbrev pub Handler : Type 0
Handler = HttpRequest → HttpResponse → Answer

module _ (site : Site) (cbs : Callbacks) (order : Headers → Headers) where
  -- the end of the `try` block: a ResponseError is caught and thrown again.
  unfoldable pub reply : HttpResponse → M Conn (Unit {0})
  reply response s = elim (generate_response order response) [
    | Http.ok bytes ↦
        (send site cbs bytes
            >> (if response.keep_alive then return tt else shutdown_connection site cbs))
          s
    | Http.error e ↦ threw other_exception s
    | Http.undefined ↦ fault
  ]

  -- the response where there is no handler
  abbrev pub no_handler : HttpResponse
  no_handler = record fresh { status = bad_request; keep_alive = false }

  -- the handler of RequestError
  abbrev pub failed_request : RequestErrorType → M Conn (Unit {0})
  failed_request partial_packet s = ok tt s
  failed_request e s = send site cbs bad_request_response s

  abbrev pub conclude : Answer → M Conn (Unit {0})
  conclude (answered response) s = reply response s
  conclude (raised_request_error e) s = failed_request e s
  conclude raised s = threw other_exception s

  -- the handling of a request
  unfoldable pub serve : Option Handler → HttpRequest → M Conn (Unit {0})
  serve none request s = reply no_handler s
  serve (some handle) request s =
      conclude (handle request (record fresh { avail_encodings = request.accept_encodings })) s

  -- the `try` of `onMessage`, on the packet that was read
  unfoldable pub handle_packet : Option Handler → Text → M Conn (Unit {0})
  handle_packet handle packet s = elim (parse_http_request packet) [
    | Results.ok request ↦
        (extract site cbs (to_size request.request_size) >>= λ bytes.
        serve handle (record request { raw_request = bytes }))
          s
    | Results.refused e ↦ failed_request e s
    | Results.threw ↦ threw other_exception s
    | Results.fault ↦ fault
    | Results.hang ↦ hang
  ]

  -- `onMessage`
  unfoldable pub on_message : Option Handler → M Conn (Unit {0})
  on_message handle s = (read_all site cbs >>= handle_packet handle) s
