-- ===== src/HttpServer/Waiting.antt =====
-- A request that arrives in parts: the message callback of src/http/HttpServer.cpp leaves a part in
-- the receive buffer, and `handleRead` of src/tcp/TcpConnection.cpp puts the rest behind it.
use simple_tcp.Prelude.{
  ℕ, ◌+◌, ◌*◌, ◌≤◌, ◌≡◌, ◌≢◌, refl, sym, ap, ◌∙◌, List, ◌∷◌, ◌++◌, Option, some, M, ok, length,
  bind_ok,
}
use simple_tcp.Http.{Headers, HttpResponse, fresh}
use simple_tcp.Http
use simple_tcp.Http.Generate.{generate_response}
use simple_tcp.Request.Results.{partial_packet}
use simple_tcp.Request.Results
use simple_tcp.Request.Record.{HttpRequest}
use simple_tcp.Request.{parse_http_request}
use simple_tcp.Buffer.Memory.{max_size}
use simple_tcp.Buffer.{TcpBuffer, received}
use simple_tcp.Buffer.Valid.{IsValid, contents}
use simple_tcp.Channel.{Site, Port}
use simple_tcp.Connection.{
  Conn, disconnected, Callbacks, invoke, catch_network, failed_read, read_all, handle_read,
}
use simple_tcp.Connection.Reading.{read_all_lem}
use simple_tcp.Connection.Handlers.{handle_read_lem}
use simple_tcp.HttpServer.{answered, Handler, handle_packet, on_message}
use simple_tcp.HttpServer.Answering.{CanSend, Replied, on_message-Replied}

-- What a connection needs so that `::read` can deliver these bytes: see `handle_read_lem`.
pub record CanRead (bytes : List ℕ) (s : Conn) : Type 0 where
  pub valid : IsValid s.recv
  pub fits : s.recv.write_pos + length bytes ≤ length s.recv.buffer
  pub room : length s.recv.buffer * 2 ≤ max_size

caught_ok :
    (m : M Conn (Unit {0})) (handler : ℕ → M Conn (Unit {0})) (s : Conn) {s' : Conn}
    → m s ≡ ok tt s'
    → catch_network m handler s ≡ ok tt s'
caught_ok m handler s e = rw (e, catch_network) refl

module _ (site : Site) (cbs : Callbacks) (order : Headers → Headers) where
  -- A part of a packet changes nothing.
  pub on_message-waits :
      (handle : Option Handler) (s : Conn)
      → IsValid s.recv
      → parse_http_request (contents s.recv) ≡ Results.refused partial_packet
      → on_message site cbs order handle s ≡ ok tt s
  unfolding on_message handle_packet
  on_message-waits handle s v e =
      bind_ok (read_all site cbs) (handle_packet site cbs order handle) s
        (read_all_lem site cbs s v)
      ∙ rw (e, handle_packet) refl

  -- A connection with another receive buffer sends as before.
  CanSend-recv :
      (p : Port) (bytes : List ℕ) (s : Conn) (b : TcpBuffer)
      → CanSend site cbs p bytes s
      → IsValid b
      → CanSend site cbs p bytes (record s { recv = b })
  CanSend-recv p bytes s b c v = record {
    inside = c.inside;
    live = record {
      up = c.live.up;
      there = c.live.there;
      valid = c.live.valid;
      port = c.live.port;
      watched = c.live.watched;
    };
    received_valid = v;
    small = c.small;
    fits = c.fits;
    quiet = c.quiet;
    accepted = c.accepted;
  }

  -- On a live connection whose message callback is the server's onMessage, and whose receive buffer
  -- holds what parseHttpRequest refuses as a partial packet, which is a request of which a part of
  -- the body is missing and not one that breaks off before: the callback leaves the connection
  -- exactly as it is; and when bytes arrive that fit behind it and complete it to a request that is
  -- accepted, handleRead ends with the request answered as a whole, where the handler leaves a
  -- response that can be generated and that the connection can take.
  pub handle_read-completes :
      (own : Callbacks) (handle : Handler) (x : ℕ) (xs : List ℕ) (err : ℕ) (s : Conn) (p : Port)
      {request : HttpRequest} (response : HttpResponse) (bytes : List ℕ)
      → own.on_message ≡ some (on_message site cbs order (some handle))
      → CanRead (x ∷ xs) s
      → CanSend site cbs p bytes s
      → parse_http_request (contents s.recv) ≡ Results.refused partial_packet
      → parse_http_request (contents s.recv ++ (x ∷ xs)) ≡ Results.ok request
      → handle
          (record request { raw_request = contents s.recv ++ (x ∷ xs) })
          (record fresh { avail_encodings = request.accept_encodings })
        ≡ answered response
      → generate_response order response ≡ Http.ok bytes
      → (on_message site cbs order (some handle) s ≡ ok tt s)
        × (s' : Conn) × (handle_read site own (received (x ∷ xs)) err s ≡ ok tt s')
        × Replied response.keep_alive bytes s s'
  handle_read-completes own handle x xs err s p {request} response bytes f r c part e h g =
      let still_open : s.state ≢ disconnected = λ d. cc (sym (c.live.up) ∙ d) in
      let (b, step, got) =
        handle_read_lem site own (c.inside) x xs err s (c.live.there) still_open (r.valid) (r.fits)
          (r.room) in
      let (s', answer, replied) =
        on_message-Replied site cbs order handle (record s { recv = b }) p response bytes
          (CanSend-recv p bytes s b c (got.valid)) (ap parse_http_request got.all_there ∙ e)
          (ap
              (λ t.
                handle (record request { raw_request = t })
                  (record fresh { avail_encodings = request.accept_encodings }))
              got.all_there
            ∙ h)
          g in
      (
        on_message-waits (some handle) s (r.valid) part,
        s',
        step
            ∙ ap (λ m. catch_network (invoke m) (failed_read site own) (record s { recv = b })) f
            ∙ caught_ok (on_message site cbs order (some handle)) (failed_read site own)
                (record s { recv = b }) answer,
        record {
          new_port = replied.new_port;
          live = replied.live;
          taken = replied.taken;
          waiting = replied.waiting;
          writing = replied.writing;
          closing = replied.closing;
        },
      )
