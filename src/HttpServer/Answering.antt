-- ===== src/HttpServer/Answering.antt =====
-- How the message callback of src/http/HttpServer.cpp answers a request that has arrived.
use simple_tcp.Prelude.{
  ℕ, ◌+◌, ◌*◌, ◌%◌, ◌^◌, ◌≤◌, ◌≡◌, refl, ap, ◌∙◌, ◌⊎◌, Bool, true, false, List, [], ◌∷◌, ◌++◌,
  Option, none, some, arith, ok, threw, other_exception, length, take_all, drop_all, to_size,
  if◌then◌else◌, bind_ok, then_ok, return,
}
use simple_tcp.Http.{Headers, HttpResponse, fresh, validate_response}
use simple_tcp.Http
use simple_tcp.Http.Generate.{final_headers, generate_response, bad_request_response}
use simple_tcp.Request.Results.{partial_packet, bad_request}
use simple_tcp.Request.Results
use simple_tcp.Request.Record.{HttpRequest}
use simple_tcp.Request.{parse_http_request}
use simple_tcp.Request.Sound.{parse_http_request-Sound}
use simple_tcp.Buffer.Memory.{max_size}
use simple_tcp.Buffer.{TcpBuffer}
use simple_tcp.Buffer.Valid.{IsValid, contents, length-contents}
use simple_tcp.Epoller.{ctl_mod}
use simple_tcp.Channel.{Site, Port, is_writing}
use simple_tcp.Channel.Interest.{write_on, target}
use simple_tcp.Connection.{
  Conn, Callbacks, shutdown_task, high_water_mark, read_all, extract, send, send_in_loop,
  shutdown_connection,
}
use simple_tcp.Connection.Sending.{IsLive, Submitted, send_in_loop_lem}
use simple_tcp.Connection.Reading.{read_all_lem, extract_conn}
use simple_tcp.HttpServer.{answered, Handler, reply, serve, handle_packet, on_message}

-- A connection in its thread that can take these bytes: see `send_in_loop_lem`.
pub record CanSend (site : Site) (cbs : Callbacks) (p : Port) (bytes : List ℕ) (s : Conn)
    : Type 0 where
  pub inside : site.in_thread ≡ true
  pub live : IsLive p s
  pub received_valid : IsValid s.recv
  pub small : length bytes * 2 ≤ max_size
  pub fits :
      (s.send.write_pos + length bytes ≤ length s.send.buffer) ⊎ (s.send.write_pos ≤ length bytes)
  pub quiet :
      (cbs.on_high_water_mark ≡ none) ⊎ (length (contents s.send) + length bytes ≤ high_water_mark)
  pub accepted : site.ctl (ctl_mod p.channel.fd (target write_on p.channel.event)) ≡ true

-- What an answered request leaves: nothing of it in the receive buffer, the response behind what
-- waits to be sent, and a shutdown behind what is queued unless the connection is to be kept.
pub record Replied (keep : Bool) (bytes : List ℕ) (s s' : Conn) : Type 0 where
  pub new_port : Port
  pub live : IsLive new_port s'
  pub taken : contents s'.recv ≡ []
  pub waiting : contents s'.send ≡ contents s.send ++ bytes
  pub writing : is_writing new_port.channel ≡ true
  pub closing : s'.queued ≡ (if keep then s.queued else s.queued ++ (shutdown_task ∷ []))

module _ (site : Site) (cbs : Callbacks) (order : Headers → Headers) where
  sends :
      (bytes : List ℕ) (s : Conn)
      → site.in_thread ≡ true
      → send site cbs bytes s ≡ send_in_loop site cbs bytes s
  unfolding send
  sends bytes s e = ground (arith, e)

  -- The whole packet is taken out of the buffer.
  whole_taken :
      (s : Conn) {request : HttpRequest}
      → IsValid s.recv
      → parse_http_request (contents s.recv) ≡ Results.ok request
      → (b : TcpBuffer) × (extract site cbs (to_size request.request_size) s
          ≡ ok (contents s.recv) (record s { recv = b }))
        × (contents b ≡ [])
        × IsValid b
  whole_taken s {request} v e =
      let sound = parse_http_request-Sound (contents s.recv) e in
      let x = extract_conn site cbs (to_size request.request_size) s v in
      let n : to_size request.request_size ≡ length (contents s.recv) % 2 ^ 64 =
        ap to_size sound.whole in
      let enough : length (contents s.recv) ≤ to_size request.request_size =
        omega (arith, n, length-contents v, v.within, v.small) in
      (
        x.0,
        x.1
            ∙ ap (λ t. ok t (record s { recv = x.0 }))
                (take_all (to_size request.request_size) (contents s.recv) enough),
        x.2.rest ∙ drop_all (to_size request.request_size) (contents s.recv) enough,
        x.2.valid,
      )

  -- what `onMessage` does with a request that is complete
  parsed :
      (handle : Option Handler) (s : Conn) {request : HttpRequest} {b : TcpBuffer}
      → IsValid s.recv
      → parse_http_request (contents s.recv) ≡ Results.ok request
      → extract site cbs (to_size request.request_size) s
        ≡ ok (contents s.recv) (record s { recv = b })
      → on_message site cbs order handle s
        ≡ serve site cbs order handle
            (record request { raw_request = contents s.recv })
            (record s { recv = b })
  unfolding on_message handle_packet
  parsed handle s {request} {b} v e x =
      bind_ok (read_all site cbs) (handle_packet site cbs order handle) s
        (read_all_lem site cbs s v)
      ∙ rw (e, handle_packet)
          (bind_ok (extract site cbs (to_size request.request_size))
            (λ bytes. serve site cbs order handle (record request { raw_request = bytes })) s x)

  replied :
      (response : HttpResponse) (bytes : List ℕ) (s s1 : Conn)
      → site.in_thread ≡ true
      → generate_response order response ≡ Http.ok bytes
      → send_in_loop site cbs bytes s ≡ ok tt s1
      → reply site cbs order response s
        ≡ ok tt (
            if response.keep_alive
            then s1
            else record s1 { queued = s1.queued ++ (shutdown_task ∷ []) })
  unfolding reply shutdown_connection
  replied response bytes s s1 inside g e =
      rw (g, reply)
        (then_ok (send site cbs bytes)
            (if response.keep_alive then return tt else shutdown_connection site cbs) s
            (sends bytes s inside ∙ e)
          ∙ go response.keep_alive)
    where
      go :
          (keep : Bool)
          → (if keep then return tt else shutdown_connection site cbs) s1
            ≡ ok tt (if keep then s1 else record s1 { queued = s1.queued ++ (shutdown_task ∷ []) })
      go true = refl
      go false = refl

  -- onMessage on a connection that can take the response, where a complete request has arrived and the
  -- handler leaves a response that can be generated: the whole packet is taken out of the receive
  -- buffer, the text of the response is put behind what waits to be sent, and the connection is shut
  -- down afterwards exactly where the response does not ask to keep it.
  pub on_message-Replied :
      (handle : Handler) (s : Conn) (p : Port) {request : HttpRequest} (response : HttpResponse)
      (bytes : List ℕ)
      → CanSend site cbs p bytes s
      → parse_http_request (contents s.recv) ≡ Results.ok request
      → handle
          (record request { raw_request = contents s.recv })
          (record fresh { avail_encodings = request.accept_encodings })
        ≡ answered response
      → generate_response order response ≡ Http.ok bytes
      → (s' : Conn) × (on_message site cbs order (some handle) s ≡ ok tt s')
        × Replied response.keep_alive bytes s s'
  unfolding serve
  on_message-Replied handle s p {request} response bytes c e h g =
      let (b, x, empty, valid) = whole_taken s (c.received_valid) e in
      let s1 = record s { recv = b } in
      let live : IsLive p s1 = record {
        up = c.live.up;
        there = c.live.there;
        valid = c.live.valid;
        port = c.live.port;
        watched = c.live.watched;
      } in
      let w =
        send_in_loop_lem site cbs (c.inside) bytes s1 p live (c.small) (c.fits) (c.quiet)
          (c.accepted) in
      let keep = response.keep_alive in
      let s2 = w.0 in
      let s3 = if keep then s2 else record s2 { queued = s2.queued ++ (shutdown_task ∷ []) } in
      (
        s3,
        parsed (some handle) s (c.received_valid) e x
            ∙ rw (h, serve) (replied response bytes s1 s2 (c.inside) g (w.1)),
        after keep s2 w.2 empty,
      )
    where
      after :
          {b : TcpBuffer} (keep : Bool) (s2 : Conn)
          → Submitted bytes (record s { recv = b }) s2
          → contents b ≡ []
          → Replied keep bytes s
              (if keep then s2 else record s2 { queued = s2.queued ++ (shutdown_task ∷ []) })
      after true s2 w empty = record {
        new_port = w.new_port;
        live = w.live;
        taken = ap contents w.same_recv ∙ empty;
        waiting = w.waiting;
        writing = w.writing;
        closing = w.same_queued;
      }
      after false s2 w empty = record {
        new_port = w.new_port;
        live = record {
          up = w.live.up;
          there = w.live.there;
          valid = w.live.valid;
          port = w.live.port;
          watched = w.live.watched;
        };
        taken = ap contents w.same_recv ∙ empty;
        waiting = w.waiting;
        writing = w.writing;
        closing = ap (λ q. q ++ (shutdown_task ∷ [])) w.same_queued;
      }

  -- Where no handler was set, a complete request is taken out of the buffer, and then an exception
  -- leaves onMessage: the response that is made has no version, and nothing is sent.
  pub on_message-unhandled :
      (s : Conn) {request : HttpRequest}
      → IsValid s.recv
      → parse_http_request (contents s.recv) ≡ Results.ok request
      → (b : TcpBuffer) × (on_message site cbs order none s
          ≡ threw other_exception (record s { recv = b }))
        × (contents b ≡ [])
  unfolding serve reply generate_response final_headers validate_response
  on_message-unhandled s {request} v e =
      let (b, x, empty, valid) = whole_taken s v e in (b, parsed none s v e x, empty)

  -- A packet that is refused as a bad request, on a connection that can take the fixed response: that
  -- is put behind what waits to be sent, and the packet stays in the receive buffer, so that the next
  -- bytes that arrive are read behind it and are refused or not together with it.
  pub on_message-bad_request :
      (handle : Option Handler) (s : Conn) (p : Port)
      → CanSend site cbs p bad_request_response s
      → parse_http_request (contents s.recv) ≡ Results.refused bad_request
      → (s' : Conn) × (on_message site cbs order handle s ≡ ok tt s')
        × Submitted bad_request_response s s'
  unfolding on_message handle_packet
  on_message-bad_request handle s p c e =
      let w =
        send_in_loop_lem site cbs (c.inside) bad_request_response s p (c.live) (c.small) (c.fits)
          (c.quiet) (c.accepted) in
      (
        w.0,
        bind_ok (read_all site cbs) (handle_packet site cbs order handle) s
              (read_all_lem site cbs s (c.received_valid))
            ∙ rw (e, handle_packet) (sends bad_request_response s (c.inside) ∙ w.1),
        w.2,
      )
