-- ===== src/Connection/Sending.antt =====
-- `sendInLoop` and `handleWrite` of src/tcp/TcpConnection.cpp.
use simple_tcp.Prelude.{
  ℕ, ◌+◌, ◌*◌, ◌≤◌, ◌≡◌, refl, ap, ◌∙◌, List, ◌++◌, true, some, none, arith, ok, M, length, ◌⊎◌,
  inl, inr, length-append,
}
use simple_tcp.Buffer.Memory.{max_size}
use simple_tcp.Buffer.{TcpBuffer, size, append_to_buffer}
use simple_tcp.Buffer.Valid.{IsValid, contents}
use simple_tcp.Buffer.Queue.{size_lem}
use simple_tcp.Buffer.Append.{Appended, append_lem}
use simple_tcp.Epoller.{ctl_mod}
use simple_tcp.Channel.{Site, Port, is_writing, enable_write}
use simple_tcp.Channel.Interest.{IsWatched, Switched, write_on, target, switch_lem}
use simple_tcp.Connection.{
  Conn, connected, Callbacks, high_water_mark, on_send, on_channel, want_write, after_append,
  send_in_loop, append_rounds,
}

-- A connection that can send: connected, with a valid send buffer and a watched channel.
pub record IsLive (p : Port) (s : Conn) : Type 0 where
  pub up : s.state ≡ connected
  pub there : s.open_socket ≡ true
  pub valid : IsValid s.send
  pub port : s.port ≡ some p
  pub watched : IsWatched p

-- What `sendInLoop` leaves: the bytes behind those that wait, and interest in writing.
pub record Submitted (bytes : List ℕ) (s s' : Conn) : Type 0 where
  pub new_port : Port
  pub live : IsLive new_port s'
  pub waiting : contents s'.send ≡ contents s.send ++ bytes
  pub writing : is_writing new_port.channel ≡ true
  pub same_sent : s'.sent ≡ s.sent
  pub same_recv : s'.recv ≡ s.recv
  pub same_queued : s'.queued ≡ s.queued

module _ (site : Site) (cbs : Callbacks) (inside : site.in_thread ≡ true) where
  appended :
      (bytes : List ℕ) (s : Conn) {b : TcpBuffer}
      → s.state ≡ connected
      → append_to_buffer append_rounds bytes s.send ≡ ok tt b
      → send_in_loop site cbs bytes s ≡ after_append site cbs (record s { send = b })
  unfolding send_in_loop on_send
  appended bytes s up e = ground (arith, e)

  -- the high-water mark is not passed, or nobody asked to hear of it
  quiet :
      (s : Conn)
      → (cbs.on_high_water_mark ≡ none) ⊎ (size s.send ≤ high_water_mark)
      → after_append site cbs s ≡ want_write site cbs s
  unfolding after_append
  quiet s q = ground arith

  pub channel_returns :
      (m : M Port (Unit {0})) (s : Conn) {p q : Port}
      → s.port ≡ some p
      → m p ≡ ok tt q
      → on_channel m s ≡ ok tt (record s { port = some q })
  unfolding on_channel
  channel_returns m s e f = ground (arith, e, f)

  want_write_lem :
      (s : Conn) (p : Port)
      → s.port ≡ some p
      → IsWatched p
      → site.ctl (ctl_mod p.channel.fd (target write_on p.channel.event)) ≡ true
      → (q : Port) × (want_write site cbs s ≡ ok tt (record s { port = some q }))
        × Switched write_on p q
  unfolding want_write enable_write
  want_write_lem s p there v accepted =
      let w = switch_lem site inside write_on p v accepted in
      (w.0, ground (arith, there, w.1, channel_returns (enable_write site) s there w.1), w.2)

  -- `sendInLoop` on a live connection, when the kernel accepts the change of interest, the bytes fit
  -- or the write position is no larger than their number, and the high-water mark is not passed or
  -- not asked for: the bytes are put behind those that wait, and the channel asks to write.
  pub send_in_loop_lem :
      (bytes : List ℕ) (s : Conn) (p : Port)
      → IsLive p s
      → length bytes * 2 ≤ max_size
      → (s.send.write_pos + length bytes ≤ length s.send.buffer) ⊎ (s.send.write_pos ≤ length bytes)
      → (cbs.on_high_water_mark ≡ none)
        ⊎ (length (contents s.send) + length bytes ≤ high_water_mark)
      → site.ctl (ctl_mod p.channel.fd (target write_on p.channel.event)) ≡ true
      → (s' : Conn) × (send_in_loop site cbs bytes s ≡ ok tt s') × Submitted bytes s s'
  send_in_loop_lem bytes s p live small fits quiet_mark accepted =
      let a = append_lem 0 bytes live.valid small fits in
      let s1 = record s { send = a.0 } in
      let w = want_write_lem s1 p live.port live.watched accepted in
      (
        record s1 { port = some w.0 },
        appended bytes s live.up a.1 ∙ quiet s1 (still_quiet a.0 a.2 quiet_mark) ∙ w.1,
        record {
          new_port = w.0;
          live = record {
            up = live.up;
            there = live.there;
            valid = a.2.valid;
            port = refl;
            watched = w.2.watched;
          };
          waiting = a.2.all_there;
          writing = ap (λ c. is_writing c) w.2.channel;
          same_sent = refl;
          same_recv = refl;
          same_queued = refl;
        },
      )
    where
      still_quiet :
          (b : TcpBuffer)
          → Appended bytes s.send b
          → (cbs.on_high_water_mark ≡ none)
            ⊎ (length (contents s.send) + length bytes ≤ high_water_mark)
          → (cbs.on_high_water_mark ≡ none) ⊎ (size b ≤ high_water_mark)
      still_quiet b a (inl q) = inl q
      still_quiet b a (inr q) = inr (
          omega
            (arith, size_lem a.valid, ap length a.all_there, length-append (contents s.send) bytes))
