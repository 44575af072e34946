-- ===== src/Connection/Writing.antt =====
-- `handleWrite` of src/tcp/TcpConnection.cpp.
use simple_tcp.Prelude.{
  ℕ_discrete, ℕ, suc, ◌-◌, ◌≤◌, ◌≡◌, ◌≢◌, refl, sym, ap, ◌∙◌, ◌++◌, true, false, not, some, none,
  arith, ok, length, ◌==◌, take, drop, length-drop, ne→==,
}
use simple_tcp.Buffer.{TcpBuffer, size, write_to_socket}
use simple_tcp.Buffer.Valid.{contents}
use simple_tcp.Buffer.Queue.{size_lem}
use simple_tcp.Buffer.Advance.{Advanced}
use simple_tcp.Buffer.Socket.{write_to_socket_lem}
use simple_tcp.Epoller.{ctl_mod}
use simple_tcp.Channel.{Site, Port, is_writing, disable_write}
use simple_tcp.Channel.Interest.{Switched, write_off, target, switch_lem}
use simple_tcp.Connection.{Conn, Callbacks, on_send, on_channel, flush, after_write, handle_write}
use simple_tcp.Connection.Sending.{IsLive, channel_returns}

-- What `handleWrite` leaves after the kernel took `n` bytes.
pub record Written (n : ℕ) (s s' : Conn) : Type 0 where
  pub new_port : Port
  pub live : IsLive new_port s'
  pub waiting : contents s'.send ≡ drop n (contents s.send)
  pub out : s'.sent ≡ s.sent ++ take n (contents s.send)
  pub writing : is_writing new_port.channel ≡ not (length (contents s'.send) == 0)

module _ (site : Site) (cbs : Callbacks) (inside : site.in_thread ≡ true) where
  module _ (n err : ℕ) (s : Conn) (p : Port) (live : IsLive p s)
      (offered : suc n ≤ length (contents s.send)) where
    abbrev pub flushed : TcpBuffer → Conn
    flushed b = record s { send = b; sent = s.sent ++ take (suc n) (contents s.send) }

    pub flush_lem :
        (b : TcpBuffer)
        → write_to_socket site.build (some (suc n)) err s.send
          ≡ ok (take (suc n) (contents s.send)) b
        → flush site cbs (some (suc n)) err s ≡ ok tt (flushed b)
    unfolding flush on_send
    flush_lem b e =
        let held : (size s.send == 0) ≡ false = ne→== _ _ (omega (arith, size_lem live.valid)) in
        ground (arith, held, live.there, e)

    handle_write_step :
        (b : TcpBuffer)
        → write_to_socket site.build (some (suc n)) err s.send
          ≡ ok (take (suc n) (contents s.send)) b
        → handle_write site cbs (some (suc n)) err s ≡ after_write site cbs (flushed b)
    unfolding handle_write
    handle_write_step b e = ground (arith, flush_lem b e, live.up)

  after_write_more : (s : Conn) → size s.send ≢ 0 → after_write site cbs s ≡ ok tt s
  unfolding after_write
  after_write_more s h = ground (arith, ne→== (size s.send) 0 h)

  after_write_done :
      (s : Conn)
      → size s.send ≡ 0
      → cbs.on_write_complete ≡ none
      → after_write site cbs s ≡ on_channel (disable_write site) s
  unfolding after_write
  after_write_done s h c = ground (arith, h, c)

  -- `handleWrite` on a live connection that asks to write, when `::write` takes one byte or more of
  -- those offered and nobody asked to hear of the end: the bytes taken are the first that wait, in
  -- order; exactly these leave; and the channel goes on asking to write exactly while bytes wait.
  pub handle_write_lem :
      (n err : ℕ) (s : Conn) (p : Port)
      → IsLive p s
      → is_writing p.channel ≡ true
      → suc n ≤ length (contents s.send)
      → cbs.on_write_complete ≡ none
      → site.ctl (ctl_mod p.channel.fd (target write_off p.channel.event)) ≡ true
      → (s' : Conn) × (handle_write site cbs (some (suc n)) err s ≡ ok tt s') × Written (suc n) s s'
  handle_write_lem n err s p live asks offered nobody accepted =
      elim (ℕ_discrete (suc n) (length (contents s.send))) [
        | no more ↦ (
          flushed n err s p live offered w.0,
          step ∙ after_write_more _ (omega (arith, left)),
          record {
            new_port = p;
            live = record {
              up = live.up;
              there = live.there;
              valid = w.2.valid;
              port = live.port;
              watched = live.watched;
            };
            waiting = w.2.rest;
            out = refl;
            writing = asks ∙ ap not (sym (ne→== _ 0 (omega (arith, held))));
          },
        )
        | yes all ↦ (
          record (flushed n err s p live offered w.0) { port = some d.0 },
          step
              ∙ after_write_done _ (omega (arith, left)) nobody
              ∙ channel_returns site cbs inside (disable_write site) _ live.port d.1,
          record {
            new_port = d.0;
            live = record {
              up = live.up;
              there = live.there;
              valid = w.2.valid;
              port = refl;
              watched = d.2.watched;
            };
            waiting = w.2.rest;
            out = refl;
            writing =
                ap (λ c. is_writing c) d.2.channel ∙ ap (λ (k : ℕ). not (k == 0)) (sym (gone all));
          },
        )
      ]
    where
      w :
          (b' : TcpBuffer) × (write_to_socket site.build (some (suc n)) err s.send
            ≡ ok (take (suc n) (contents s.send)) b')
          × Advanced (suc n) s.send b'
      w = write_to_socket_lem site.build n err live.valid offered

      step :
          handle_write site cbs (some (suc n)) err s
          ≡ after_write site cbs (flushed n err s p live offered w.0)
      step = handle_write_step n err s p live offered w.0 w.1

      left : size w.0 ≡ length (contents s.send) - suc n
      left =
          omega
            (arith, size_lem w.2.valid, ap length w.2.rest, length-drop (suc n) (contents s.send))

      held : length (contents w.0) ≡ length (contents s.send) - suc n
      held = omega (arith, left, size_lem w.2.valid)

      gone : suc n ≡ length (contents s.send) → length (contents w.0) ≡ 0
      gone all = omega (arith, held)

      d : (q : Port) × (disable_write site p ≡ ok tt q) × Switched write_off p q
      d = switch_lem site inside write_off p live.watched accepted
