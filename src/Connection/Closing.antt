-- ===== src/Connection/Closing.antt =====
-- The end of a connection: `shutdownConnection` and `destroyConnection` of
-- src/tcp/TcpConnection.cpp.
use simple_tcp.Prelude.{
  ℕ, suc, ◌≤◌, ◌<◌, ◌≡◌, refl, ap, ◌++◌, true, false, some, none, arith, ok, length, ◌==◌, take,
  drop, ne→==,
}
use simple_tcp.Buffer.{TcpBuffer, size, write_to_socket}
use simple_tcp.Buffer.Valid.{contents}
use simple_tcp.Buffer.Queue.{size_lem}
use simple_tcp.Buffer.Advance.{Advanced}
use simple_tcp.Buffer.Socket.{write_to_socket_lem}
use simple_tcp.Epoller.{ctl_mod}
use simple_tcp.Channel.{Site, Port, is_writing, disable_write}
use simple_tcp.Channel.Interest.{Switched, write_off, target, switch_lem}
use simple_tcp.Connection.{Conn, half_closed, Callbacks, on_send, flush}
use simple_tcp.Connection.{shutdown_in_loop}
use simple_tcp.Connection.Sending.{IsLive, channel_returns}
use simple_tcp.Connection.Writing.{flushed, flush_lem}

-- What `shutdownConnection` leaves after the kernel took `n` bytes.
pub record ShutDown (n : ℕ) (s s' : Conn) : Type 0 where
  pub state : s'.state ≡ half_closed
  pub shut : s'.shut ≡ true
  pub out : s'.sent ≡ s.sent ++ take n (contents s.send)
  pub stranded : contents s'.send ≡ drop n (contents s.send)
  pub new_port : Port
  pub port : s'.port ≡ some new_port
  pub deaf : is_writing new_port.channel ≡ false

module _ (site : Site) (cbs : Callbacks) (inside : site.in_thread ≡ true) where
  -- The task of `shutdownConnection`, in the loop's thread, on a live connection with bytes to send, of
  -- which `::write` takes one or more, where the kernel accepts the change of interest: the bytes taken
  -- go out in order, the write side is shut down and the channel no longer asks to write, also where
  -- bytes are left; those stay in the buffer.
  pub shutdown_in_loop_lem :
      (n err : ℕ) (s : Conn) (p : Port)
      → IsLive p s
      → suc n ≤ length (contents s.send)
      → site.ctl (ctl_mod p.channel.fd (target write_off p.channel.event)) ≡ true
      → (s' : Conn) × (shutdown_in_loop site cbs (some (suc n)) err s ≡ ok tt s')
        × ShutDown (suc n) s s'
  unfolding shutdown_in_loop
  shutdown_in_loop_lem n err s p live offered accepted = (
    record (flushed site cbs inside n err s p live offered w.0) {
      state = half_closed;
      port = some d.0;
      shut = true;
    },
    ground (
      arith,
      live.up,
      live.there,
      flush_lem site cbs inside n err s p live offered w.0 w.1,
      channel_returns site cbs inside (disable_write site)
          (record (flushed site cbs inside n err s p live offered w.0) { state = half_closed })
          live.port d.1,
    ),
    record {
      state = refl;
      shut = refl;
      out = refl;
      stranded = w.2.rest;
      new_port = d.0;
      port = refl;
      deaf = ap (λ c. is_writing c) d.2.channel;
    },
  )
    where
      w :
          (b' : TcpBuffer) × (write_to_socket site.build (some (suc n)) err s.send
            ≡ ok (take (suc n) (contents s.send)) b')
          × Advanced (suc n) s.send b'
      w = write_to_socket_lem site.build n err live.valid offered

      d : (q : Port) × (disable_write site p ≡ ok tt q) × Switched write_off p q
      d = switch_lem site inside write_off p live.watched accepted

  -- The task of `shutdownConnection` when bytes wait and `::write` fails: the exception is swallowed
  -- before anything is shut down, so that the connection stays exactly as it was.
  pub shutdown_in_loop_fails :
      (err : ℕ) (s : Conn) (p : Port)
      → IsLive p s
      → 0 < length (contents s.send)
      → shutdown_in_loop site cbs none err s ≡ ok tt s
  unfolding shutdown_in_loop flush on_send write_to_socket
  shutdown_in_loop_fails err s p live waiting =
      let held : (size s.send == 0) ≡ false = ne→== _ _ (omega (arith, size_lem live.valid)) in
      ground (arith, live.up, live.there, held)
