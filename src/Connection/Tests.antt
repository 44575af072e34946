-- ===== src/Connection/Tests.antt =====
-- Runs of TcpConnection, and its theorems at a small connection.
use simple_tcp.Prelude.{
  ◌≡◌, ◌≢◌, refl, [], ◌∷◌, ◌++◌, true, false, some, none, inl, arith, ok, debug_build,
}
use simple_tcp.Buffer.{received}
use simple_tcp.Buffer.Valid.{contents}
use simple_tcp.Epoller.Mask.{no_events, error_event}
use simple_tcp.Epoller.{normal, ctl_mod, has_channel}
use simple_tcp.Channel.{Site, Port}
use simple_tcp.Channel.Interest.{IsWatched}
use simple_tcp.Connection.{
  Conn, connected, disconnected, Callbacks, handle_read, handle_write, send_in_loop,
  shutdown_in_loop,
}
use simple_tcp.Connection.Handlers.{handle_read_nothing}
use simple_tcp.Connection.Sending.{IsLive, Submitted, send_in_loop_lem}
use simple_tcp.Connection.Closing.{ShutDown, shutdown_in_loop_lem}
use simple_tcp.Connection.Writing.{Written, handle_write_lem}
use simple_tcp.Connection.Stream.{IsAttentive, stream, Run, submit, here, next, Run-stream}

abbrev site : Site
site = record { build = debug_build; ctl = λ c. true; in_thread = true; removable = true }

abbrev silent : Callbacks
silent = record {
  on_message = none;
  on_connection = none;
  on_write_complete = none;
  on_high_water_mark = none;
  on_close = none;
}

-- channel 70 of descriptor 7, which asks to read and to write
abbrev port : Port
port = record {
  channel = record {
    id = 70;
    fd = 7;
    event = record error_event { readable = true; urgent = true; writable = true };
    revent = no_events;
    priority = normal;
  };
  poller = record {
    channel_map = (7, 70) ∷ [];
    channel_set = 70 ∷ [];
    issued =
        ctl_mod 7 (record error_event { readable = true; urgent = true; writable = true }) ∷ [];
  };
}

-- the bytes 1, 2, 3 wait, behind one dead byte
abbrev sample : Conn
sample = record {
  state = connected;
  port = some port;
  open_socket = true;
  recv = record { buffer = 0 ∷ 0 ∷ 0 ∷ 0 ∷ []; read_pos = 0; write_pos = 0 };
  send = record { buffer = 9 ∷ 1 ∷ 2 ∷ 3 ∷ 0 ∷ 0 ∷ []; read_pos = 1; write_pos = 4 };
  sent = 9 ∷ [];
  shut = false;
  queued = [];
}

watched : IsWatched port
unfolding has_channel
watched = record {
  known = refl;
  mask = record error_event { readable = true; urgent = true; writable = true };
  watched = refl;
  agrees = (refl, refl, refl);
  paired = refl;
}

live : IsLive port sample
live = record { up = refl; there = refl; valid = omega arith; port = refl; watched = watched }

not_closed : connected ≢ disconnected
not_closed e = cc

handle_read_nothing_example :
    handle_read site silent (received []) 0 sample ≡ ok tt (record sample { state = disconnected })
handle_read_nothing_example =
    handle_read_nothing site silent refl (received []) 0 sample (inl refl) refl not_closed

send_in_loop_lem_example :
    (s' : Conn) × (send_in_loop site silent (4 ∷ 5 ∷ []) sample ≡ ok tt s')
    × Submitted (4 ∷ 5 ∷ []) sample s'
send_in_loop_lem_example =
    send_in_loop_lem site silent refl (4 ∷ 5 ∷ []) sample port live (omega arith)
      (inl (omega arith)) (inl refl) refl

handle_write_lem_example :
    (s' : Conn) × (handle_write site silent (some 2) 0 sample ≡ ok tt s') × Written 2 sample s'
unfolding contents
handle_write_lem_example =
    handle_write_lem site silent refl 1 0 sample port live refl (omega arith) refl refl

attentive : IsAttentive sample
attentive = record { port = port; live = live; asks = λ h. refl }

-- what is there after two more bytes were sent
abbrev after_send : Conn
after_send = send_in_loop_lem_example.0

sent-Run : Run site silent sample (4 ∷ 5 ∷ []) after_send
sent-Run =
    next here
      (submit (4 ∷ 5 ∷ []) after_send (omega arith) (inl (omega arith)) send_in_loop_lem_example.1)

Run-stream_example : IsAttentive after_send × (stream after_send ≡ stream sample ++ (4 ∷ 5 ∷ []))
Run-stream_example = Run-stream site silent refl (λ c. refl) refl refl attentive sent-Run

shutdown_in_loop_lem_example :
    (s' : Conn) × (shutdown_in_loop site silent (some 2) 0 sample ≡ ok tt s') × ShutDown 2 sample s'
unfolding contents
shutdown_in_loop_lem_example =
    shutdown_in_loop_lem site silent refl 1 0 sample port live (omega arith) refl
