-- ===== src/Channel/Tests.antt =====
-- Runs of Channel, and its theorems at small channels.
use simple_tcp.Prelude.{
  ◌≡◌, refl, List, [], ◌∷◌, ◌++◌, true, false, debug_build, M, ok, threw, abort, system_exception,
}
use simple_tcp.Epoller.Mask.{Events, no_events, error_event}
use simple_tcp.Epoller.{Epoller, normal, ctl_add, has_channel, control, add_channel}
use simple_tcp.Channel.{
  Site, Port, Callback, read_cb, handle_event, create, update, on_poller, enable_read,
}
use simple_tcp.Channel.Interest.{IsWatched, Switched, switch, read_on, switch_lem}

abbrev pub site : Site
site = record { build = debug_build; ctl = λ c. true; in_thread = true; removable = true }

-- channel 70 of descriptor 7, as its constructor leaves it
abbrev new_port : Port
new_port = record {
  channel = record { id = 70; fd = 7; event = error_event; revent = no_events; priority = normal };
  poller = record {
    channel_map = (7, 70) ∷ [];
    channel_set = 70 ∷ [];
    issued = ctl_add 7 no_events ∷ [];
  };
}

created :
    create site true 70 7 normal no_events
      (record { channel_map = []; channel_set = []; issued = [] })
    ≡ ok tt new_port
unfolding create on_poller add_channel control has_channel
created = refl

blocked_socket_throws :
    (p : Epoller)
    → create site false 70 7 normal no_events p
      ≡ threw system_exception (record { channel = new_port.channel; poller = p })
unfolding create
blocked_socket_throws p = refl

foreign_thread_aborts : enable_read (record site { in_thread = false }) new_port ≡ abort
unfolding enable_read update
foreign_thread_aborts = refl

watched : IsWatched new_port
unfolding has_channel
watched = record {
  known = refl;
  mask = no_events;
  watched = refl;
  agrees = (refl, refl, refl);
  paired = refl;
}

switch_lem_example :
    (s' : Port) × (switch site read_on new_port ≡ ok tt s') × Switched read_on new_port s'
switch_lem_example = switch_lem site refl read_on new_port watched refl

-- callbacks that write their names down, of which the one for input throws
abbrev noting : Callback → M (List Callback) (Unit {0})
noting read_cb log = threw system_exception (log ++ (read_cb ∷ []))
noting c log = ok tt (log ++ (c ∷ []))

abbrev in_and_out : Events
in_and_out = record no_events { readable = true; writable = true }

in_and_out_stops : handle_event noting in_and_out [] ≡ threw system_exception (read_cb ∷ [])
unfolding handle_event
in_and_out_stops = refl
