-- ===== src/Client/Tests.antt =====
-- Runs of TcpClient, and its theorems at concrete clients.
use simple_tcp.Prelude.{
  ℕ, ◌≤◌, ◌≡◌, refl, [], ◌∷◌, true, false, ok, threw, debug_build, network_exception, ◌>>◌,
}
use simple_tcp.Client.{
  Client, connected_state, World, in_progress, failed, fresh, connect, on_channel_write,
  trans_state, run_task, do_connecting, do_connected, switch_state, established, init_retry_timeout,
}
use simple_tcp.Client.Backoff.{retries, after, backoff_lem}
use simple_tcp.Client.Transitions.{run_next}

abbrev slow_world : World
slow_world = record { attempt = in_progress; socket_error = 0; errno = 0 }

abbrev refusing : World
refusing = record { attempt = failed; socket_error = 111; errno = 111 }

-- connected, and idle
abbrev linked : Client
linked = record {
  state = connected_state;
  has_connection = true;
  conn_socket = false;
  conn_channel = false;
  retry_delay = init_retry_timeout;
  random_delay = 42;
  queued = [];
  timers = [];
  effects = established ∷ [];
}

connects :
    (do
      connect debug_build true slow_world
      on_channel_write debug_build true slow_world
      run_next debug_build true slow_world)
      (fresh 42)
    ≡ ok tt linked
unfolding connect on_channel_write run_task trans_state switch_state do_connecting do_connected
    fresh
connects = refl

backoff_lem_example :
    ((k : ℕ) → k ≤ 12 → retries debug_build true refusing k (fresh 42) ≡ ok tt (after k (fresh 42)))
    × (retries debug_build true refusing 13 (fresh 42)
        ≡ threw (network_exception 111) (after 12 (fresh 42)))
unfolding fresh
backoff_lem_example = backoff_lem debug_build true refusing refl (fresh 42) refl
