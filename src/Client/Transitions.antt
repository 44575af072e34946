-- ===== src/Client/Transitions.antt =====
-- Which transitions `transStateInLoop` of src/tcp/TcpClient.cpp makes, and what a forced disconnect
-- leaves.
use simple_tcp.Prelude.{
  ℕ, ◌+◌, ◌*◌, ◌≡◌, [], ◌∷◌, ◌++◌, true, false, arith, ok, M, Build, Bool, ◌>>◌, false,
}
use simple_tcp.Client.{
  Client, ClientState, disconnect_state, connecting_state, connected_state,
  force_disconnected_state, World, in_progress, init_retry_timeout, on_connection_close,
  on_channel_write, connect, fresh, retry, do_connecting, do_connected, do_disconnected,
  do_force_disconnected, switch_state, trans_state, disconnect, run_task, established, destroyed,
  shutdown_queued,
}

-- The transitions that `transStateInLoop` makes, from the old state to the new.
pub data Allowed : ClientState → ClientState → Type 0 where
  peer_closed : Allowed connected_state disconnect_state
  first_try : Allowed disconnect_state connecting_state
  try_again : Allowed connecting_state connecting_state
  try_after_force : Allowed force_disconnected_state connecting_state
  established_now : Allowed connecting_state connected_state
  give_up : Allowed connecting_state force_disconnected_state
  leave : Allowed connected_state force_disconnected_state

-- the loop takes the next queued task and runs it
abbrev pub run_next : Build → Bool → World → M Client (Unit {0})
run_next build in_thread world c = elim c.queued [
  | [] ↦ ok tt c
  | t ∷ ts ↦ run_task build in_thread world t (record c { queued = ts })
]

module _ (build : Build) (in_thread : Bool) (world : World) (inside : in_thread ≡ true) where
  -- When the peer closes the connection of a connected client, the client destroys the connection and
  -- schedules an attempt to reconnect after the initial delay.
  pub peer_close_lem :
      (c : Client)
      → c.state ≡ connected_state
      → c.has_connection ≡ true
      → c.queued ≡ []
      → (on_connection_close build in_thread world >> run_next build in_thread world) c
        ≡ ok tt (record c {
          state = disconnect_state;
          has_connection = false;
          retry_delay = init_retry_timeout * 2;
          timers = (init_retry_timeout + c.random_delay) ∷ c.timers;
          effects = c.effects ++ (destroyed ∷ []);
        })
  unfolding on_connection_close run_task trans_state switch_state do_disconnected retry
  peer_close_lem c up has idle = ground (arith, inside, up, has, idle)

  -- After `disconnect()` on a connected client has shut the connection down, the close by the peer
  -- that follows does nothing: the client stays in ForceDisconnected, and its connection is still
  -- there, not destroyed.
  pub forced_close_lem :
      (c : Client)
      → c.state ≡ connected_state
      → c.has_connection ≡ true
      → c.queued ≡ []
      → (do
        disconnect build in_thread world
        run_next build in_thread world
        run_next build in_thread world
        on_connection_close build in_thread world
        run_next build in_thread world)
          c
        ≡ ok tt (record c {
          state = force_disconnected_state;
          effects = c.effects ++ (shutdown_queued ∷ []);
        })
  unfolding disconnect on_connection_close run_task trans_state switch_state do_force_disconnected
  forced_close_lem c up has idle = ground (arith, inside, up, has, idle)

  -- `disconnect()` between a first `connect()` in progress and its success is lost: the client ends
  -- up connected, with nothing queued that would disconnect it.
  pub disconnect_lost :
      (random : ℕ)
      → world.attempt ≡ in_progress
      → world.socket_error ≡ 0
      → (do
        connect build in_thread world
        disconnect build in_thread world
        on_channel_write build in_thread world
        run_next build in_thread world)
          (fresh random)
        ≡ ok tt (record {
          state = connected_state;
          has_connection = true;
          conn_socket = false;
          conn_channel = false;
          retry_delay = init_retry_timeout;
          random_delay = random;
          queued = [];
          timers = [];
          effects = established ∷ [];
        })
  unfolding connect disconnect on_channel_write run_task trans_state switch_state do_connecting
      do_connected fresh
  disconnect_lost random started good = ground (arith, inside, started, good)
