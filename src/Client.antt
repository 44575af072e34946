-- ===== src/Client.antt =====
-- class TcpClient (include/tcp/TcpClient.h, src/tcp/TcpClient.cpp): the state machine that connects,
-- retries with growing delays, and reconnects when the peer has closed.
pub mod Backoff
pub mod Entered
pub mod Transitions
mod Tests
use simple_tcp.Prelude.{
  ℕ, ◌+◌, ◌*◌, Bool, true, false, not, List, [], ◌∷◌, ◌++◌, if◌then◌else◌, ltb, ◌==◌, Build,
  Outcome, M, ok, threw, fault, ◌>>=◌, ◌>>◌, return, modify, throw, assert_true, network_exception,
  system_exception,
}

-- `ClientState`
pub data ClientState : Type 0 where
  disconnect_state connecting_state connected_state force_disconnected_state : ClientState

-- What the client has queued in its loop.
pub data Task : Type 0 where
  enter : ClientState → Task
  shut_connection : Task

-- What the client does with its connection (verification/Connection.antt), in order.
pub data Effect : Type 0 where
  established destroyed shutdown_queued : Effect

-- TCP_INIT_RETRY_TIMEOUT and TCP_MAX_RETRY_TIMEOUT, in milliseconds
abbrev pub init_retry_timeout : ℕ
init_retry_timeout = 100

abbrev pub max_retry_timeout : ℕ
max_retry_timeout = 300000

-- The pointers `mConnection`, `mConnSocket` and `mConnChannel` are there or null. `timers` are the
-- delays after which `runAfter` is to try again, newest first. Delays are in milliseconds.
pub record Client : Type 0 where
  pub state : ClientState
  pub has_connection : Bool
  pub conn_socket : Bool
  pub conn_channel : Bool
  pub retry_delay : ℕ
  pub random_delay : ℕ
  pub queued : List Task
  pub timers : List ℕ
  pub effects : List Effect

-- The constructor, with the random delay that it drew.
unfoldable pub fresh : ℕ → Client
fresh random = record {
  state = disconnect_state;
  has_connection = false;
  conn_socket = false;
  conn_channel = false;
  retry_delay = init_retry_timeout;
  random_delay = random;
  queued = [];
  timers = [];
  effects = [];
}

-- What an attempt to connect came to: `createTcpClientSocket` threw, as there was no descriptor; or it
-- gave no socket; or the error of its socket is EINPROGRESS, EINTR or EISCONN; or it is 0; or it is
-- another.
pub data Attempt : Type 0 where
  no_descriptor no_socket in_progress done failed : Attempt

-- What the calls of the system come to: an attempt, the error of the socket once it is writable, and
-- `errno`.
pub record World : Type 0 where
  pub attempt : Attempt
  pub socket_error : ℕ
  pub errno : ℕ

abbrev pub queue : Task → M Client (Unit {0})
queue t c = ok tt (record c { queued = c.queued ++ (t ∷ []) })

module _ (build : Build) (in_thread : Bool) (world : World) where
  -- `retry`
  unfoldable pub retry : M Client (Unit {0})
  retry c =
      (do
        assert_true build in_thread
        (λ c. elim (ltb c.retry_delay max_retry_timeout) [
          | true ↦ ok tt (record c {
            timers = (c.retry_delay + c.random_delay) ∷ c.timers;
            retry_delay = c.retry_delay * 2;
          })
          | false ↦ threw (network_exception world.errno) c
        ]))
        c

  -- `doConnecting`
  unfoldable pub do_connecting : M Client (Unit {0})
  do_connecting c =
      let clean = record c { conn_channel = false; conn_socket = false } in
      elim world.attempt [
        | no_descriptor ↦ threw system_exception clean
        | no_socket ↦ retry clean
        | in_progress ↦ ok tt (record clean { conn_socket = true; conn_channel = true })
        | done ↦ queue (enter connected_state) (record clean { conn_socket = true })
        | failed ↦ retry (record clean { conn_socket = true })
      ]

  -- `doConnected`. Without a socket `getSocketError` goes through a null pointer.
  unfoldable pub do_connected : M Client (Unit {0})
  do_connected c =
      (do
        assert_true build c.conn_socket
        (λ c. elim c.conn_socket [ true ↦ ok tt c | false ↦ fault ])
        assert_true build (world.socket_error == 0)
        modify (λ c. record c {
          conn_channel = false;
          retry_delay = init_retry_timeout;
          conn_socket = false;
          has_connection = true;
          effects = c.effects ++ (established ∷ []);
        }))
        c

  -- `doDisconnected`
  unfoldable pub do_disconnected : M Client (Unit {0})
  do_disconnected c =
      (do
        assert_true build c.has_connection
        (λ c. elim c.has_connection [ true ↦ ok tt c | false ↦ fault ])
        modify (λ c. record c {
          effects = c.effects ++ (destroyed ∷ []);
          has_connection = false;
          retry_delay = init_retry_timeout;
        })
        retry)
        c

  -- `doForceDisconnected`
  unfoldable pub do_force_disconnected : M Client (Unit {0})
  do_force_disconnected = queue shut_connection

  -- The cases of `transStateInLoop`, by the new state and the old one.
  unfoldable pub switch_state : ClientState → ClientState → M Client (Unit {0})
  switch_state disconnect_state connected_state c =
      do_disconnected (record c { state = disconnect_state })
  switch_state disconnect_state _ c = ok tt c
  switch_state connecting_state connected_state c = ok tt c
  switch_state connecting_state _ c = do_connecting (record c { state = connecting_state })
  switch_state connected_state connecting_state c =
      do_connected (record c { state = connected_state })
  switch_state connected_state _ c = ok tt c
  switch_state force_disconnected_state disconnect_state c = ok tt c
  switch_state force_disconnected_state force_disconnected_state c = ok tt c
  switch_state force_disconnected_state _ c =
      do_force_disconnected (record c { state = force_disconnected_state })

  -- `transStateInLoop`
  unfoldable pub trans_state : ClientState → M Client (Unit {0})
  trans_state new c = (assert_true build in_thread >> (λ c. switch_state new c.state c)) c

  -- `connect`
  unfoldable pub connect : M Client (Unit {0})
  connect = do assert_true build in_thread; trans_state connecting_state

  -- `disconnect`
  unfoldable pub disconnect : M Client (Unit {0})
  disconnect c = elim c.has_connection [
    | false ↦ ok tt c
    | true ↦ queue (enter force_disconnected_state) c
  ]

  -- What the loop runs for a queued task. `shutdownConnection` goes through `mConnection`.
  unfoldable pub run_task : Task → M Client (Unit {0})
  run_task (enter new) c = trans_state new c
  run_task shut_connection c = elim c.has_connection [
    | false ↦ fault
    | true ↦ ok tt (record c { effects = c.effects ++ (shutdown_queued ∷ []) })
  ]

  -- the error callback of the temporary channel
  unfoldable pub on_channel_error : M Client (Unit {0})
  on_channel_error = retry

  -- the write callback of the temporary channel
  unfoldable pub on_channel_write : M Client (Unit {0})
  on_channel_write = queue (enter connected_state)

  -- the close callback of the connection
  unfoldable pub on_connection_close : M Client (Unit {0})
  on_connection_close = queue (enter disconnect_state)

  -- a timer of `retry`
  unfoldable pub on_retry_timer : M Client (Unit {0})
  on_retry_timer = trans_state connecting_state
