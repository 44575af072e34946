-- ===== src/Connection.antt =====
-- class TcpConnection (include/tcp/TcpConnection.h, src/tcp/TcpConnection.cpp): a connected socket
-- with its channel, a buffer for each direction, and the callbacks of its user and of its owner.
pub mod Handlers
pub mod Sending
pub mod Writing
pub mod Stream
pub mod Closing
pub mod Reading
mod Tests
use simple_tcp.Prelude.{
  ℕ, zero, suc, ◌+◌, Bool, true, false, not, ◌&&◌, ◌||◌, ◌==◌, List, [], ◌∷◌, ◌++◌, Option, none,
  some, if◌then◌else◌, ltb, Build, Outcome, M, Exception, network_exception, ok, threw, abort,
  fault, hang, ◌>>=◌, ◌>>◌, return, modify, assert_true,
}
use simple_tcp.Buffer.{TcpBuffer, ReadResult, size}
use simple_tcp.Buffer
use simple_tcp.Channel.{Site, Port, is_writing}
use simple_tcp.Channel

-- `ConnState`
pub data ConnState : Type 0 where
  connected half_closed disconnected : ConnState

-- What a connection has queued in its loop.
pub data Task : Type 0 where
  send_task : List ℕ → Task
  shutdown_task : Task

-- `sent` is what the kernel took from the connection, `shut` whether the write side was shut down.
-- A null `mpChannel` is `none`, a null `mpSocket` is `open ≡ false`.
pub record Conn : Type 0 where
  pub state : ConnState
  pub port : Option Port
  pub open_socket : Bool
  pub recv : TcpBuffer
  pub send : TcpBuffer
  pub sent : List ℕ
  pub shut : Bool
  pub queued : List Task

-- The callbacks: code of the user and of the owner, which may call the connection again.
pub record Callbacks : Type 0 where
  pub on_message : Option (M Conn (Unit {0}))
  pub on_connection : Option (M Conn (Unit {0}))
  pub on_write_complete : Option (M Conn (Unit {0}))
  pub on_high_water_mark : Option (M Conn (Unit {0}))
  pub on_close : Option (M Conn (Unit {0}))

-- `if (cb) { cb(...); }`
abbrev pub invoke : Option (M Conn (Unit {0})) → M Conn (Unit {0})
invoke none s = ok tt s
invoke (some cb) s = cb s

abbrev pub is_connected : ConnState → Bool
is_connected connected = true
is_connected _ = false

abbrev pub is_disconnected : ConnState → Bool
is_disconnected disconnected = true
is_disconnected _ = false

-- TCP_HIGH_WATER_MARK
abbrev pub high_water_mark : ℕ
high_water_mark = 65535

-- Rounds of the loop in `appendToBuffer`: more make no difference.
abbrev pub append_rounds : ℕ
append_rounds = 2

-- Work on one part of the connection.
unfoldable pub on_recv {ℓ} : {A : Type ℓ} → M TcpBuffer A → M Conn A
on_recv m s = elim (m s.recv) [
  | ok a b ↦ ok a (record s { recv = b })
  | threw e b ↦ threw e (record s { recv = b })
  | abort ↦ abort
  | fault ↦ fault
  | hang ↦ hang
]

unfoldable pub on_send {ℓ} : {A : Type ℓ} → M TcpBuffer A → M Conn A
on_send m s = elim (m s.send) [
  | ok a b ↦ ok a (record s { send = b })
  | threw e b ↦ threw e (record s { send = b })
  | abort ↦ abort
  | fault ↦ fault
  | hang ↦ hang
]

-- A call through `mpChannel`.
unfoldable pub on_channel : M Port (Unit {0}) → M Conn (Unit {0})
on_channel m s = elim s.port [
  | none ↦ fault
  | some p ↦ elim (m p) [
    | ok u q ↦ ok u (record s { port = some q })
    | threw e q ↦ threw e (record s { port = some q })
    | abort ↦ abort
    | fault ↦ fault
    | hang ↦ hang
  ]
]

-- A call through `mpSocket`.
abbrev pub need_socket : M Conn (Unit {0})
need_socket s = elim s.open_socket [ true ↦ ok tt s | false ↦ fault ]

-- `catch (const NetworkException& e)`
abbrev pub catch_network : M Conn (Unit {0}) → (ℕ → M Conn (Unit {0})) → M Conn (Unit {0})
catch_network m handler s = elim (m s) [
  | ok u s' ↦ ok u s'
  | threw e s' ↦ elim e [ network_exception n ↦ handler n s' | other ↦ threw other s' ]
  | abort ↦ abort
  | fault ↦ fault
  | hang ↦ hang
]

-- `catch (const std::exception& e)` that only logs
abbrev pub swallow : M Conn (Unit {0}) → M Conn (Unit {0})
swallow m s = elim (m s) [
  | ok u s' ↦ ok u s'
  | threw e s' ↦ ok tt s'
  | abort ↦ abort
  | fault ↦ fault
  | hang ↦ hang
]

-- The constructor, for a socket and a channel that were made before.
unfoldable pub fresh : Port → Conn
fresh p = record {
  state = disconnected;
  port = some p;
  open_socket = true;
  recv = Buffer.fresh;
  send = Buffer.fresh;
  sent = [];
  shut = false;
  queued = [];
}

module _ (site : Site) (cbs : Callbacks) where
  -- `handleClose`
  unfoldable pub handle_close : M Conn (Unit {0})
  handle_close s =
      (do
        need_socket
        assert_true site.build site.in_thread
        assert_true site.build (not (is_disconnected s.state))
        modify (λ s. record s { state = disconnected })
        invoke cbs.on_close
        invoke cbs.on_connection)
        s

  -- `handleError`
  unfoldable pub handle_error : M Conn (Unit {0})
  handle_error = do need_socket; assert_true site.build site.in_thread

  -- the handler of a NetworkException in `handleRead`
  unfoldable pub failed_read : ℕ → M Conn (Unit {0})
  failed_read e s = (if e == 0 then handle_close else handle_error) s

  -- `handleRead`, with what `::read` came to and the error of the socket.
  unfoldable pub handle_read : ReadResult → ℕ → M Conn (Unit {0})
  handle_read result err s =
      (do
        assert_true site.build site.in_thread
        assert_true site.build (not (is_disconnected s.state))
        catch_network
            (do need_socket; on_recv (Buffer.read_from_socket result err); invoke cbs.on_message)
            failed_read)
        s

  -- the write of the send buffer in `handleWrite` and `shutdownConnection`
  unfoldable pub flush : Option ℕ → ℕ → M Conn (Unit {0})
  flush accepted err s = elim (size s.send == 0) [
    | true ↦ ok tt s
    | false ↦
        (do
          need_socket
          bytes ← on_send (Buffer.write_to_socket site.build accepted err)
          modify (λ s. record s { sent = s.sent ++ bytes }))
          s
  ]

  -- the end of `handleWrite`
  unfoldable pub after_write : M Conn (Unit {0})
  after_write s = elim (size s.send == 0) [
    | true ↦ (invoke cbs.on_write_complete >> on_channel (Channel.disable_write site)) s
    | false ↦ ok tt s
  ]

  -- `handleWrite`, with what `::write` comes to and the error of the socket.
  unfoldable pub handle_write : Option ℕ → ℕ → M Conn (Unit {0})
  handle_write accepted err s =
      (do
        assert_true site.build site.in_thread
        assert_true site.build (is_connected s.state)
        flush accepted err
        after_write)
        s

  -- the end of `sendInLoop`
  unfoldable pub want_write : M Conn (Unit {0})
  want_write s = elim s.port [
    | none ↦ fault
    | some p ↦ elim (is_writing p.channel) [
      | true ↦ ok tt s
      | false ↦ on_channel (Channel.enable_write site) s
    ]
  ]

  -- `sendInLoop` after the bytes are appended
  unfoldable pub after_append : M Conn (Unit {0})
  after_append s =
      ((if ltb high_water_mark (size s.send) then invoke cbs.on_high_water_mark else return tt)
          >> want_write)
        s

  -- `sendInLoop`
  unfoldable pub send_in_loop : List ℕ → M Conn (Unit {0})
  send_in_loop bytes s =
      (do
        assert_true site.build site.in_thread
        (λ s. elim (is_connected s.state) [
          | false ↦ ok tt s
          | true ↦ (on_send (Buffer.append_to_buffer append_rounds bytes) >> after_append) s
        ]))
        s

  -- `send` and `sendString`: another thread's bytes are copied into a task.
  unfoldable pub send : List ℕ → M Conn (Unit {0})
  send bytes s =
      if site.in_thread
      then send_in_loop bytes s
      else ok tt (record s { queued = s.queued ++ (send_task bytes ∷ []) })

  -- `read` and `readString`
  unfoldable pub read : ℕ → M Conn (List ℕ)
  read n = on_recv (Buffer.read n)

  -- `readAll` and `readStringAll`
  unfoldable pub read_all : M Conn (List ℕ)
  read_all s = on_recv (Buffer.read (size s.recv)) s

  -- `extract` and `extractString`
  unfoldable pub extract : ℕ → M Conn (List ℕ)
  extract n = on_recv (Buffer.extract site.build n)

  -- `extractAll` and `extractStringAll`
  unfoldable pub extract_all : M Conn (List ℕ)
  extract_all s = on_recv (Buffer.extract site.build (size s.recv)) s

  -- `establishConnect`
  unfoldable pub establish_connect : M Conn (Unit {0})
  establish_connect = do
    assert_true site.build site.in_thread
    on_channel (Channel.enable_read site)
    modify (λ s. record s { state = connected })
    invoke cbs.on_connection

  -- `mpChannel = nullptr`: an exception that leaves the destructor ends the process.
  unfoldable pub drop_channel : M Conn (Unit {0})
  drop_channel s = elim s.port [
    | none ↦ ok tt s
    | some p ↦ elim (Channel.destroy site p) [
      | ok u q ↦ ok tt (record s { port = none })
      | threw e q ↦ abort
      | abort ↦ abort
      | fault ↦ fault
      | hang ↦ hang
    ]
  ]

  -- `destroyConnection`
  unfoldable pub destroy_connection : M Conn (Unit {0})
  destroy_connection s =
      (do
        assert_true site.build site.in_thread
        assert_true site.build (is_disconnected s.state)
        swallow (do
          (λ s. elim s.port [
            | none ↦ ok tt s
            | some p ↦ (on_channel (Channel.disable_all site) >> drop_channel) s
          ])
          modify (λ s. record s { open_socket = false })))
        s

  -- `shutdownConnection`, in any thread
  unfoldable pub shutdown_connection : M Conn (Unit {0})
  shutdown_connection s = ok tt (record s { queued = s.queued ++ (shutdown_task ∷ []) })

  -- what `shutdownConnection` queues
  unfoldable pub shutdown_in_loop : Option ℕ → ℕ → M Conn (Unit {0})
  shutdown_in_loop accepted err s =
      swallow
        (λ s. elim (is_disconnected s.state) [
          | true ↦ ok tt s
          | false ↦
              (do
                flush accepted err
                modify (λ s. record s { state = half_closed })
                on_channel (Channel.disable_write site)
                need_socket
                modify (λ s. record s { shut = true }))
                s
        ])
        s

  -- The destructor.
  unfoldable pub destruct : M Conn (Unit {0})
  destruct s =
      (do
        (if is_disconnected s.state
            then return tt
            else (do modify (λ s. record s { state = disconnected }); destroy_connection))
        drop_channel)
        s
