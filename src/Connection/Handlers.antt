-- ===== src/Connection/Handlers.antt =====
-- `handleRead` and `handleClose` of src/tcp/TcpConnection.cpp.
use simple_tcp.Prelude.{
  ℕ, ◌+◌, ◌*◌, ◌≤◌, ◌≡◌, ◌≢◌, ap, ◌∙◌, List, [], ◌∷◌, true, arith, Outcome, ok, threw, length, ◌==◌,
  ◌⊎◌, inl, inr, Bool-cases, then_ok, ◌>>◌, network_exception, if◌then◌else◌,
}
use simple_tcp.Buffer.Memory.{max_size}
use simple_tcp.Buffer.{TcpBuffer, ReadResult, received, read_failed, read_from_socket}
use simple_tcp.Buffer.Valid.{IsValid}
use simple_tcp.Buffer.Socket.{Received, read_from_socket_lem}
use simple_tcp.Channel.{Site}
use simple_tcp.Connection.{
  Conn, disconnected, Callbacks, invoke, on_recv, catch_network, handle_close, handle_error,
  failed_read, handle_read,
}

module _ (site : Site) (cbs : Callbacks) (inside : site.in_thread ≡ true) where
  -- `handleClose` on a connection that is not closed yet leaves it disconnected and calls first the
  -- owner's close callback, then the user's connection callback.
  pub handle_close_lem :
      (s : Conn)
      → s.open_socket ≡ true
      → s.state ≢ disconnected
      → handle_close site cbs s
        ≡ (invoke cbs.on_close >> invoke cbs.on_connection) (record s { state = disconnected })
  unfolding handle_close
  handle_close_lem s o h = ground arith

  read_step :
      (result : ReadResult) (err : ℕ) (s : Conn)
      → s.open_socket ≡ true
      → s.state ≢ disconnected
      → handle_read site cbs result err s
        ≡ catch_network
            (on_recv (read_from_socket result err) >> invoke cbs.on_message)
            (failed_read site cbs)
            s
  unfolding handle_read
  read_step result err s o h = ground arith

  read_returns :
      (result : ReadResult) (err : ℕ) (s : Conn) {b : TcpBuffer}
      → read_from_socket result err s.recv ≡ ok tt b
      → on_recv (read_from_socket result err) s ≡ ok tt (record s { recv = b })
  unfolding on_recv
  read_returns result err s h = ground arith

  -- `handleRead` on a live connection, when `::read` delivers one byte or more and no more than the
  -- free space of the receive buffer: the bytes are put behind those already there, the buffer has
  -- room for the next read, and then the user's message callback runs on the connection.
  pub handle_read_lem :
      (x : ℕ) (xs : List ℕ) (err : ℕ) (s : Conn)
      → s.open_socket ≡ true
      → s.state ≢ disconnected
      → IsValid s.recv
      → s.recv.write_pos + length (x ∷ xs) ≤ length s.recv.buffer
      → length s.recv.buffer * 2 ≤ max_size
      → (b' : TcpBuffer) × (handle_read site cbs (received (x ∷ xs)) err s
          ≡ catch_network (invoke cbs.on_message) (failed_read site cbs) (record s { recv = b' }))
        × Received (x ∷ xs) s.recv b'
  handle_read_lem x xs err s o h v fits room =
      let r = read_from_socket_lem x xs err v fits room in
      (
        r.0,
        read_step (received (x ∷ xs)) err s o h
            ∙ ap (λ m. caught m)
                (then_ok (on_recv (read_from_socket (received (x ∷ xs)) err))
                  (invoke cbs.on_message) s (read_returns (received (x ∷ xs)) err s r.1)),
        r.2,
      )
    where
      caught : Outcome Conn (Unit {0}) → Outcome Conn (Unit {0})
      caught o = catch_network (λ _. o) (failed_read site cbs) s

  nothing_thrown :
      (result : ReadResult) (err : ℕ) (s : Conn)
      → (result ≡ received []) ⊎ (result ≡ read_failed)
      → (on_recv (read_from_socket result err) >> invoke cbs.on_message) s
        ≡ threw (network_exception err) s
  unfolding read_from_socket on_recv
  nothing_thrown result err s (inl e) = rw e
  nothing_thrown result err s (inr e) = rw e

  failed_lem :
      (err : ℕ) (s : Conn)
      → s.open_socket ≡ true
      → s.state ≢ disconnected
      → failed_read site cbs err s ≡ (
          if err == 0
          then (invoke cbs.on_close >> invoke cbs.on_connection) (record s { state = disconnected })
          else ok tt s)
  unfolding failed_read handle_error
  failed_lem err s o h = elim (Bool-cases (err == 0)) [
    | inl zero_err ↦ rw zero_err (handle_close_lem s o h)
    | inr some_err ↦ rw some_err (ground arith)
  ]

  -- `handleRead` on a live connection, when `::read` delivers nothing: with no socket error it closes
  -- the connection as `handleClose` does; with one the connection stays exactly as it is, for the
  -- read of 0 bytes that is to come.
  pub handle_read_nothing :
      (result : ReadResult) (err : ℕ) (s : Conn)
      → (result ≡ received []) ⊎ (result ≡ read_failed)
      → s.open_socket ≡ true
      → s.state ≢ disconnected
      → handle_read site cbs result err s ≡ (
          if err == 0
          then (invoke cbs.on_close >> invoke cbs.on_connection) (record s { state = disconnected })
          else ok tt s)
  handle_read_nothing result err s none_there o h =
      read_step result err s o h
      ∙ ap (λ m. catch_network (λ _. m) (failed_read site cbs) s)
          (nothing_thrown result err s none_there)
      ∙ failed_lem err s o h
