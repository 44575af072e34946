-- ===== src/Socket/Owning.antt =====
-- Which descriptors createTcpClientSocket of src/net/Socket.cpp leaves open, and who owns them.
use simple_tcp.Prelude.{
  ℕ, ◌≡◌, Bool, true, false, List, ◌∷◌, Option, none, some, Outcome, ok, threw, system_exception,
}
use simple_tcp.Socket.{SocketAddr, Socket, connect_failed}

-- What `createTcpClientSocket` leaves of the open descriptors, by whether the server's address could be
-- read and whether a descriptor was made.
abbrev pub IsClient :
    SocketAddr → Bool → Option ℕ → Option ℕ → List ℕ → Outcome (List ℕ) (Option Socket) → Type 0
IsClient addr true (some fd) connection opened (ok (some s) after) =
    (connect_failed connection ≡ false) × (s.fd ≡ fd) × (after ≡ fd ∷ opened) × (s.peer_addr ≡ addr)
IsClient addr true (some fd) connection opened (ok none after) =
    (connect_failed connection ≡ true) × (after ≡ fd ∷ opened)
IsClient addr true none connection opened (threw e after) =
    (e ≡ system_exception) × (after ≡ opened)
IsClient addr false made connection opened (ok none after) = after ≡ opened
IsClient addr readable made connection opened outcome = true ≡ false
