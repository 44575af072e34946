-- ===== src/Socket.antt =====
-- class Socket (include/net/Socket.h, src/net/Socket.cpp): a descriptor of the process with its
-- addresses. The state is the list of the descriptors that the process has open; what each call of the
-- system comes to is handed to the operation that makes it.
pub mod Owning
mod Tests
use simple_tcp.Prelude.{
  ℕ, suc, ◌+◌, ◌*◌, ◌/◌, ◌%◌, ◌==◌, ◌&&◌, not, Bool, true, false, List, [], ◌∷◌, ◌++◌, Option, none,
  some, if◌then◌else◌, remove, pos, to_string, Build, Outcome, M, ok, threw, abort, fault, hang,
  ◌>>=◌, ◌>>◌, return, throw, modify, assert_true, network_exception, system_exception,
  other_exception,
}
use simple_tcp.Strings.{Text, text}

-- `IP_PROTOCOL`
pub data Protocol : Type 0 where
  ipv4 ipv6 : Protocol

pub record SocketAddr : Type 0 where
  pub ip_addr : Text
  pub ip_protocol : Protocol
  pub port : ℕ

-- `is_tcp_socket` is `none` before it is set: the constructor leaves it indeterminate.
pub record Socket : Type 0 where
  pub fd : ℕ
  pub is_listen_socket : Bool
  pub is_tcp_socket : Option Bool
  pub max_listen_queue : ℕ
  pub local_addr : SocketAddr
  pub peer_addr : SocketAddr

-- An address before it is set, of which nothing reads the protocol or the port.
abbrev pub no_addr : SocketAddr
no_addr = record { ip_addr = []; ip_protocol = ipv4; port = 0 }

-- The constructor.
abbrev pub fresh : ℕ → Socket
fresh fd = record {
  fd = fd;
  is_listen_socket = false;
  is_tcp_socket = none;
  max_listen_queue = 0;
  local_addr = no_addr;
  peer_addr = no_addr;
}

-- sockaddr_in or sockaddr_in6, as the system fills it: the bytes of the address, and the port in the
-- order of the network.
pub record RawAddr : Type 0 where
  pub bytes : List ℕ
  pub net_port : ℕ

-- `ntohs`, on a machine that puts the low byte first
abbrev pub ntohs : ℕ → ℕ
ntohs n = n % 256 * 256 + n / 256 % 256

-- `transAddrToString` of sockaddr_in
unfoldable pub dotted : List ℕ → Text
dotted [] = []
dotted (b ∷ []) = to_string (pos b)
dotted (b ∷ c ∷ bs) = to_string (pos b) ++ (b'.' ∷ dotted (c ∷ bs))

-- `transAddrToString` of sockaddr_in6, from byte `i` on
unfoldable pub colons : ℕ → List ℕ → Text
colons i [] = []
colons i (b ∷ bs) =
    let rest = colons (suc i) bs in b ∷ (if (i + 1) % 4 == 0 then text "::" ++ rest else rest)

abbrev pub addr_text : Protocol → List ℕ → Text
addr_text ipv4 bytes = dotted bytes
addr_text ipv6 bytes = colons 0 bytes

abbrev pub to_addr : Protocol → RawAddr → SocketAddr
to_addr protocol raw = record {
  ip_addr = addr_text protocol raw.bytes;
  ip_protocol = protocol;
  port = ntohs raw.net_port;
}

-- `setLocalAddr`, with what `::getsockname` gives
unfoldable pub set_local_addr : Protocol → Option RawAddr → Socket → Socket
set_local_addr protocol none s = s
set_local_addr protocol (some raw) s = record s { local_addr = to_addr protocol raw }

-- `createTcpNonblockingSocket`, with what `::socket` comes to
unfoldable pub create_fd : Option ℕ → M (List ℕ) ℕ
create_fd none opened = threw system_exception opened
create_fd (some fd) opened = ok fd (fd ∷ opened)

-- `failedResult`: all but 0, EINPROGRESS, EINTR and EISCONN
unfoldable pub failed_result : ℕ → Bool
failed_result err = not (err == 0) && (not (err == 115) && (not (err == 4) && not (err == 106)))

-- whether `::connect` failed: `none` where its result is not negative
abbrev pub connect_failed : Option ℕ → Bool
connect_failed none = false
connect_failed (some err) = failed_result err

abbrev pub connected_socket : SocketAddr → Option RawAddr → ℕ → Socket
connected_socket addr name fd =
    let s = set_local_addr addr.ip_protocol name (fresh fd) in
    record s { peer_addr = addr; is_tcp_socket = some true }

-- `createTcpClientSocket`, with what `::inet_pton`, `::socket`, `::connect` and `::getsockname` come to
unfoldable pub create_tcp_client_socket :
    SocketAddr → Bool → Option ℕ → Option ℕ → Option RawAddr → M (List ℕ) (Option Socket)
create_tcp_client_socket addr readable made connection name opened = elim readable [
  | false ↦ ok none opened
  | true ↦
      (create_fd made >>= λ fd.
      return (if connect_failed connection then none else some (connected_socket addr name fd)))
        opened
]

-- `createTcpListenSocket`
unfoldable pub create_tcp_listen_socket : SocketAddr → ℕ → Option ℕ → M (List ℕ) Socket
create_tcp_listen_socket addr queue made = do
  fd ← create_fd made
  return (record (fresh fd) {
    is_listen_socket = true;
    max_listen_queue = queue;
    is_tcp_socket = some true;
    local_addr = record no_addr { ip_protocol = addr.ip_protocol; port = addr.port };
  })

-- `assertTrue(mIsListenSocket)` and `assertTrue(mIsTCPSocket)`
unfoldable pub assert_listening : Build → Socket → M (List ℕ) (Unit {0})
assert_listening build s = do
  assert_true build s.is_listen_socket
  (λ opened. elim s.is_tcp_socket [ none ↦ fault | some tcp ↦ assert_true build tcp opened ])

-- `listen`, with what `::bind`, `::listen` and `::getsockname` come to
unfoldable pub listen : Build → Bool → Bool → Option RawAddr → Socket → M (List ℕ) Socket
listen build bound listening name s opened =
    (assert_listening build s >> λ opened. elim (bound && listening) [
      | true ↦ ok (set_local_addr s.local_addr.ip_protocol name s) opened
      | false ↦ abort
    ])
      opened

-- What `::accept4` comes to.
pub data Accepted : Type 0 where
  accepted : ℕ → RawAddr → Accepted
  accept_failed : ℕ → Accepted

-- std::variant of sockaddr_in and sockaddr_in6
pub data ClientAddr : Type 0 where
  sockaddr_in sockaddr_in6 : RawAddr → ClientAddr

-- What `clientAddr` holds after `::accept4`: it is made with its first alternative, and the call writes
-- behind it without changing which one it is.
abbrev pub client_addr : RawAddr → ClientAddr
client_addr raw = sockaddr_in raw

-- std::get of the alternative for the protocol; `none` where it throws std::bad_variant_access
abbrev pub get_alternative : Protocol → ClientAddr → Option RawAddr
get_alternative ipv4 (sockaddr_in raw) = some raw
get_alternative ipv4 (sockaddr_in6 raw) = none
get_alternative ipv6 (sockaddr_in raw) = none
get_alternative ipv6 (sockaddr_in6 raw) = some raw

-- The new socket takes the address of its peer; where that throws, the socket is destroyed.
abbrev pub take_peer : Protocol → Option RawAddr → Socket → Option RawAddr → M (List ℕ) Socket
take_peer protocol name s none opened = threw other_exception (remove s.fd opened)
take_peer protocol name s (some raw) opened =
    ok (set_local_addr protocol name (record s { peer_addr = to_addr protocol raw })) opened

-- the end of `accept`
unfoldable pub welcome : Protocol → Option RawAddr → Accepted → M (List ℕ) Socket
welcome protocol name (accept_failed err) opened = threw (network_exception err) opened
welcome protocol name (accepted fd raw) opened =
    take_peer protocol name (fresh fd) (get_alternative protocol (client_addr raw)) (fd ∷ opened)

-- `accept`
unfoldable pub accept : Build → Option RawAddr → Accepted → Socket → M (List ℕ) Socket
accept build name result s opened =
    (assert_listening build s >> welcome s.local_addr.ip_protocol name result) opened

-- The destructor.
unfoldable pub destruct : Socket → M (List ℕ) (Unit {0})
destruct s = modify (remove s.fd)

-- `shutdown`: a failure is only logged.
unfoldable pub shutdown : Bool → M (List ℕ) (Unit {0})
shutdown done opened = ok tt opened

-- `setNonDelay`, `setKeepAlive`, `setReuseAddr` and `setReusePort`: whether `::setsockopt` gave 0, and
-- the error of the socket.
unfoldable pub set_option : Bool → ℕ → M (List ℕ) (Unit {0})
set_option true err opened = ok tt opened
set_option false err opened = threw (network_exception err) opened

-- `setNonBlock`, with the flags that F_GETFL gives and whether F_SETFL gave 0
unfoldable pub set_non_block : ℕ → Bool → M (List ℕ) (Unit {0})
set_non_block flags done opened =
    if flags == 0 && done then ok tt opened else threw system_exception opened

-- `getSocketError`: the option, or `errno` where it could not be read
unfoldable pub get_socket_error : Option ℕ → ℕ → ℕ
get_socket_error none errno = errno
get_socket_error (some err) errno = err
