-- ===== src/Socket/Tests.antt =====
-- Runs of Socket, and its theorems at small processes.
use simple_tcp.Prelude.{
  ◌≡◌, refl, [], ◌∷◌, none, some, true, other_exception, debug_build, ok, threw, system_exception,
  to_string,
}
use simple_tcp.Strings.{text}
use simple_tcp.Socket.{
  ipv4, ipv6, SocketAddr, RawAddr, Socket, dotted, create_fd, create_tcp_client_socket, accepted,
  accept, assert_listening, welcome, set_non_block, failed_result, fresh,
}

local_host_is_dotted : dotted (127 ∷ 0 ∷ 0 ∷ 1 ∷ []) ≡ text "127.0.0.1"
unfolding dotted to_string
local_host_is_dotted = refl

-- A descriptor that was opened for reading and writing has flags, and then the call throws.
flags_are_refused : set_non_block 2 true (3 ∷ []) ≡ threw system_exception (3 ∷ [])
unfolding set_non_block
flags_are_refused = refl

abbrev server : SocketAddr
server = record { ip_addr = text "127.0.0.1"; ip_protocol = ipv4; port = 80 }

-- ECONNREFUSED
refused_is_left_open :
    create_tcp_client_socket server true (some 5) (some 111) none (3 ∷ []) ≡ ok none (5 ∷ 3 ∷ [])
unfolding create_tcp_client_socket create_fd failed_result
refused_is_left_open = refl

-- a socket that listens over IPv6
abbrev listening : Socket
listening = record (fresh 3) {
  is_listen_socket = true;
  is_tcp_socket = some true;
  local_addr = record { ip_addr = []; ip_protocol = ipv6; port = 80 };
}

abbrev peer : RawAddr
peer = record { bytes = 0 ∷ 1 ∷ []; net_port = 20480 }

ipv6_peer_is_turned_away :
    accept debug_build none (accepted 7 peer) listening (3 ∷ []) ≡ threw other_exception (3 ∷ [])
unfolding accept assert_listening welcome
ipv6_peer_is_turned_away = refl
