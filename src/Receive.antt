-- ===== src/Receive.antt =====
-- oblig1_chattsystem/src/app/receive_multiplex_loop.cpp: one thread polls the sockets and hands each
-- message to its service. Each handler is one step.
pub mod Keeps
pub mod Silence
pub mod Validity
pub mod EndToEnd
pub mod Consent
pub mod Presence
pub mod GroupChat
pub mod Announce
use nettverk.Prelude.{
  ℕ, ◌+◌, Bool, true, false, not, ◌&&◌, ◌||◌, none, some, List, [], ◌∷◌, ◌++◌, Bytes, ascii,
  bytes_eq, length, ltb, ℤ, pos, negsuc, is_negative, to_string, ◌==◌, if◌then◌else◌,
}
use nettverk.Net.{SockAddr, Os}
use nettverk.UdpSocket.{UdpSocket, Datagram, recv_from}
use nettverk.Io.{Io, log, info, parsing_error, socket_error, emit}
use nettverk.Secp.{
  SecpMessage, presence, room_announce, invite, chat, unknown, parse_secp_line, max_packet_bytes,
}
use nettverk.Users.{UserDirectory}
use nettverk.Discovery.{DiscoveryService, on_presence, prune_stale_peers}
use nettverk.Lobby.{LobbyService, on_lobby_chat, usn_chat}
use nettverk.Groups.State.{GroupRoomCoordinator, multicast_fd}
use nettverk.Groups.Messages.{on_room_announce, recv_multicast_datagram}
use nettverk.Groups.Messages
use nettverk.Direct.State.{DirectMessageService}
use nettverk.Direct.Receive

-- The objects that the loop is given references to, with the directory behind `discovery`.
pub record Services : Type 0 where
  pub users : UserDirectory
  pub discovery : DiscoveryService
  pub lobby : LobbyService
  pub groups : GroupRoomCoordinator
  pub direct : DirectMessageService
  pub io : Io

-- The branch of the `switch` for a chat message: three services see it, one after the other.
unfoldable pub dispatch_chat : Os → Services → SecpMessage → SockAddr → ℕ → Services
dispatch_chat os s msg from now =
    let io1 =
      if bytes_eq msg.room usn_chat
      then on_lobby_chat s.lobby msg.username msg.payload s.io
      else s.io in
    let io2 = Messages.on_room_chat s.groups msg from io1 in
    let (direct, io3) = Receive.on_room_chat os s.direct msg from now io2 in
    record s { direct = direct; io = io3 }

-- The `switch`. The clock is read at most twice.
unfoldable pub dispatch : Os → Services → SecpMessage → SockAddr → ℕ → ℕ → Services
unfolding dispatch_chat
dispatch os s msg from now later = elim msg.type [
  | presence ↦ record s {
    users = prune_stale_peers (on_presence os s.users now msg.username msg.payload from) later;
  }
  | room_announce ↦ record s { groups = on_room_announce s.groups msg now later }
  | invite ↦
      let (direct, io) = Receive.on_invite os s.direct msg from now later s.io in
      record s { direct = direct; io = io }
  | chat ↦ dispatch_chat os s msg from now
  | unknown ↦ s
]

unfoldable pub endpoint_string : Os → SockAddr → Bytes
endpoint_string os a = elim (os.inet_ntop a.ip) [
  | none ↦ ascii "<invalid-ip>:" ++ to_string (os.ntohs a.port)
  | some ip ↦ ip ++ ascii ":" ++ to_string (os.ntohs a.port)
]

-- The line that `handle_datagram` logs first.
unfoldable pub received_text : Os → Bytes → SockAddr → ℕ → Bytes
unfolding endpoint_string
received_text os label from n =
    label ++ ascii " from=" ++ endpoint_string os from ++ ascii " bytes=" ++ to_string n

-- `handle_datagram`: `line` is what the buffer holds up to `n`.
unfoldable pub handle_datagram : Os → Bytes → Services → Bytes → SockAddr → ℕ → ℕ → Services
unfolding dispatch
handle_datagram os label s line from now later =
    if (length line == 0) || ltb max_packet_bytes (length line)
    then s
    else let s1 = record s {
      io = emit (log (info (received_text os label from (length line)))) s.io;
    } in
      elim (parse_secp_line line) [
        | none ↦ record s1 { io = emit (log (parsing_error (ascii "parse SECP line"))) s1.io }
        | some msg ↦ dispatch os s1 msg from now later
      ]

-- `a == b` on descriptors.
abbrev pub same_fd : ℤ → ℤ → Bool
same_fd (pos a) (pos b) = a == b
same_fd (negsuc a) (negsuc b) = a == b
same_fd _ _ = false

-- What `poll` reports of one descriptor, with what the loop reads from elsewhere while it handles
-- it: the flag `running`, and the clock.
pub record Ready : Type 0 where
  pub error : Bool
  pub readable : Bool
  pub running : Bool
  pub now : ℕ
  pub later : ℕ

pub data Polled : Type 0 where
  interrupted : Polled
  failed : ℕ → Polled
  ready : List Ready → Polled

-- The descriptors that a round polls.
unfoldable pub poll_fds : Services → List ℤ
poll_fds s =
    let mfd = multicast_fd s.groups in
    if not (is_negative mfd) && not (same_fd mfd s.io.udp.fd)
    then s.io.udp.fd ∷ mfd ∷ []
    else s.io.udp.fd ∷ []

-- What follows `recv_from` on the shared socket.
unfoldable pub take_udp : Os → Services → UdpSocket × Datagram → ℕ → ℕ → Services
take_udp os s (udp, none) now later =
    let s1 = record s { io = record s.io { udp = udp; calls = s.io.calls + 1 } } in
    if not (udp.last_errno == 0)
    then record s1 { io = emit (log (socket_error (ascii "recv udp") udp.last_errno)) s1.io }
    else s1
take_udp os s (udp, some (line, from)) now later =
    let s1 = record s { io = record s.io { udp = udp; calls = s.io.calls + 1 } } in
    handle_datagram os (ascii "recv udp") s1 line from now later

unfoldable pub read_udp : Os → Services → ℕ → ℕ → Services
unfolding take_udp
read_udp os s now later =
    take_udp os s (recv_from os s.io.calls s.io.udp max_packet_bytes) now later

-- What follows `recv_multicast_datagram`.
unfoldable pub take_multicast :
    Os → Services → GroupRoomCoordinator × Io × Datagram → ℕ → ℕ → Services
take_multicast os s (groups, io, none) now later = record s { groups = groups; io = io }
take_multicast os s (groups, io, some (line, from)) now later =
    handle_datagram os (ascii "recv multicast") (record s { groups = groups; io = io }) line from
      now later

unfoldable pub read_multicast : Os → Services → ℕ → ℕ → Services
unfolding take_multicast
read_multicast os s now later =
    take_multicast os s (recv_multicast_datagram os s.groups max_packet_bytes s.io) now later

-- The body of the loop over `pfds` at a descriptor that is readable.
unfoldable pub read_fd : Os → Services → ℤ → ℤ → Ready → Services
unfolding read_udp read_multicast
read_fd os s mfd fd r =
    if same_fd fd s.io.udp.fd
    then read_udp os s r.now r.later
    else if same_fd fd mfd
    then read_multicast os s r.now r.later
    else s

-- The rest of that body: `if (err) continue; if (!readable) continue;` and the reading.
unfoldable pub visit_fd : Os → ℤ → ℤ → Ready → Services → Services
unfolding read_fd
visit_fd os mfd fd r s = if r.error then s else if not r.readable then s else read_fd os s mfd fd r

-- The loop over `pfds`; an error on a descriptor ends it once `running` is false.
unfoldable pub visit : Os → ℤ → List ℤ → List Ready → Services → Services
unfolding visit_fd
visit os mfd [] rs s = s
visit os mfd (fd ∷ fds) [] s = s
visit os mfd (fd ∷ fds) (r ∷ rs) s = elim (r.error && not r.running) [
  | true ↦ s
  | false ↦ visit os mfd fds rs (visit_fd os mfd fd r s)
]

-- `run_receive_multiplex_loop`: one entry of the list for each round in which `running` was true
-- at its start; when they end, it was false.
unfoldable pub run_receive_multiplex_loop : Os → List Polled → Services → Services
unfolding visit poll_fds
run_receive_multiplex_loop os [] s = s
run_receive_multiplex_loop os (interrupted ∷ ps) s = run_receive_multiplex_loop os ps s
run_receive_multiplex_loop os (failed e ∷ ps) s = record s {
  io = emit (log (socket_error (ascii "poll()") e)) s.io;
}
run_receive_multiplex_loop os (ready rs ∷ ps) s =
    run_receive_multiplex_loop os ps (visit os (multicast_fd s.groups) (poll_fds s) rs s)
