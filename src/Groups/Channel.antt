-- ===== src/Groups/Channel.antt =====
-- The multicast channel of GroupRoomCoordinator: `leave_multicast_membership_unlocked` and
-- `bind_multicast_channel` of oblig1_chattsystem/src/services/group_room_coordinator.cpp.
use nettverk.Prelude.{
  ℕ, ◌+◌, Bool, true, false, not, ◌&&◌, Option, none, some, ◌++◌, Bytes, ascii, length, is_negative,
  if◌then◌else◌,
}
use nettverk.Net.{Os}
use nettverk.UdpSocket.{
  UdpSocket, open_udp, destroy, bind, set_reuse_address, multicast_add_membership,
  multicast_drop_membership, set_multicast_ttl, set_multicast_loop,
  set_multicast_outbound_interface,
}
use nettverk.UdpSocket
use nettverk.LocalEndpoint.{format_ipv4}
use nettverk.Io.{Io, LogCall, log, join_group, leave_group, socket_error, emit}
use nettverk.Groups.State.{GroupRoomCoordinator}

-- A system call more.
abbrev pub tick : Io → Io
tick io = record io { calls = io.calls + 1 }

-- The destructor of the socket `sk`, with the calls of `::close` that it makes.
unfoldable pub drop_socket : Os → UdpSocket → Io → Io
unfolding destroy
drop_socket os sk io =
    let closed = destroy os io.calls sk in
    record io { calls = io.calls + length closed; closed = closed ++ io.closed }

-- What is done to the socket that is held, before it is let go.
unfoldable pub drop_membership : Os → GroupRoomCoordinator → UdpSocket → Io → Io
drop_membership os g sk io =
    if not (is_negative sk.fd) && g.joined_membership
    then (let io1 = emit (log (leave_group (format_ipv4 os g.joined_group) g.joined_port)) io in
        let (sk', ok) = multicast_drop_membership os io1.calls sk g.joined_group g.local_if in
        if not ok
        then emit (log (socket_error (ascii "IP_DROP_MEMBERSHIP") sk'.last_errno)) (tick io1)
        else tick io1)
    else io

-- The effects of `leave_multicast_membership_unlocked`.
unfoldable pub let_go : Os → GroupRoomCoordinator → Io → Io
unfolding drop_membership drop_socket
let_go os g io = elim g.mcast_sock [
  | none ↦ io
  | some sk ↦ drop_socket os sk (drop_membership os g sk io)
]

unfoldable pub leave_multicast_membership_unlocked :
    Os → GroupRoomCoordinator → Io → GroupRoomCoordinator × Io
unfolding let_go
leave_multicast_membership_unlocked os g io =
    (record g { joined_membership = false; joined_port = 0; mcast_sock = none }, let_go os g io)

-- The socket `sk` under construction: good so far, or given up with the text for `err_out`.
pub data Setup : Type 0 where
  opened : UdpSocket → Io → Setup
  broken : UdpSocket → Io → Bytes → Setup

-- `if (!sk->op(…)) { err_out = err; return false; }`
unfoldable pub attempt : Setup → (ℕ → UdpSocket → UdpSocket × Bool) → Bytes → Setup
attempt (broken sk io e) op err = broken sk io e
attempt (opened sk io) op err =
    let (sk', ok) = op io.calls sk in if ok then opened sk' (tick io) else broken sk' (tick io) err

abbrev pub note : Setup → LogCall → Setup
note (broken sk io e) l = broken sk io e
note (opened sk io) l = opened sk (emit (log l) io)

-- The sequence of calls on the new socket.
unfoldable pub set_up : Os → ℕ → ℕ → ℕ → Io → Setup
unfolding attempt
set_up os local_if group port io =
    let s1 = attempt (opened UdpSocket.new io) (open_udp os) (ascii "socket") in
    let s2 = attempt s1 (λ c sk. set_reuse_address os c sk true) (ascii "SO_REUSEADDR") in
    let s3 = attempt s2 (λ c sk. bind os c sk port) (ascii "bind") in
    let s4 =
      attempt s3 (λ c sk. set_multicast_outbound_interface os c sk local_if)
        (ascii "IP_MULTICAST_IF") in
    let s5 =
      attempt s4 (λ c sk. multicast_add_membership os c sk group local_if)
        (ascii "IP_ADD_MEMBERSHIP") in
    let s6 = note s5 (join_group (format_ipv4 os group) port) in
    let s7 = attempt s6 (λ c sk. set_multicast_ttl os c sk 1) (ascii "IP_MULTICAST_TTL") in
    attempt s7 (λ c sk. set_multicast_loop os c sk true) (ascii "IP_MULTICAST_LOOP")

-- The result is `none` where the method returns true, and otherwise the text of `err_out`.
unfoldable pub take_up :
    Os → GroupRoomCoordinator → ℕ → ℕ → Setup → GroupRoomCoordinator × Io × Option Bytes
unfolding drop_socket
take_up os g group port (broken sk io err) = (g, drop_socket os sk io, some err)
take_up os g group port (opened sk io) = (
  record g {
    mcast_sock = some sk;
    joined_group = group;
    joined_port = port;
    joined_membership = true;
  },
  io,
  none,
)

unfoldable pub bind_multicast_channel :
    Os → GroupRoomCoordinator → ℕ → ℕ → Io → GroupRoomCoordinator × Io × Option Bytes
unfolding leave_multicast_membership_unlocked set_up take_up
bind_multicast_channel os g group port io =
    let (g', io') = leave_multicast_membership_unlocked os g io in
    take_up os g' group port (set_up os g'.local_if group port io')
