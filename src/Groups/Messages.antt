-- ===== src/Groups/Messages.antt =====
-- The messages of GroupRoomCoordinator
-- (oblig1_chattsystem/src/services/group_room_coordinator.cpp): chat and announcements, both ways.
use nettverk.Prelude.{
  ℕ, ◌+◌, Bool, true, false, not, ◌||◌, none, some, ◌∷◌, Bytes, ascii, bytes_eq, is_empty, length,
  insert, ltb, if◌then◌else◌,
}
use nettverk.Net.{SockAddr, Os, udp_port, af_inet, inaddr_broadcast}
use nettverk.UdpSocket.{UdpSocket, Datagram, send_to, recv_from}
use nettverk.LocalEndpoint.{format_ipv4}
use nettverk.Io.{
  Io, send, log, group_message, sent_broadcast, sent_multicast, recv_multicast, socket_error, emit,
  send_udp,
}
use nettverk.Secp.{
  SecpMessage, SecpType, chat, room_announce, dash, build_secp_line, max_chat_message_bytes,
}
use nettverk.Trim.{trim_in_place}
use nettverk.Groups.State.{
  AdvertisedGroupRoom, GroupRoomCoordinator, open_room_multicast_group, prune_registry_unlocked,
}

abbrev pub text_open : Bytes
text_open = ascii "OPEN"

unfoldable pub broadcast_owned_advert : Os → GroupRoomCoordinator → Io → Io
broadcast_owned_advert os g io = elim g.owned [
  | none ↦ io
  | some room ↦
      let line = build_secp_line room_announce room g.username text_open in
      if is_empty line || not g.advert_sock
      then io
      else let dest : SockAddr = record {
        family = af_inet;
        port = os.htons udp_port;
        ip = inaddr_broadcast;
      } in
        let (io', ok) = send_udp os io line dest in
        emit
          (log (
            if ok
            then sent_broadcast (ascii "ROOM_ANNOUNCE") udp_port (length line)
            else socket_error (ascii "send GroupAdvert broadcast") io'.udp.last_errno))
          io'
]

-- `send_group_chat` on the socket that is held.
unfoldable pub send_group_line :
    Os → GroupRoomCoordinator → UdpSocket → Bytes → Io → GroupRoomCoordinator × Io × Bool
send_group_line os g sk trimmed io =
    let line = build_secp_line chat g.active_room_name g.username trimmed in
    if is_empty line
    then (g, io, false)
    else let dest : SockAddr = record {
      family = af_inet;
      ip = g.joined_group;
      port = os.htons g.joined_port;
    } in
      let (sk', ok) = send_to os io.calls sk line dest in
      let io' = record io { calls = io.calls + 1; out = send sk.fd line dest ok ∷ io.out } in
      (
        record g { mcast_sock = some sk' },
        emit
            (log (
              if ok
              then sent_multicast (ascii "GroupChat") (format_ipv4 os g.joined_group) g.joined_port
                  (length line)
              else socket_error (ascii "send GroupChat multicast") sk'.last_errno))
            io',
        ok,
      )

unfoldable pub send_group_chat :
    Os → GroupRoomCoordinator → Bytes → Io → GroupRoomCoordinator × Io × Bool
unfolding send_group_line
send_group_chat os g text io =
    let trimmed = trim_in_place text in
    if is_empty trimmed || ltb max_chat_message_bytes (length trimmed)
    then (g, io, false)
    else if is_empty g.active_room_name
    then (g, io, false)
    else elim g.mcast_sock [ none ↦ (g, io, false) | some sk ↦ send_group_line os g sk trimmed io ]

abbrev pub advertised : Bytes → ℕ → AdvertisedGroupRoom
advertised room now = record {
  room_id = room;
  room_name = room;
  multicast_ip = open_room_multicast_group;
  multicast_port = udp_port;
  last_advert = now;
}

-- The clock is read for the entry, and again by the pruning.
unfoldable pub on_room_announce : GroupRoomCoordinator → SecpMessage → ℕ → ℕ → GroupRoomCoordinator
unfolding prune_registry_unlocked
on_room_announce g msg now later =
    if is_empty msg.room || bytes_eq msg.room dash || is_empty msg.username
    then g
    else if not (bytes_eq msg.payload text_open)
    then g
    else prune_registry_unlocked
        (record g { registry = insert msg.room (advertised msg.room now) g.registry }) later

abbrev pub is_chat : SecpType → Bool
is_chat SecpType.chat = true
is_chat _ = false

unfoldable pub on_room_chat : GroupRoomCoordinator → SecpMessage → SockAddr → Io → Io
on_room_chat g msg from io =
    if not (is_chat msg.type)
    then io
    else if is_empty g.active_room_name
    then io
    else if not (bytes_eq msg.room g.active_room_name)
    then io
    else if is_empty msg.username || is_empty msg.payload
    then io
    else if bytes_eq msg.username g.username
    then io
    else if g.on_group_msg
    then emit (group_message g.active_room_name msg.username msg.payload)
        (emit (log (recv_multicast (ascii "CHAT(open room)") from (length msg.payload))) io)
    else io

unfoldable pub recv_multicast_datagram :
    Os → GroupRoomCoordinator → ℕ → Io → GroupRoomCoordinator × Io × Datagram
recv_multicast_datagram os g size io = elim g.mcast_sock [
  | none ↦ (g, io, none)
  | some sk ↦
      let (sk', d) = recv_from os io.calls sk size in
      (record g { mcast_sock = some sk' }, record io { calls = io.calls + 1 }, d)
]
