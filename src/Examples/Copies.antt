-- ===== src/Examples/Copies.antt =====
-- Lines from one copy of the program to another, and what the loop leaves alone, at concrete inputs.
use nettverk.Prelude.{
  ◌≡◌, refl, true, some, none, pos, [], ◌∷◌, ◌++◌, Bytes, ascii, find, bytes_eq, length, strip_back,
}
use nettverk.Net.{udp_port}
use nettverk.UdpSocket.{UdpSocket, send_to}
use nettverk.LocalEndpoint.{format_ipv4}
use nettverk.Io.{log, send, sent_broadcast, sent_multicast, send_udp}
use nettverk.Secp.{
  invite, build_secp_line, fields_ok, is_room_ok, contains_pipe_or_newline, is_username_ok,
  is_payload_ok, secp_type_name,
}
use nettverk.Utf8.{valid_utf8}
use nettverk.Trim.{trim_in_place}
use nettverk.Users.{find_address}
use nettverk.Discovery.{DiscoveryService, set_identity, send_presence_broadcast}
use nettverk.Discovery
use nettverk.Groups.State.{GroupRoomCoordinator, new}
use nettverk.Groups.Messages.{send_group_chat, broadcast_owned_advert, advertised, text_open}
use nettverk.Receive.Announce.{advert_line, advert_dest, announcement_reaches}
use nettverk.Direct.State.{Session, closed_to}
use nettverk.Direct.Receive.{incoming_session}
use nettverk.Receive.{Services, handle_datagram, run_receive_multiplex_loop}
use nettverk.Receive.EndToEnd.{received}
use nettverk.Receive.Consent.{SameRoom, loop_waits}
use nettverk.Receive.Presence.{presence_line, presence_reaches}
use nettverk.Receive.GroupChat.{group_line, group_dest, group_effects, group_chat_reaches}
use nettverk.Groups.Channel.{bind_multicast_channel}
use nettverk.Groups.Closes.{Replaced, bind_multicast_channel_closes}
use nettverk.Examples.{kari, ola, hei, fjell, good_os, host, start_io}
use nettverk.Examples.Traffic.{services, nobody-IsValid, rounds}

abbrev beacon : DiscoveryService
beacon = set_identity (Discovery.new good_os) ola 2

beacon_answers : (send_presence_broadcast good_os beacon start_io).1 ≡ true
unfolding send_presence_broadcast set_identity send_udp Discovery.new build_secp_line fields_ok
    is_room_ok bytes_eq is_username_ok contains_pipe_or_newline valid_utf8 is_payload_ok
    secp_type_name send_to
beacon_answers = refl

presence_reaches_example :
    ((send_presence_broadcast good_os beacon start_io).0.out
      ≡ log (sent_broadcast (ascii "PRESENCE") udp_port (length (presence_line good_os beacon)))
        ∷ send start_io.udp.fd (presence_line good_os beacon) beacon.broadcast_dest true
        ∷ start_io.out)
    × (find_address
          (handle_datagram good_os
            (ascii "recv udp")
            services
            (presence_line good_os beacon)
            (host 2)
            5
            6).users
          beacon.username
        ≡ some (host 2))
unfolding set_identity bytes_eq
presence_reaches_example =
    presence_reaches good_os good_os beacon (ascii "recv udp") (ascii "10.0.0.1") start_io services
      (host 2) 5 6 beacon_answers refl refl nobody-IsValid refl refl

-- A user in an open room.
abbrev member : Bytes → GroupRoomCoordinator
member name = record {
  advert_sock = true;
  local_if = 1;
  username = name;
  registry = [];
  owned = none;
  mcast_sock = some (record { fd = pos 5; last_errno = 0 });
  active_room_name = fjell;
  joined_group = 7;
  joined_port = udp_port;
  joined_membership = true;
  on_group_msg = true;
}

abbrev listener : Services
listener = record services { groups = member kari }

member_answers : (send_group_chat good_os (member ola) hei start_io).2 ≡ true
unfolding send_group_chat trim_in_place strip_back build_secp_line fields_ok is_room_ok bytes_eq
    contains_pipe_or_newline valid_utf8 is_username_ok is_payload_ok secp_type_name send_to
member_answers = refl

group_chat_reaches_example :
    ((sk : UdpSocket) × (some (record { fd = pos 5; last_errno = 0 }) ≡ some sk)
      × ((send_group_chat good_os (member ola) hei start_io).1.out
          ≡ log (
              sent_multicast
                (ascii "GroupChat")
                (format_ipv4 good_os 7)
                udp_port
                (length (group_line (member ola) hei)))
            ∷ send sk.fd (group_line (member ola) hei) (group_dest good_os (member ola)) true
            ∷ start_io.out))
    × ((handle_datagram good_os
          (ascii "recv multicast")
          listener
          (group_line (member ola) hei)
          (host 2)
          5
          6).io.out
        ≡ group_effects (bytes_eq ola kari) fjell ola (trim_in_place hei) (host 2) (
            log (received good_os (ascii "recv multicast") (host 2) (group_line (member ola) hei))
            ∷ start_io.out))
unfolding find bytes_eq
group_chat_reaches_example =
    group_chat_reaches good_os good_os (member ola) hei (ascii "recv multicast") start_io listener
      (host 2) 5 6 member_answers refl refl refl refl

abbrev waiting : Session
waiting =
    incoming_session
      (record { type = invite; room = fjell; username = ola; payload = closed_to ++ kari }) (host 2)
      1 1

abbrev invited : Services
invited = record services { direct = record services.direct { sessions = (fjell, waiting) ∷ [] } }

loop_waits_example :
    (find fjell (run_receive_multiplex_loop good_os rounds invited).direct.sessions ≡ some waiting)
    × SameRoom invited.groups (run_receive_multiplex_loop good_os rounds invited).groups
unfolding find bytes_eq
loop_waits_example = loop_waits good_os rounds invited fjell waiting refl refl

abbrev owner : GroupRoomCoordinator
owner = record (member ola) { owned = some fjell }

owner_ok : fields_ok fjell ola text_open ≡ true
unfolding fields_ok is_room_ok bytes_eq is_username_ok contains_pipe_or_newline valid_utf8
    is_payload_ok
owner_ok = refl

owner_sent : (send_udp good_os start_io (advert_line owner fjell) (advert_dest good_os)).1 ≡ true
unfolding send_udp send_to build_secp_line fields_ok is_room_ok bytes_eq contains_pipe_or_newline
    valid_utf8 is_username_ok is_payload_ok secp_type_name
owner_sent = refl

announcement_reaches_example :
    ((broadcast_owned_advert good_os owner start_io).out
      ≡ log (sent_broadcast (ascii "ROOM_ANNOUNCE") udp_port (length (advert_line owner fjell)))
        ∷ send start_io.udp.fd (advert_line owner fjell) (advert_dest good_os) true
        ∷ start_io.out)
    × (find fjell
          (handle_datagram good_os
            (ascii "recv udp")
            services
            (advert_line owner fjell)
            (host 2)
            5
            6).groups.registry
        ≡ some (advertised fjell 5))
unfolding bytes_eq new
announcement_reaches_example =
    announcement_reaches good_os good_os owner fjell (ascii "recv udp") start_io services (host 2) 5
      6 refl refl owner_ok refl owner_sent tt refl

bind_multicast_channel_closes_example :
    Replaced
      (pos 5)
      (member kari).mcast_sock
      start_io
      (bind_multicast_channel good_os (member kari) 7 udp_port start_io)
bind_multicast_channel_closes_example =
    bind_multicast_channel_closes good_os (member kari) 7 udp_port start_io
