-- ===== src/Examples/Rooms.antt =====
-- Open rooms at concrete inputs.
use nettverk.Prelude.{
  ◌≡◌, refl, true, false, some, none, ascii, insert, contains, retain, bytes_eq, strip_back,
}
use nettverk.Secp.{SecpMessage, room_announce}
use nettverk.Trim.{trim_in_place}
use nettverk.UdpSocket.{
  open_udp, set_reuse_address, bind, set_multicast_outbound_interface, multicast_add_membership,
  set_multicast_ttl, set_multicast_loop,
}
use nettverk.Groups.State.{
  GroupRoomCoordinator, new, prune_registry_unlocked, has_active_membership, active_room_id,
}
use nettverk.Groups.Channel.{bind_multicast_channel}
use nettverk.Groups.Rooms.{create_room, join_room}
use nettverk.Groups.Messages.{on_room_announce, text_open, send_group_chat}
use nettverk.Groups.Membership.{IsValid, is_bad_name}
use nettverk.Groups.Reach.{Reachable, start, after, announced, create, Reachable-IsValid}
use nettverk.Groups.Entry.{create_room_enters, join_room_enters, failed_join_blocks}
use nettverk.Examples.{kari, ola, hei, fjell, good_os, full_os, start_io}

-- The announcement of a room, and a coordinator that has heard it.
abbrev notice : SecpMessage
notice = record { type = room_announce; room = fjell; username = ola; payload = text_open }

abbrev informed : GroupRoomCoordinator
informed = on_room_announce (new 1 kari) notice 100 100

informed-Reachable : Reachable good_os informed
informed-Reachable = after (start 1 kari) (announced notice 100 100)

-- A coordinator in a room of its own, which has then heard the announcement.
abbrev owner : GroupRoomCoordinator
owner = (create_room good_os (new 1 kari) (ascii " skog ") start_io).0

owner-Reachable : Reachable good_os owner
owner-Reachable = after (start 1 kari) (create (ascii " skog ") start_io)

abbrev informed_owner : GroupRoomCoordinator
informed_owner = on_room_announce owner notice 100 100

Reachable-IsValid_example : IsValid informed_owner
Reachable-IsValid_example =
    Reachable-IsValid good_os informed_owner (after owner-Reachable (announced notice 100 100))

create_answers : (create_room good_os (new 1 kari) (ascii " skog ") start_io).2 ≡ true
unfolding create_room trim_in_place strip_back bind_multicast_channel open_udp set_reuse_address
    bind set_multicast_outbound_interface multicast_add_membership set_multicast_ttl
    set_multicast_loop
create_answers = refl

create_room_enters_example :
    (has_active_membership owner ≡ true)
    × (active_room_id owner ≡ some (trim_in_place (ascii " skog ")))
    × (owner.owned ≡ some (trim_in_place (ascii " skog ")))
    × (is_bad_name (trim_in_place (ascii " skog ")) ≡ false)
create_room_enters_example =
    create_room_enters good_os (new 1 kari) (ascii " skog ") start_io create_answers

join_answers : (join_room good_os informed fjell 200 start_io).2 ≡ true
unfolding join_room bytes_eq on_room_announce new contains retain insert bind_multicast_channel
    open_udp set_reuse_address bind set_multicast_outbound_interface multicast_add_membership
    set_multicast_ttl set_multicast_loop
join_answers = refl

join_room_enters_example :
    (has_active_membership (join_room good_os informed fjell 200 start_io).0 ≡ true)
    × (active_room_id (join_room good_os informed fjell 200 start_io).0 ≡ some fjell)
    × ((join_room good_os informed fjell 200 start_io).0.owned ≡ none)
    × (contains fjell (prune_registry_unlocked informed 200).registry ≡ true)
    × (bytes_eq informed.active_room_name fjell ≡ false)
join_room_enters_example =
    join_room_enters good_os informed fjell 200 start_io
      (Reachable-IsValid good_os informed informed-Reachable) join_answers

-- The join of the announced room by the owner of another, with no descriptor left.
abbrev stuck : GroupRoomCoordinator
stuck = (join_room full_os informed_owner fjell 200 start_io).0

failed_join_blocks_example :
    (stuck.active_room_name ≡ informed_owner.active_room_name)
    × (has_active_membership stuck ≡ false)
    × ((send_group_chat good_os stuck hei start_io).2 ≡ false)
    × ((join_room good_os stuck informed_owner.active_room_name 300 start_io).2 ≡ false)
    × (has_active_membership
          (join_room good_os stuck informed_owner.active_room_name 300 start_io).0
        ≡ false)
unfolding join_room create_room on_room_announce bytes_eq trim_in_place strip_back contains retain
    insert new bind_multicast_channel open_udp set_reuse_address bind
    set_multicast_outbound_interface multicast_add_membership set_multicast_ttl set_multicast_loop
failed_join_blocks_example =
    failed_join_blocks full_os good_os informed_owner fjell hei 200 7 300 start_io start_io refl
      refl refl
