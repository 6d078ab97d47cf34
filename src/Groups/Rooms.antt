-- ===== src/Groups/Rooms.antt =====
-- The user's commands of GroupRoomCoordinator
-- (oblig1_chattsystem/src/services/group_room_coordinator.cpp): create, join and leave a room.
use nettverk.Prelude.{
  ℕ, Bool, true, false, not, ◌||◌, Option, none, some, [], Bytes, bytes_eq, is_empty, length,
  contains, ltb, if◌then◌else◌,
}
use nettverk.Net.{Os, udp_port}
use nettverk.Io.{Io}
use nettverk.Secp.{max_room_name_bytes}
use nettverk.Trim.{trim_in_place}
use nettverk.Groups.State.{GroupRoomCoordinator, open_room_multicast_group, prune_registry_unlocked}
use nettverk.Groups.Channel.{leave_multicast_membership_unlocked, bind_multicast_channel}
use nettverk.Groups.Messages.{broadcast_owned_advert}

-- What `create_room` does behind `bind_multicast_channel`.
unfoldable pub own_room :
    Os → Bytes → GroupRoomCoordinator × Io × Option Bytes → GroupRoomCoordinator × Io × Bool
own_room os name (g, io, some err) = (g, io, false)
own_room os name (g, io, none) =
    let g' = record g { owned = some name; active_room_name = name } in
    (g', broadcast_owned_advert os g' io, true)

unfoldable pub create_room :
    Os → GroupRoomCoordinator → Bytes → Io → GroupRoomCoordinator × Io × Bool
unfolding own_room
create_room os g room_display_name io =
    let name = trim_in_place room_display_name in
    if is_empty name || ltb max_room_name_bytes (length name)
    then (g, io, false)
    else elim (os.inet_pton open_room_multicast_group) [
      | none ↦ (g, io, false)
      | some group ↦
          let (g1, io1) = leave_multicast_membership_unlocked os g io in
          own_room os name (
            bind_multicast_channel os (record g1 { active_room_name = []; owned = none }) group
              udp_port io1)
    ]

-- `owned_ && owned_->room_name != room_name`
abbrev pub owns_other : Option Bytes → Bytes → Bool
owns_other none room = false
owns_other (some own) room = not (bytes_eq own room)

-- What `join_room` does behind `bind_multicast_channel`.
unfoldable pub enter_room :
    Bytes → GroupRoomCoordinator × Io × Option Bytes → GroupRoomCoordinator × Io × Bool
enter_room name (g, io, some err) = (g, io, false)
enter_room name (g, io, none) = (record g { active_room_name = name }, io, true)

-- `join_room` for a room that is listed and not the active one.
unfoldable pub join_listed :
    Os → GroupRoomCoordinator → Bytes → ℕ → Io → GroupRoomCoordinator × Io × Bool
unfolding enter_room
join_listed os g room_name group io =
    let g1 = if owns_other g.owned room_name then record g { owned = none } else g in
    let (g2, io2) = leave_multicast_membership_unlocked os g1 io in
    enter_room room_name (bind_multicast_channel os g2 group udp_port io2)

unfoldable pub join_room :
    Os → GroupRoomCoordinator → Bytes → ℕ → Io → GroupRoomCoordinator × Io × Bool
unfolding join_listed prune_registry_unlocked
join_room os g room_name now io =
    if is_empty room_name
    then (g, io, false)
    else if ltb max_room_name_bytes (length room_name)
    then (g, io, false)
    else let g1 = prune_registry_unlocked g now in
      if bytes_eq g1.active_room_name room_name
      then (g1, io, false)
      else if not (contains room_name g1.registry)
      then (g1, io, false)
      else elim (os.inet_pton open_room_multicast_group) [
        | none ↦ (g1, io, false)
        | some group ↦ join_listed os g1 room_name group io
      ]

-- `owned_ && owned_->room_name == left`
abbrev pub owns : Option Bytes → Bytes → Bool
owns none room = false
owns (some own) room = bytes_eq own room

unfoldable pub leave_room : Os → GroupRoomCoordinator → Io → GroupRoomCoordinator × Io
leave_room os g io =
    let left = g.active_room_name in
    let (g1, io1) = leave_multicast_membership_unlocked os g io in
    let g2 = record g1 { active_room_name = [] } in
    (if owns g2.owned left then record g2 { owned = none } else g2, io1)
