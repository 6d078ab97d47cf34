-- ===== src/Groups/State.antt =====
-- The state of GroupRoomCoordinator (oblig1_chattsystem/src/services/group_room_coordinator.cpp and
-- its header) and the operations that only read it, and the registry of announced rooms.
use nettverk.Prelude.{
  ℕ, ◌+◌, Bool, true, false, not, ◌&&◌, Option, none, some, List, [], Bytes, ascii, ℤ, negsuc,
  is_empty, Dict, map, sort_by, retain, ltb, if◌then◌else◌,
}
use nettverk.Net.{seconds}
use nettverk.UdpSocket.{UdpSocket}

abbrev pub group_registry_stale_age : ℕ
group_registry_stale_age = 25

-- `kOpenRoomMulticastGroup`
abbrev pub open_room_multicast_group : Bytes
open_room_multicast_group = ascii "239.0.0.1"

pub record AdvertisedGroupRoom : Type 0 where
  pub room_id : Bytes
  pub room_name : Bytes
  pub multicast_ip : Bytes
  pub multicast_port : ℕ
  pub last_advert : ℕ

-- `owned` is the `room_name` of `OwnedRoom`; `mcast_sock` is a `unique_ptr`.
pub record GroupRoomCoordinator : Type 0 where
  pub advert_sock : Bool
  pub local_if : ℕ
  pub username : Bytes
  pub registry : Dict AdvertisedGroupRoom
  pub owned : Option Bytes
  pub mcast_sock : Option UdpSocket
  pub active_room_name : Bytes
  pub joined_group : ℕ
  pub joined_port : ℕ
  pub joined_membership : Bool
  pub on_group_msg : Bool

unfoldable pub new : ℕ → Bytes → GroupRoomCoordinator
new local_interface username = record {
  advert_sock = true;
  local_if = local_interface;
  username = username;
  registry = [];
  owned = none;
  mcast_sock = none;
  active_room_name = [];
  joined_group = 0;
  joined_port = 0;
  joined_membership = false;
  on_group_msg = false;
}

unfoldable pub set_on_group_message : GroupRoomCoordinator → Bool → GroupRoomCoordinator
set_on_group_message g h = record g { on_group_msg = h }

-- `!(now - last_advert > kGroupRegistryStaleAge)`
abbrev pub is_current : ℕ → AdvertisedGroupRoom → Bool
is_current now r = not (ltb (r.last_advert + seconds group_registry_stale_age) now)

unfoldable pub prune_registry_unlocked : GroupRoomCoordinator → ℕ → GroupRoomCoordinator
prune_registry_unlocked g now = record g { registry = retain (is_current now) g.registry }

abbrev pub room_of : Bytes × AdvertisedGroupRoom → AdvertisedGroupRoom
room_of (k, v) = v

abbrev pub name_of : AdvertisedGroupRoom → Bytes
name_of r = r.room_name

unfoldable pub list_advertised_rooms :
    GroupRoomCoordinator → ℕ → GroupRoomCoordinator × List AdvertisedGroupRoom
unfolding prune_registry_unlocked
list_advertised_rooms g now =
    let g' = prune_registry_unlocked g now in (g', sort_by name_of (map room_of g'.registry))

abbrev pub is_held : Option UdpSocket → Bool
is_held none = false
is_held (some sk) = true

unfoldable pub has_active_membership : GroupRoomCoordinator → Bool
has_active_membership g = not (is_empty g.active_room_name) && is_held g.mcast_sock

unfoldable pub active_room_id : GroupRoomCoordinator → Option Bytes
active_room_id g = if is_empty g.active_room_name then none else some g.active_room_name

unfoldable pub multicast_fd : GroupRoomCoordinator → ℤ
multicast_fd g = elim g.mcast_sock [ none ↦ negsuc 0 | some sk ↦ sk.fd ]
