-- ===== src/Users.antt =====
-- oblig1_chattsystem/src/state/user_directory.cpp and include/chat/state/user_directory.hpp.
-- `steady_clock::now()` is an argument. `now - a > d` on signed spans is `a + d < now`.
pub mod Laws
pub mod Order
use nettverk.Prelude.{
  ℕ, ◌+◌, Bool, not, ◌&&◌, Option, none, some, List, map, Bytes, bytes_eq, is_empty, Dict, find,
  insert, retain, ltb, if◌then◌else◌, sort_by,
}
use nettverk.Net.{SockAddr, Os, seconds}
use nettverk.LocalEndpoint.{format_ipv4}

pub record PeerInfo : Type 0 where
  pub username : Bytes
  pub address : SockAddr
  pub last_seen : ℕ

pub record PeerListEntry : Type 0 where
  pub username : Bytes
  pub ipv4 : Bytes
  pub last_seen : ℕ

pub record UserDirectory : Type 0 where
  pub self_username : Bytes
  pub peers : Dict PeerInfo

unfoldable pub set_self_username : UserDirectory → Bytes → UserDirectory
set_self_username d name = record d { self_username = name }

-- `now` is read after both returns.
unfoldable pub upsert : UserDirectory → ℕ → Bytes → SockAddr → UserDirectory
upsert d now username from =
    if is_empty username
    then d
    else if not (is_empty d.self_username) && bytes_eq username d.self_username
    then d
    else record d {
      peers =
          insert username (record { username = username; address = from; last_seen = now }) d.peers;
    }

-- `!(now - last_seen > max_age)`
abbrev pub is_fresh : ℕ → ℕ → PeerInfo → Bool
is_fresh now max_age p = not (ltb (p.last_seen + seconds max_age) now)

unfoldable pub prune_stale : UserDirectory → ℕ → ℕ → UserDirectory
prune_stale d now max_age = record d { peers = retain (is_fresh now max_age) d.peers }

abbrev address_of : Option PeerInfo → Option SockAddr
address_of none = none
address_of (some p) = some p.address

unfoldable pub find_address : UserDirectory → Bytes → Option SockAddr
find_address d username = address_of (find username d.peers)

unfoldable pub list_entry : Os → Bytes × PeerInfo → PeerListEntry
unfolding format_ipv4
list_entry os (name, p) = record {
  username = name;
  ipv4 = format_ipv4 os p.address.ip;
  last_seen = p.last_seen;
}

abbrev pub entry_name : PeerListEntry → Bytes
entry_name e = e.username

unfoldable pub snapshot_peers : Os → UserDirectory → List PeerListEntry
unfolding list_entry
snapshot_peers os d = sort_by entry_name (map (list_entry os) d.peers)
