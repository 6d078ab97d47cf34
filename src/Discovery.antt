-- ===== src/Discovery.antt =====
-- oblig1_chattsystem/src/services/discovery_service.cpp and its header: presence by broadcast.
use nettverk.Prelude.{
  ℕ, Bool, true, false, not, ◌&&◌, ◌||◌, Option, none, some, [], Bytes, ascii, bytes_eq, is_empty,
  length, ltb, ◌==◌, if◌then◌else◌,
}
use nettverk.Net.{SockAddr, Os, udp_port, af_inet, inaddr_broadcast}
use nettverk.Io.{Io, log, sent_broadcast, parsing_error, socket_error, emit, send_udp}
use nettverk.Secp.{presence, dash, build_secp_line, max_username_bytes}
use nettverk.Users.{UserDirectory, upsert, prune_stale}

abbrev pub discovery_peer_stale_age : ℕ
discovery_peer_stale_age = 18

-- `ipv4` is the number whose bytes in memory are the array `ipv4_`.
pub record DiscoveryService : Type 0 where
  pub socket : Bool
  pub username : Bytes
  pub ipv4 : ℕ
  pub broadcast_dest : SockAddr
  pub identity_ready : Bool

abbrev pub broadcast_addr : Os → SockAddr
broadcast_addr os = record { family = af_inet; port = os.htons udp_port; ip = inaddr_broadcast }

unfoldable pub new : Os → DiscoveryService
new os = record {
  socket = true;
  username = [];
  ipv4 = 0;
  broadcast_dest = broadcast_addr os;
  identity_ready = false;
}

unfoldable pub set_identity : DiscoveryService → Bytes → ℕ → DiscoveryService
set_identity d username local_ipv4 = record d {
  username = username;
  ipv4 = local_ipv4;
  identity_ready = not (is_empty username);
}

unfoldable pub ipv4_announced_matches_sender : ℕ → SockAddr → Bool
ipv4_announced_matches_sender announced from = announced == from.ip

-- `ip ? ip : "-"`
abbrev pub or_dash : Option Bytes → Bytes
or_dash none = dash
or_dash (some ip) = ip

unfoldable pub send_presence_broadcast : Os → DiscoveryService → Io → Io × Bool
send_presence_broadcast os d io =
    if not d.identity_ready || not d.socket
    then (io, false)
    else let line = build_secp_line presence dash d.username (or_dash (os.inet_ntop d.ipv4)) in
      if is_empty line
      then (emit (log (parsing_error (ascii "build PRESENCE"))) io, false)
      else let (io', ok) = send_udp os io line d.broadcast_dest in
        (
          emit
              (log (
                if ok
                then sent_broadcast (ascii "PRESENCE") udp_port (length line)
                else socket_error (ascii "send Presence broadcast") io'.udp.last_errno))
              io',
          ok,
        )

-- The payload names another address than the sender's.
abbrev pub is_mismatch : Bytes → Bytes → Bool
is_mismatch ip_payload from_ip =
    not (is_empty ip_payload) && not (bytes_eq ip_payload dash) && not (bytes_eq ip_payload from_ip)

-- The method changes the directory that `users_` points to.
unfoldable pub on_presence : Os → UserDirectory → ℕ → Bytes → Bytes → SockAddr → UserDirectory
on_presence os users now username ip_payload from =
    if is_empty username || ltb max_username_bytes (length username)
    then users
    else elim (os.inet_ntop from.ip) [
      | none ↦ users
      | some from_ip ↦
          if is_mismatch ip_payload from_ip then users else upsert users now username from
    ]

unfoldable pub prune_stale_peers : UserDirectory → ℕ → UserDirectory
prune_stale_peers users now = prune_stale users now discovery_peer_stale_age
