-- ===== src/Direct/State.antt =====
-- The state of DirectMessageService (oblig1_chattsystem/src/services/direct_message_service.cpp and
-- its header), its constructor and its static helpers. A callback that is set is a Boolean, and a
-- call of it is an effect.
use nettverk.Prelude.{
  ℕ, ◌+◌, ◌/◌, ◌%◌, Bool, true, false, ◌&&◌, none, some, [], ◌∷◌, Bytes, ascii, Dict, ltb, ◌==◌,
  if◌then◌else◌,
}
use nettverk.Net.{SockAddr, Os}
use nettverk.Io.{Io, status, emit}

pub data DirectSessionState : Type 0 where
  outgoing_pending incoming_pending active : DirectSessionState

abbrev pub is_outgoing : DirectSessionState → Bool
is_outgoing outgoing_pending = true
is_outgoing _ = false

abbrev pub is_incoming : DirectSessionState → Bool
is_incoming incoming_pending = true
is_incoming _ = false

abbrev pub is_active : DirectSessionState → Bool
is_active active = true
is_active _ = false

pub record Session : Type 0 where
  pub state : DirectSessionState
  pub session_id : Bytes
  pub peer_username : Bytes
  pub peer_addr : SockAddr
  pub created_at : ℕ
  pub last_sent : ℕ
  pub last_update : ℕ

-- The pointers `socket_` and `users_` are Booleans: not `nullptr`.
pub record DirectMessageService : Type 0 where
  pub socket : Bool
  pub users : Bool
  pub self_username : Bytes
  pub sessions : Dict Session
  pub on_private : Bool
  pub on_invite_set : Bool
  pub on_status : Bool

pub record PendingInviteInfo : Type 0 where
  pub session_id : Bytes
  pub from_username : Bytes
  pub to_username : Bytes

pub record ActiveDirectSessionInfo : Type 0 where
  pub session_id : Bytes
  pub peer_username : Bytes
  pub peer_ip : Bytes

unfoldable pub new : Bytes → DirectMessageService
new self_username = record {
  socket = true;
  users = true;
  self_username = self_username;
  sessions = [];
  on_private = false;
  on_invite_set = false;
  on_status = false;
}

unfoldable pub set_on_private_message : DirectMessageService → Bool → DirectMessageService
set_on_private_message d cb = record d { on_private = cb }

unfoldable pub set_on_invite : DirectMessageService → Bool → DirectMessageService
set_on_invite d cb = record d { on_invite_set = cb }

unfoldable pub set_on_status : DirectMessageService → Bool → DirectMessageService
set_on_status d cb = record d { on_status = cb }

-- The method `status`.
unfoldable pub report : DirectMessageService → Bytes → Io → Io
report d msg io = if d.on_status then emit (status msg) io else io

unfoldable pub make_unicast_dest : Os → SockAddr → ℕ → SockAddr
make_unicast_dest os peer port = record peer { port = os.htons port }

unfoldable pub sockaddr_ipv4_string : Os → SockAddr → Bytes
sockaddr_ipv4_string os a = elim (os.inet_ntop a.ip) [ none ↦ [] | some text ↦ text ]

unfoldable pub same_endpoint : SockAddr → SockAddr → Bool
same_endpoint a b = (a.family == b.family) && (a.port == b.port) && (a.ip == b.ip)

-- One lower-case digit of `%x`.
abbrev pub hex_digit : ℕ → ℕ
hex_digit n = if ltb n 10 then 0x30 + n else 0x57 + n

-- `%06x` of the number `r` that was drawn below 2^24.
unfoldable pub make_session_id : ℕ → Bytes
make_session_id r =
    hex_digit (r / 1048576 % 16)
    ∷ hex_digit (r / 65536 % 16)
    ∷ hex_digit (r / 4096 % 16)
    ∷ hex_digit (r / 256 % 16)
    ∷ hex_digit (r / 16 % 16)
    ∷ hex_digit (r % 16)
    ∷ []

abbrev pub closed_to : Bytes
closed_to = ascii "CLOSED;to="
