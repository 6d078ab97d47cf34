-- ===== src/Direct/Steps.antt =====
-- DirectMessageService as a transition system: what the user, the net and the heartbeat thread do to
-- it, one call after the other (the mutex makes each call one step), and how one call may change one
-- session.
use nettverk.Prelude.{ℕ, ◌≡◌, true, false, Option, none, some, List, [], ◌∷◌, Bytes}
use nettverk.Net.{SockAddr, Os}
use nettverk.Io.{Io}
use nettverk.Secp.{SecpMessage}
use nettverk.Trim.{trim_in_place}
use nettverk.Users.{UserDirectory}
use nettverk.Direct.State.{
  outgoing_pending, incoming_pending, active, is_active, Session, DirectMessageService,
}
use nettverk.Direct.Commands.{invite_user, accept_invite, decline_invite, send_private_chat}
use nettverk.Direct.Receive.{on_invite, on_room_chat, is_from_peer}
use nettverk.Direct.Upkeep.{prune_pending, resend_outgoing_pending}

pub data Event : Type 0 where
  invites : UserDirectory → Bytes → ℕ → ℕ → Event
  accepts : Bytes → ℕ → Event
  declines : Bytes → Bytes → Event
  sends : Bytes → Bytes → Event
  invite_arrives : SecpMessage → SockAddr → ℕ → ℕ → Event
  chat_arrives : SecpMessage → SockAddr → ℕ → Event
  prunes : ℕ → ℕ → Event
  resends : ℕ → ℕ → ℕ → Event

unfoldable pub step : Os → DirectMessageService × Io → Event → DirectMessageService × Io
step os (d, io) (invites users target random now) =
    let (d', io', r) = invite_user os users d target random now io in (d', io')
step os (d, io) (accepts room now) = let (d', io', r) = accept_invite d room now io in (d', io')
step os (d, io) (declines room reason) =
    let (d', io', r) = decline_invite d room reason io in (d', io')
step os (d, io) (sends sid text) = (d, (send_private_chat os d sid text io).0)
step os (d, io) (invite_arrives msg from created updated) =
    on_invite os d msg from created updated io
step os (d, io) (chat_arrives msg from now) = on_room_chat os d msg from now io
step os (d, io) (prunes now max_age) = prune_pending d now max_age io
step os (d, io) (resends now min_interval max_age) =
    resend_outgoing_pending os d now min_interval max_age io

unfoldable pub run : Os → DirectMessageService × Io → List Event → DirectMessageService × Io
run os s [] = s
run os s (e ∷ es) = run os (step os s e) es

-- Two sessions with one name, one peer and one address.
pub record SamePeer (s t : Session) : Type 0 where
  pub session_id : t.session_id ≡ s.session_id
  pub peer_username : t.peer_username ≡ s.peer_username
  pub peer_addr : t.peer_addr ≡ s.peer_addr
  pub created_at : t.created_at ≡ s.created_at

-- The user accepts the room.
abbrev pub Accepts : Event → Bytes → Type 0
Accepts (accepts room now) j = trim_in_place room ≡ j
Accepts _ j = ⊥

-- A chat message for the room comes from the session's peer.
abbrev pub Confirms : Os → Event → Bytes → Session → Type 0
Confirms os (chat_arrives msg from now) j s = (msg.room ≡ j) × (is_from_peer os s msg from ≡ true)
Confirms os _ j s = ⊥

-- What one call may do to the session `j`.
pub data Move (os : Os) (e : Event) (j : Bytes) (old new : Option Session) : Type 0 where
  stays : new ≡ old → Move os e j old new
  invited :
      (s : Session) → old ≡ none → new ≡ some s → s.state ≡ outgoing_pending → Move os e j old new
  notified :
      (s : Session) → old ≡ none → new ≡ some s → s.state ≡ incoming_pending → Move os e j old new
  accepted :
      (s t : Session)
      → old ≡ some s
      → s.state ≡ incoming_pending
      → new ≡ some t
      → t.state ≡ active
      → SamePeer s t
      → Accepts e j
      → Move os e j old new
  confirmed :
      (s t : Session)
      → old ≡ some s
      → s.state ≡ outgoing_pending
      → new ≡ some t
      → t.state ≡ active
      → SamePeer s t
      → Confirms os e j s
      → Move os e j old new
  resent :
      (s t : Session)
      → old ≡ some s
      → s.state ≡ outgoing_pending
      → new ≡ some t
      → t.state ≡ outgoing_pending
      → SamePeer s t
      → Move os e j old new
  removed :
      (s : Session) → old ≡ some s → is_active s.state ≡ false → new ≡ none → Move os e j old new
