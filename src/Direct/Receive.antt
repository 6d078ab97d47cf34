-- ===== src/Direct/Receive.antt =====
-- The handlers of DirectMessageService for messages from the net.
use nettverk.Prelude.{
  ℕ, Bool, true, false, not, ◌&&◌, ◌||◌, Option, none, some, [], ◌∷◌, ◌++◌, Bytes, utf8, ascii,
  bytes_eq, is_empty, find, insert, contains, ◌==◌, if◌then◌else◌,
}
use nettverk.Net.{SockAddr, Os, udp_port}
use nettverk.Io.{Io, private_message, log, info, emit}
use nettverk.Secp.{SecpMessage, SecpType, dash}
use nettverk.Direct.State.{
  incoming_pending, active, is_outgoing, is_active, Session, DirectMessageService, report,
  make_unicast_dest, same_endpoint, closed_to,
}

-- The session that `on_invite` stores; the clock is read twice.
abbrev pub incoming_session : SecpMessage → SockAddr → ℕ → ℕ → Session
incoming_session msg peer created updated = record {
  state = incoming_pending;
  session_id = msg.room;
  peer_username = msg.username;
  peer_addr = peer;
  created_at = created;
  last_sent = 0;
  last_update = updated;
}

abbrev pub is_invite : SecpType → Bool
is_invite SecpType.invite = true
is_invite _ = false

abbrev pub is_chat : SecpType → Bool
is_chat SecpType.chat = true
is_chat _ = false

-- `msg.payload.rfind("CLOSED;to=", 0) != 0`: the payload does not begin with the text. The rest,
-- `substr`, where it does.
unfoldable pub strip_prefix : Bytes → Bytes → Option Bytes
strip_prefix [] s = some s
strip_prefix (c ∷ p) [] = none
strip_prefix (c ∷ p) (x ∷ s) = if c == x then strip_prefix p s else none

-- The guard that both handlers begin with.
abbrev pub is_incomplete : SecpMessage → Bool
is_incomplete msg =
    is_empty msg.room || bytes_eq msg.room dash || is_empty msg.username || is_empty msg.payload

unfoldable pub on_invite :
    Os → DirectMessageService → SecpMessage → SockAddr → ℕ → ℕ → Io → DirectMessageService × Io
unfolding report make_unicast_dest strip_prefix
on_invite os d msg from created updated io =
    if not (is_invite msg.type)
    then (d, io)
    else if is_incomplete msg
    then (d, io)
    else elim (strip_prefix closed_to msg.payload) [
      | none ↦ (d, io)
      | some to ↦
          if not (bytes_eq to d.self_username)
          then (d, io)
          else if contains msg.room d.sessions
          then (d, io)
          else (
            record d {
              sessions =
                  insert msg.room
                    (incoming_session msg (make_unicast_dest os from udp_port) created updated)
                    d.sessions;
            },
            report d
                (utf8 "Innkommende INVITE (lukket rom) fra \""
                  ++ msg.username
                  ++ utf8 "\". Rom: "
                  ++ msg.room
                  ++ utf8 " (bruk meny for å svare).")
                (emit
                  (log (
                    info (
                      ascii "invite received (CLOSED room): room="
                      ++ msg.room
                      ++ ascii " from \""
                      ++ msg.username
                      ++ ascii "\"")))
                  io),
          )
    ]

-- The session after a chat message from its peer: an outgoing invitation counts as accepted.
abbrev pub heard_from : Session → ℕ → Session
heard_from s now = if is_outgoing s.state then record s { state = active; last_update = now } else s

abbrev pub sender_of : Session → SecpMessage → Bytes
sender_of s msg = if is_empty s.peer_username then msg.username else s.peer_username

-- `on_room_chat` at a session that was found and that the sender matches.
unfoldable pub deliver :
    DirectMessageService → SecpMessage → Session → ℕ → Io → DirectMessageService × Io
deliver d msg s now io =
    let d' =
      if is_outgoing s.state
      then record d { sessions = insert msg.room (heard_from s now) d.sessions }
      else d in
    if not (is_active (heard_from s now).state) then (d', io) else (
      d',
      if d.on_private then emit (private_message msg.room (sender_of s msg) msg.payload) io else io,
    )

-- The endpoint and the name of the message are those of the session.
unfoldable pub is_from_peer : Os → Session → SecpMessage → SockAddr → Bool
unfolding make_unicast_dest same_endpoint
is_from_peer os s msg from =
    if not (same_endpoint s.peer_addr (make_unicast_dest os from udp_port))
    then false
    else if not (is_empty s.peer_username) && not (bytes_eq msg.username s.peer_username)
    then false
    else true

unfoldable pub on_room_chat :
    Os → DirectMessageService → SecpMessage → SockAddr → ℕ → Io → DirectMessageService × Io
unfolding deliver is_from_peer
on_room_chat os d msg from now io =
    if not (is_chat msg.type)
    then (d, io)
    else if is_incomplete msg
    then (d, io)
    else elim (find msg.room d.sessions) [
      | none ↦ (d, io)
      | some s ↦ if is_from_peer os s msg from then deliver d msg s now io else (d, io)
    ]
