-- ===== src/Direct/Handshake.antt =====
-- Two copies of DirectMessageService: an invitation from one, its acceptance by the other, and the
-- first message back.
use nettverk.Prelude.{
  ℕ, ◌/◌, ◌%◌, ◌≡◌, refl, ◌∙◌, true, false, none, some, ◌++◌, Bytes, ascii, find, find-insert,
  bytes_eq, bytes_eq_refl, contains, is_empty, length, ltb, arith,
}
use nettverk.Net.{SockAddr, Os, udp_port}
use nettverk.Io.{Io, private_message, emit}
use nettverk.Secp.{
  SecpMessage, SecpType, invite, chat, build_secp_line, parse_secp_line, fields_ok, is_room_ok,
  is_username_ok, is_payload_ok,
}
use nettverk.Secp.Fields.{username_ok}
use nettverk.Secp.Accepted.{IsWord, word-is_room_ok, word-is_payload_ok}
use nettverk.Secp.RoundTrip.{parse-build}
use nettverk.Trim.{trim_in_place}
use nettverk.Direct.State.{
  Session, DirectMessageService, active, is_incoming, same_endpoint, make_unicast_dest,
  make_session_id, hex_digit, closed_to,
}
use nettverk.Direct.Commands.{accept_invite, outgoing_session}
use nettverk.Direct.Receive.{on_invite, on_room_chat, is_from_peer, incoming_session, is_incomplete}
use nettverk.Direct.Delivery.{on_room_chat_delivers}

hex_digit-IsWord : (n : ℕ) → IsWord (hex_digit (n % 16))
hex_digit-IsWord n = ground arith

-- Every session id that is drawn is a room name that the protocol accepts.
pub make_session_id-is_room_ok : (r : ℕ) → is_room_ok (make_session_id r) ≡ true
unfolding make_session_id
make_session_id-is_room_ok r =
    word-is_room_ok _ _ _
      (
        hex_digit-IsWord (r / 1048576),
        (
          hex_digit-IsWord (r / 65536),
          (
            hex_digit-IsWord (r / 4096),
            (hex_digit-IsWord (r / 256), (hex_digit-IsWord (r / 16), (hex_digit-IsWord r, tt))),
          ),
        ),
      )
      (omega arith)

invitation-is_payload_ok :
    (u : Bytes) → is_username_ok u ≡ true → is_payload_ok (closed_to ++ u) ≡ true
invitation-is_payload_ok u ok =
    word-is_payload_ok b'C' b'L' (ascii "OSED;to=") u (omega arith) (omega arith) ok

-- The message that the invitation's line reads back as.
abbrev pub invitation : Bytes → Bytes → Bytes → SecpMessage
invitation sid from to = record {
  type = invite;
  room = sid;
  username = from;
  payload = closed_to ++ to;
}

abbrev pub chat_message : Bytes → Bytes → Bytes → SecpMessage
chat_message sid from text = record { type = chat; room = sid; username = from; payload = text }

-- The line of an invitation is never refused, and reads back as the invitation.
pub parse-invitation :
    (r : ℕ) (from to : Bytes)
    → is_username_ok from ≡ true
    → is_username_ok to ≡ true
    → parse_secp_line (build_secp_line invite (make_session_id r) from (closed_to ++ to))
      ≡ some (invitation (make_session_id r) from to)
parse-invitation r from to ok ok' =
    (parse-build invite (make_session_id r) from (closed_to ++ to) refl (
      unfold fields_ok in rw (make_session_id-is_room_ok r, ok, invitation-is_payload_ok to ok'))).1

absent-contains :
    (k : Bytes) (d : DirectMessageService)
    → find k d.sessions ≡ none
    → contains k d.sessions ≡ false
unfolding contains
absent-contains k d e = rw (e, contains)

-- The invited side stores the invitation as pending, unless the room is taken.
pub invitation_stored :
    (os : Os) (d : DirectMessageService) (sid from to : Bytes) (addr : SockAddr) (c u : ℕ) (io : Io)
    → is_incomplete (invitation sid from to) ≡ false
    → d.self_username ≡ to
    → find sid d.sessions ≡ none
    → find sid (on_invite os d (invitation sid from to) addr c u io).0.sessions
      ≡ some (incoming_session (invitation sid from to) (make_unicast_dest os addr udp_port) c u)
unfolding on_invite
invitation_stored os d sid from to addr c u io whole self e =
    rw (whole, self, bytes_eq_refl to, absent-contains sid d e)
      (find-insert sid sid _ d.sessions ∙ rw (bytes_eq_refl sid))

-- The user's acceptance activates it.
accept_stored :
    (d : DirectMessageService) (room sid : Bytes) (now : ℕ) (io : Io) (s : Session)
    → trim_in_place room ≡ sid
    → is_empty sid ≡ false
    → ltb 32 (length sid) ≡ false
    → find sid d.sessions ≡ some s
    → is_incoming s.state ≡ true
    → find sid (accept_invite d room now io).0.sessions
      ≡ some (record s { state = active; last_update = now })
unfolding accept_invite
accept_stored d room sid now io s typed h k e i =
    rw (typed, h, k, e, i, typed) (find-insert sid sid _ d.sessions ∙ rw (bytes_eq_refl sid))

pub filled-incomplete :
    (t : SecpType) (r : ℕ) (from payload : Bytes)
    → is_empty from ≡ false
    → is_empty payload ≡ false
    → is_incomplete
        (record { type = t; room = make_session_id r; username = from; payload = payload })
      ≡ false
unfolding make_session_id bytes_eq
filled-incomplete t r from payload h k = ground arith

pub session_id_short : (r : ℕ) → ltb 32 (length (make_session_id r)) ≡ false
unfolding make_session_id
session_id_short r = refl

pub session_id_filled : (r : ℕ) → is_empty (make_session_id r) ≡ false
unfolding make_session_id
session_id_filled r = refl

from_endpoint :
    (os : Os) (s : Session) (msg : SecpMessage) (from : SockAddr)
    → same_endpoint s.peer_addr (make_unicast_dest os from udp_port) ≡ true
    → msg.username ≡ s.peer_username
    → is_from_peer os s msg from ≡ true
unfolding is_from_peer
from_endpoint os s msg from e n = rw (e, n, bytes_eq_refl s.peer_username) (ground arith)

-- The two steps on the invited side.
invitation_accepted :
    (os : Os) (db : DirectMessageService) (room a b : Bytes) (from_a : SockAddr)
    (r received updated accepted : ℕ) (io io' : Io)
    → is_incomplete (invitation (make_session_id r) a b) ≡ false
    → db.self_username ≡ b
    → trim_in_place room ≡ make_session_id r
    → find (make_session_id r) db.sessions ≡ none
    → let db1 =
        (on_invite os db (invitation (make_session_id r) a b) from_a received updated io).0 in
      find (make_session_id r) (accept_invite db1 room accepted io').0.sessions
      ≡ some
          (record (incoming_session
            (invitation (make_session_id r) a b)
            (make_unicast_dest os from_a udp_port)
            received
            updated) { state = active; last_update = accepted })
invitation_accepted os db room a b from_a r received updated accepted io io' whole self typed free =
    accept_stored
      (on_invite os db (invitation (make_session_id r) a b) from_a received updated io).0 room
      (make_session_id r) accepted io' _ typed (session_id_filled r) (session_id_short r)
      (invitation_stored os db (make_session_id r) a b from_a received updated io whole self free)
      refl

-- User `a` has invited user `b` into a room of a drawn name, `b` has no session of that name, and the
-- protocol accepts both names and a text that is not empty. The line of the invitation reads back as
-- the invitation; once `b` has received it and accepted what trims to that room, `b` has an active
-- session with `a`. The line of `b`'s first message reads back as that message; once `a`, with a
-- callback for messages, has received it from the endpoint that was invited, `a` has shown its text
-- and has an active session with `b`.
pub handshake :
    (os : Os) (a b text room : Bytes) (r invited received updated accepted answered : ℕ)
    (da db : DirectMessageService) (dest from_a from_b : SockAddr) (io_a io_b io_b' : Io)
    → is_username_ok a ≡ true
    → is_username_ok b ≡ true
    → is_payload_ok text ≡ true
    → is_empty text ≡ false
    → db.self_username ≡ b
    → trim_in_place room ≡ make_session_id r
    → find (make_session_id r) da.sessions
      ≡ some (outgoing_session (make_session_id r) b dest invited)
    → find (make_session_id r) db.sessions ≡ none
    → same_endpoint dest (make_unicast_dest os from_b udp_port) ≡ true
    → da.on_private ≡ true
    → let sid = make_session_id r in
      let db1 = (on_invite os db (invitation sid a b) from_a received updated io_b).0 in
      let db2 = (accept_invite db1 room accepted io_b').0 in
      let da' = on_room_chat os da (chat_message sid b text) from_b answered io_a in
      (parse_secp_line (build_secp_line invite sid a (closed_to ++ b)) ≡ some (invitation sid a b))
      × (find sid db2.sessions
          ≡ some
              (record (incoming_session
                (invitation sid a b)
                (make_unicast_dest os from_a udp_port)
                received
                updated) { state = active; last_update = accepted }))
      × (parse_secp_line (build_secp_line chat sid b text) ≡ some (chat_message sid b text))
      × (da'.1 ≡ emit (private_message sid b text) io_a)
      × (find sid da'.0.sessions
          ≡ some (record (outgoing_session sid b dest invited) {
            state = active;
            last_update = answered;
          }))
handshake os a b text room r invited received updated accepted answered da db dest from_a from_b
      io_a io_b io_b' ok_a ok_b ok_t some_t self typed out free addr cb =
    let named = username_ok a ok_a in
    let named' = username_ok b ok_b in
    let sid = make_session_id r in
    let shown =
      on_room_chat_delivers os da (chat_message sid b text) from_b answered io_a
        (outgoing_session sid b dest invited) refl (filled-incomplete chat r b text named'.2 some_t)
        out
        (from_endpoint os (outgoing_session sid b dest invited) (chat_message sid b text) from_b
          addr refl)
        refl cb in
    (
      parse-invitation r a b ok_a ok_b,
      invitation_accepted os db room a b from_a r received updated accepted io_b io_b'
          (filled-incomplete invite r a (closed_to ++ b) named.2 refl) self typed free,
      (parse-build chat sid b text refl
          (unfold fields_ok in rw (make_session_id-is_room_ok r, ok_b, ok_t))).1,
      shown.0 ∙ rw named'.2,
      shown.1,
    )
