-- ===== src/Direct/Delivery.antt =====
-- Private messages of DirectMessageService: which are handed to the user, which go on the net.
use nettverk.Prelude.{
  ℕ, ◌≡◌, ◌⊎◌, ◌∙◌, true, false, Bool, not, ◌||◌, ◌&&◌, some, ◌∷◌, Bytes, find, bytes_eq_refl,
  find-insert, is_empty, length, ltb, Bool-cases, Option-cases, inl, inr, arith, if◌then◌else◌,
  ascii,
}
use nettverk.Net.{SockAddr, Os}
use nettverk.Io.{
  Io, LogCall, send, log, private_message, emit, send_udp, sent_unicast, socket_error,
}
use nettverk.Secp.{SecpMessage, chat, build_secp_line, parse_secp_line}
use nettverk.Secp.RoundTrip.{parse-build, build-filled_iff}
use nettverk.Trim.{trim_in_place}
use nettverk.Direct.State.{
  Session, DirectMessageService, active, is_active, is_incoming, is_outgoing,
}
use nettverk.Direct.Commands.{send_private_chat, send_chat_to}
use nettverk.Direct.Receive.{
  on_room_chat, deliver, is_from_peer, is_incomplete, is_chat, sender_of, heard_from,
}
use nettverk.Direct.Cases.{on_room_chat_cases}

deliver_out :
    (d : DirectMessageService) (msg : SecpMessage) (s : Session) (now : ℕ) (io : Io)
    → (deliver d msg s now io).1 ≡ (
        if not (is_incoming s.state) && d.on_private
        then emit (private_message msg.room (sender_of s msg) msg.payload) io
        else io)
unfolding deliver
deliver_out d msg s now io = elim (Bool-cases (is_outgoing s.state)) [
  | inl e ↦ ground arith
  | inr e ↦ ground arith
]

-- Whatever arrives, `on_room_chat` either shows nothing, or shows exactly one message: in the room
-- of a session that is not an unanswered invitation from the peer, from that session's endpoint and
-- under its peer's name.
pub on_room_chat_shows :
    (os : Os) (d : DirectMessageService) (msg : SecpMessage) (from : SockAddr) (now : ℕ) (io : Io)
    → ((on_room_chat os d msg from now io).1 ≡ io)
      ⊎ ((s : Session) × (find msg.room d.sessions ≡ some s)
          × (is_incoming s.state ≡ false)
          × (is_from_peer os s msg from ≡ true)
          × ((on_room_chat os d msg from now io).1
              ≡ emit (private_message msg.room (sender_of s msg) msg.payload) io))
on_room_chat_shows os d msg from now io = elim (on_room_chat_cases os d msg from now io) [
  | inl e ↦ inl (rw e)
  | inr (s, e, p, r) ↦ elim (Bool-cases (not (is_incoming s.state) && d.on_private)) [
    | inl g ↦ inr (s, e, ground arith, p, rw r (deliver_out d msg s now io ∙ rw g))
    | inr g ↦ inl (rw r (deliver_out d msg s now io ∙ rw g))
  ]
]

deliver_session :
    (d : DirectMessageService) (msg : SecpMessage) (s : Session) (now : ℕ) (io : Io)
    → find msg.room d.sessions ≡ some s
    → find msg.room (deliver d msg s now io).0.sessions ≡ some (heard_from s now)
unfolding deliver
deliver_session d msg s now io e = elim (Bool-cases (is_outgoing s.state)) [
  | inl g ↦ rw (
    g,
    find-insert msg.room msg.room (record s { state = active; last_update = now }) d.sessions,
    bytes_eq_refl msg.room,
  )
  | inr g ↦ ground arith
]

chat_from_peer :
    (os : Os) (d : DirectMessageService) (msg : SecpMessage) (from : SockAddr) (now : ℕ) (io : Io)
    (s : Session)
    → is_chat msg.type ≡ true
    → is_incomplete msg ≡ false
    → find msg.room d.sessions ≡ some s
    → is_from_peer os s msg from ≡ true
    → on_room_chat os d msg from now io ≡ deliver d msg s now io
unfolding on_room_chat
chat_from_peer os d msg from now io s c f e p = rw (c, f, e, on_room_chat, p)

-- A complete chat message from the peer of a session that is active, or that the user has invited
-- to, is shown where the callback is set, and leaves the session active.
pub on_room_chat_delivers :
    (os : Os) (d : DirectMessageService) (msg : SecpMessage) (from : SockAddr) (now : ℕ) (io : Io)
    (s : Session)
    → is_chat msg.type ≡ true
    → is_incomplete msg ≡ false
    → find msg.room d.sessions ≡ some s
    → is_from_peer os s msg from ≡ true
    → is_incoming s.state ≡ false
    → d.on_private ≡ true
    → ((on_room_chat os d msg from now io).1
        ≡ emit (private_message msg.room (sender_of s msg) msg.payload) io)
      × (find msg.room (on_room_chat os d msg from now io).0.sessions ≡ some (heard_from s now))
      × ((heard_from s now).state ≡ active)
on_room_chat_delivers os d msg from now io s c f e p i cb =
    rw (chat_from_peer os d msg from now io s c f e p)
      (deliver_out d msg s now io ∙ rw (i, cb), deliver_session d msg s now io e, ground arith)

-- The line for a private message, where the checks let it be built.
abbrev pub chat_line : DirectMessageService → Bytes → Bytes → Bytes
chat_line d sid text = build_secp_line chat (trim_in_place sid) d.self_username (trim_in_place text)

abbrev pub sent_log : SockAddr → Bytes → Io → Bool → LogCall
sent_log peer line io ok =
    if ok
    then sent_unicast (ascii "CHAT(CLOSED)") peer (length line)
    else socket_error (ascii "send DirectChat unicast") io.udp.last_errno

chat_line-parse :
    (d : DirectMessageService) (sid text : Bytes)
    → is_empty (chat_line d sid text) ≡ false
    → parse_secp_line (chat_line d sid text)
      ≡ some (record {
        type = chat;
        room = trim_in_place sid;
        username = d.self_username;
        payload = trim_in_place text;
      })
chat_line-parse d sid text h =
    let (known, ok) =
      (build-filled_iff chat (trim_in_place sid) d.self_username (trim_in_place text)).0 h in
    (parse-build chat (trim_in_place sid) d.self_username (trim_in_place text) known ok).1

send_private_chat_reaches :
    (os : Os) (d : DirectMessageService) (sid text : Bytes) (io : Io)
    → (send_private_chat os d sid text io ≡ (io, false))
      ⊎ ((s : Session) × (find (trim_in_place sid) d.sessions ≡ some s)
          × (s.state ≡ active)
          × (is_empty (trim_in_place text) ≡ false)
          × (send_private_chat os d sid text io
              ≡ send_chat_to os d (trim_in_place sid) (trim_in_place text) s.peer_addr io))
unfolding send_private_chat
send_private_chat_reaches os d sid text io =
    elim (Option-cases (find (trim_in_place sid) d.sessions)) [
      | inl e ↦ inl (ground arith)
      | inr (s, e) ↦ elim (Bool-cases (not d.socket)) [
        | inl g ↦ inl (rw g)
        | inr g ↦ elim (Bool-cases (ltb 32 (length (trim_in_place sid)))) [
          | inl h ↦ inl (rw (g, h))
          | inr h ↦
              elim (Bool-cases (
                is_empty (trim_in_place sid)
                || is_empty (trim_in_place text)
                || ltb 512 (length (trim_in_place text)))) [
                  | inl k ↦ inl (rw (g, h, k))
                  | inr k ↦ elim (Bool-cases (is_active s.state)) [
                    | inr a ↦ inl (rw (g, h, k, e, send_private_chat, a))
                    | inl a ↦
                        inr
                          (s, e, ground arith, ground arith, rw (g, h, k, e, send_private_chat, a))
                  ]
                ]
        ]
      ]
    ]

-- `send_chat_to` with a line that was built.
send_chat_to_out :
    (os : Os) (d : DirectMessageService) (sid msg : Bytes) (peer : SockAddr) (io : Io)
    → is_empty (build_secp_line chat sid d.self_username msg) ≡ false
    → let line = build_secp_line chat sid d.self_username msg in
      let r = send_udp os io line peer in
      ((send_chat_to os d sid msg peer io).1 ≡ r.1)
      × ((send_chat_to os d sid msg peer io).0.out
          ≡ log (sent_log peer line r.0 r.1) ∷ send io.udp.fd line peer r.1 ∷ io.out)
unfolding send_chat_to send_udp
send_chat_to_out os d sid msg peer io h = (rw h, rw h)

-- `send_private_chat` either does nothing and answers false, or there is an active session of the
-- trimmed name and exactly one line is sent, to that session's peer; the line reads back as the
-- trimmed text in that room under one's own name, and the answer is that of the socket.
pub send_private_chat_cases :
    (os : Os) (d : DirectMessageService) (sid text : Bytes) (io : Io)
    → (send_private_chat os d sid text io ≡ (io, false))
      ⊎ ((s : Session) × (find (trim_in_place sid) d.sessions ≡ some s)
          × (s.state ≡ active)
          × (is_empty (trim_in_place text) ≡ false)
          × (parse_secp_line (chat_line d sid text)
              ≡ some (record {
                type = chat;
                room = trim_in_place sid;
                username = d.self_username;
                payload = trim_in_place text;
              }))
          × ((send_private_chat os d sid text io).1
              ≡ (send_udp os io (chat_line d sid text) s.peer_addr).1)
          × ((send_private_chat os d sid text io).0.out
              ≡ log (
                  sent_log s.peer_addr
                    (chat_line d sid text)
                    (send_udp os io (chat_line d sid text) s.peer_addr).0
                    (send_udp os io (chat_line d sid text) s.peer_addr).1)
                ∷ send io.udp.fd
                    (chat_line d sid text)
                    s.peer_addr
                    (send_udp os io (chat_line d sid text) s.peer_addr).1
                ∷ io.out))
send_private_chat_cases os d sid text io = elim (send_private_chat_reaches os d sid text io) [
  | inl e ↦ inl e
  | inr (s, e, a, t, r) ↦ elim (Bool-cases (is_empty (chat_line d sid text))) [
    | inl h ↦ inl (r ∙ (unfold send_chat_to in rw h))
    | inr h ↦
        let (answer, out) =
          send_chat_to_out os d (trim_in_place sid) (trim_in_place text) s.peer_addr io h in
        inr (s, e, a, t, chat_line-parse d sid text h, rw r answer, rw r out)
  ]
]
