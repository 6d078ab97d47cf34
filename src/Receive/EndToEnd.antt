-- ===== src/Receive/EndToEnd.antt =====
-- Lines that one copy of the program sends, in the receive loop of another.
use nettverk.Prelude.{
  ℕ, ◌≤◌, ◌≡◌, sym, ap, ◌∙◌, Bool, true, false, not, ◌||◌, ◌==◌, none, ◌∷◌, Bytes, bytes_eq,
  bytes_eq_refl, find, is_empty, length, ltb, Bool-cases, inl, inr, arith, if◌then◌else◌, ascii,
}
use nettverk.Net.{SockAddr, Os, udp_port}
use nettverk.Io.{
  Io, LogCall, send, log, info, lobby_message, sent_broadcast, socket_error, emit, send_udp,
}
use nettverk.Secp.{SecpMessage, SecpType, chat, build_secp_line}
use nettverk.Secp.RoundTrip.{parse-build, build-filled_iff}
use nettverk.Trim.{trim_in_place}
use nettverk.Lobby.{LobbyService, send_chat, on_lobby_chat, usn_chat}
use nettverk.Groups.State.{GroupRoomCoordinator}
use nettverk.Groups.Messages
use nettverk.Direct.Receive
use nettverk.Receive.Keeps.{logged}
use nettverk.Receive.{Services, dispatch_chat, dispatch, handle_datagram, received_text}

-- The line that is logged for a datagram.
abbrev pub received : Os → Bytes → SockAddr → Bytes → LogCall
received os label from line = info (received_text os label from (length line))

drop_short :
    (line : Bytes)
    → is_empty line ≡ false
    → length line ≤ 593
    → ((length line == 0) || ltb 1024 (length line)) ≡ false
drop_short line h k = ground arith

-- A line that `build_secp_line` returned is dispatched as the message that it was built from.
pub receive-build :
    (os : Os) (label : Bytes) (s : Services) (t : SecpType) (r u p : Bytes) (from : SockAddr)
    (now later : ℕ)
    → is_empty (build_secp_line t r u p) ≡ false
    → let line = build_secp_line t r u p in
      handle_datagram os label s line from now later
      ≡ dispatch os
          (logged s (received os label from line))
          (record { type = t; room = r; username = u; payload = p })
          from
          now
          later
unfolding handle_datagram
receive-build os label s t r u p from now later h =
    let (known, ok) = (build-filled_iff t r u p).0 h in
    let (short, parsed) = parse-build t r u p known ok in
    rw (drop_short (build_secp_line t r u p) h short, parsed)

-- The line of a message to the lobby.
abbrev pub lobby_line : Bytes → Bytes → Bytes
lobby_line username text =
    build_secp_line chat usn_chat (trim_in_place username) (trim_in_place text)

-- A datagram that the shared socket took is the newest one sent.
pub sent_out :
    (os : Os) (io : Io) (line : Bytes) (dest : SockAddr)
    → (send_udp os io line dest).1 ≡ true
    → (send_udp os io line dest).0.out ≡ send io.udp.fd line dest true ∷ io.out
unfolding send_udp
sent_out os io line dest h = rw h

abbrev lobby_log : Bytes → Io → Bool → LogCall
lobby_log line io ok =
    if ok
    then sent_broadcast (ascii "CHAT(USN Chat)") udp_port (length line)
    else socket_error (ascii "send LobbyChat broadcast") io.udp.last_errno

-- The guards of `send_chat` in one test.
abbrev pub lobby_refuses : LobbyService → Bytes → Bytes → Bool
lobby_refuses l u t =
    not l.socket || (is_empty u || is_empty t) || (ltb 32 (length u) || ltb 512 (length t))

send_chat-send_udp :
    (os : Os) (l : LobbyService) (username text : Bytes) (io : Io)
    → l.socket ≡ true
    → (is_empty (trim_in_place username) || is_empty (trim_in_place text)) ≡ false
    → (ltb 32 (length (trim_in_place username)) || ltb 512 (length (trim_in_place text))) ≡ false
    → is_empty (lobby_line username text) ≡ false
    → let r = send_udp os io (lobby_line username text) l.broadcast_dest in
      send_chat os l username text io
      ≡ (emit (log (lobby_log (lobby_line username text) r.0 r.1)) r.0, r.1)
unfolding send_chat
send_chat-send_udp os l username text io a b c d = rw (a, b, c, d)

-- What `send_chat` has checked and done where it answers true.
pub send_chat_sends :
    (os : Os) (l : LobbyService) (username text : Bytes) (io : Io)
    → (send_chat os l username text io).1 ≡ true
    → (lobby_refuses l (trim_in_place username) (trim_in_place text) ≡ false)
      × (is_empty (lobby_line username text) ≡ false)
      × ((send_chat os l username text io).0.out
          ≡ log
              (sent_broadcast (ascii "CHAT(USN Chat)") udp_port (length (lobby_line username text)))
            ∷ send io.udp.fd (lobby_line username text) l.broadcast_dest true
            ∷ io.out)
unfolding send_chat
send_chat_sends os l username text io h =
    let line = lobby_line username text in
    elim (Bool-cases (lobby_refuses l (trim_in_place username) (trim_in_place text))) [
      | inl a ↦ absurd (ground arith)
      | inr a ↦ elim (Bool-cases (is_empty line)) [
        | inl d ↦ absurd (ground arith)
        | inr d ↦
            let whole : send_chat os l username text io ≡ (
                let r = send_udp os io line l.broadcast_dest in
                (emit (log (lobby_log line r.0 r.1)) r.0, r.1)) =
              send_chat-send_udp os l username text io (ground arith) (ground arith) (ground arith)
                d in
            let sent : (send_udp os io line l.broadcast_dest).1 ≡ true =
              ap (λ r. r.1) (sym whole) ∙ h in
            (a, d, ap (λ r. r.0.out) whole ∙ rw (sent, sent_out os io line l.broadcast_dest sent))
      ]
    ]

lobby_shows :
    (l : LobbyService) (u t : Bytes) (io : Io)
    → l.on_message ≡ true
    → (is_empty u || is_empty t) ≡ false
    → (ltb 32 (length u) || ltb 512 (length t)) ≡ false
    → on_lobby_chat l u t io ≡ emit (lobby_message u t) io
unfolding on_lobby_chat
lobby_shows l u t io a b c = rw (a, b, c)

group_quiet :
    (g : GroupRoomCoordinator) (msg : SecpMessage) (from : SockAddr) (io : Io)
    → bytes_eq msg.room g.active_room_name ≡ false
    → Messages.on_room_chat g msg from io ≡ io
unfolding Messages.on_room_chat
group_quiet g msg from io h = ground arith

pub private_quiet :
    (os : Os) (s : Services) (msg : SecpMessage) (from : SockAddr) (now : ℕ) (io : Io)
    → find msg.room s.direct.sessions ≡ none
    → Receive.on_room_chat os s.direct msg from now io ≡ (s.direct, io)
unfolding Receive.on_room_chat
private_quiet os s msg from now io h = ground arith

-- A message to the lobby that `send_chat` answers true for went out as one line. Where that line
-- arrives, neither as a chat of the active open room nor of a private session, it is shown once, as
-- the trimmed text under the trimmed name.
pub lobby_reaches :
    (os os' : Os) (l : LobbyService) (username text label : Bytes) (io : Io) (s : Services)
    (from : SockAddr) (now later : ℕ)
    → (send_chat os l username text io).1 ≡ true
    → s.lobby.on_message ≡ true
    → bytes_eq usn_chat s.groups.active_room_name ≡ false
    → find usn_chat s.direct.sessions ≡ none
    → let line = lobby_line username text in
      ((send_chat os l username text io).0.out
        ≡ log (sent_broadcast (ascii "CHAT(USN Chat)") udp_port (length line))
          ∷ send io.udp.fd line l.broadcast_dest true
          ∷ io.out)
      × ((handle_datagram os' label s line from now later).io.out
          ≡ lobby_message (trim_in_place username) (trim_in_place text)
            ∷ log (received os' label from line)
            ∷ s.io.out)
unfolding dispatch dispatch_chat
lobby_reaches os os' l username text label io s from now later h cb other free =
    let u = trim_in_place username in
    let t = trim_in_place text in
    let (checked, filled, out) = send_chat_sends os l username text io h in
    let s' = logged s (received os' label from (lobby_line username text)) in
    let msg : SecpMessage = record { type = chat; room = usn_chat; username = u; payload = t } in
    let shown = lobby_shows s.lobby u t s'.io cb (ground arith) (ground arith) in
    (
      out,
      ap (λ r. r.io.out) (receive-build os' label s chat usn_chat u t from now later filled)
          ∙ ap (λ r. r.1.out) (private_quiet os' s' msg from now _ free)
          ∙ ap (λ r. r.out) (group_quiet s.groups msg from _ other)
          ∙ (rw (bytes_eq_refl usn_chat) (ap (λ r. r.out) shown)),
    )
