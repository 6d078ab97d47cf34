-- ===== src/Receive/GroupChat.antt =====
-- A chat line of an open room in the receive loop of another copy of the program, or of the same one.
use nettverk.Prelude.{
  ℕ, ◌≡◌, sym, ap, ◌∙◌, Bool, true, false, ◌||◌, some, none, List, ◌∷◌, Bytes, ascii, bytes_eq,
  bytes_eq_refl, find, is_empty, length, ltb, Bool-cases, Option-cases, inl, inr, arith,
  if◌then◌else◌,
}
use nettverk.Net.{SockAddr, Os, af_inet}
use nettverk.LocalEndpoint.{format_ipv4}
use nettverk.UdpSocket.{UdpSocket, send_to}
use nettverk.Io.{Io, Effect, log, send, sent_multicast, recv_multicast, group_message}
use nettverk.Secp.{SecpMessage, chat, build_secp_line, fields_ok, is_username_ok}
use nettverk.Secp.Fields.{username_ok}
use nettverk.Secp.RoundTrip.{build-filled_iff}
use nettverk.Trim.{trim_in_place}
use nettverk.Lobby.{usn_chat}
use nettverk.Groups.State.{GroupRoomCoordinator}
use nettverk.Groups.Messages.{send_group_line, send_group_chat, on_room_chat}
use nettverk.Receive.Keeps.{logged}
use nettverk.Receive.EndToEnd.{receive-build, received, private_quiet}
use nettverk.Receive.{Services, dispatch, dispatch_chat, handle_datagram}

-- The line that `send_group_chat` builds, and where it goes.
abbrev pub group_line : GroupRoomCoordinator → Bytes → Bytes
group_line g text = build_secp_line chat g.active_room_name g.username (trim_in_place text)

abbrev pub group_dest : Os → GroupRoomCoordinator → SockAddr
group_dest os g = record { family = af_inet; port = os.htons g.joined_port; ip = g.joined_group }

line_sends :
    (os : Os) (g : GroupRoomCoordinator) (sk : UdpSocket) (text : Bytes) (io : Io)
    → (send_group_line os g sk (trim_in_place text) io).2 ≡ true
    → (is_empty (group_line g text) ≡ false)
      × ((send_group_line os g sk (trim_in_place text) io).1.out
          ≡ log (
              sent_multicast
                (ascii "GroupChat")
                (format_ipv4 os g.joined_group)
                g.joined_port
                (length (group_line g text)))
            ∷ send sk.fd (group_line g text) (group_dest os g) true
            ∷ io.out)
unfolding send_group_line
line_sends os g sk text io h = elim (Bool-cases (is_empty (group_line g text))) [
  | inl e ↦ absurd (ground arith)
  | inr e ↦
      let ok : (send_to os io.calls sk (group_line g text) (group_dest os g)).1 ≡ true =
        rw⁻¹ h (rw e) in
      (e, rw (e, ok))
]

reaches_line :
    (os : Os) (g : GroupRoomCoordinator) (sk : UdpSocket) (text : Bytes) (io : Io)
    → (is_empty (trim_in_place text) || ltb 512 (length (trim_in_place text))) ≡ false
    → is_empty g.active_room_name ≡ false
    → g.mcast_sock ≡ some sk
    → send_group_chat os g text io ≡ send_group_line os g sk (trim_in_place text) io
unfolding send_group_chat
reaches_line os g sk text io a b e = ground arith

-- What `send_group_chat` has checked and done where it answers true.
chat_sends :
    (os : Os) (g : GroupRoomCoordinator) (text : Bytes) (io : Io)
    → (send_group_chat os g text io).2 ≡ true
    → (is_empty (trim_in_place text) ≡ false)
      × (is_empty g.active_room_name ≡ false)
      × (is_empty (group_line g text) ≡ false)
      × ((sk : UdpSocket) × (g.mcast_sock ≡ some sk)
          × ((send_group_chat os g text io).1.out
              ≡ log (
                  sent_multicast
                    (ascii "GroupChat")
                    (format_ipv4 os g.joined_group)
                    g.joined_port
                    (length (group_line g text)))
                ∷ send sk.fd (group_line g text) (group_dest os g) true
                ∷ io.out))
unfolding send_group_chat
chat_sends os g text io h =
    elim (Bool-cases (is_empty (trim_in_place text) || ltb 512 (length (trim_in_place text)))) [
      | inl a ↦ absurd (ground arith)
      | inr a ↦ elim (Bool-cases (is_empty g.active_room_name)) [
        | inl b ↦ absurd (ground arith)
        | inr b ↦ elim (Option-cases g.mcast_sock) [
          | inl e ↦ absurd (ground arith)
          | inr (sk, e) ↦
              let whole : send_group_chat os g text io
                  ≡ send_group_line os g sk (trim_in_place text) io =
                reaches_line os g sk text io a b e in
              let (filled, out) = line_sends os g sk text io (ap (λ r. r.2) (sym whole) ∙ h) in
              (ground arith, b, filled, (sk, e, ap (λ r. r.1.out) whole ∙ out))
        ]
      ]
    ]

-- What is shown, before what was.
abbrev pub group_effects : Bool → Bytes → Bytes → Bytes → SockAddr → List Effect → List Effect
group_effects own room u t from es =
    if own
    then es
    else group_message room u t
      ∷ log (recv_multicast (ascii "CHAT(open room)") from (length t))
      ∷ es

-- What the handler shows of a complete chat message of the active room.
group_shows :
    (g : GroupRoomCoordinator) (room u t : Bytes) (from : SockAddr) (io : Io)
    → g.active_room_name ≡ room
    → is_empty room ≡ false
    → (is_empty u || is_empty t) ≡ false
    → g.on_group_msg ≡ true
    → (on_room_chat g (record { type = chat; room = room; username = u; payload = t }) from io).out
      ≡ group_effects (bytes_eq u g.username) room u t from io.out
unfolding on_room_chat
group_shows g room u t from io a b c cb = elim (Bool-cases (bytes_eq u g.username)) [
  | inl h ↦ rw (a, b, bytes_eq_refl room, c, h)
  | inr h ↦ rw (a, b, bytes_eq_refl room, c, h, cb)
]

-- A chat message of an open room that was answered true went out once, on the socket of the
-- membership, to its group. In the receive loop of a copy that is in the same room, where that is not
-- the lobby's name nor that of a private session, it is shown once, as the trimmed text, if it comes
-- from another user, and not at all if it is one's own.
pub group_chat_reaches :
    (os os' : Os) (g : GroupRoomCoordinator) (text label : Bytes) (io : Io) (s : Services)
    (from : SockAddr) (now later : ℕ)
    → (send_group_chat os g text io).2 ≡ true
    → s.groups.active_room_name ≡ g.active_room_name
    → s.groups.on_group_msg ≡ true
    → bytes_eq g.active_room_name usn_chat ≡ false
    → find g.active_room_name s.direct.sessions ≡ none
    → let line = group_line g text in
      ((sk : UdpSocket) × (g.mcast_sock ≡ some sk)
        × ((send_group_chat os g text io).1.out
            ≡ log (
                sent_multicast
                  (ascii "GroupChat")
                  (format_ipv4 os g.joined_group)
                  g.joined_port
                  (length line))
              ∷ send sk.fd line (group_dest os g) true
              ∷ io.out))
      × ((handle_datagram os' label s line from now later).io.out
          ≡ group_effects
              (bytes_eq g.username s.groups.username)
              g.active_room_name
              g.username
              (trim_in_place text)
              from
              (log (received os' label from line) ∷ s.io.out))
unfolding dispatch dispatch_chat
group_chat_reaches os os' g text label io s from now later h same cb lobby free =
    let t = trim_in_place text in
    let (some_text, some_room, filled, out) = chat_sends os g text io h in
    let (known, ok) = (build-filled_iff chat g.active_room_name g.username t).0 filled in
    let name : is_username_ok g.username ≡ true = unfold fields_ok in ground arith in
    let (plain, short, some_name) = username_ok g.username name in
    let s' = logged s (received os' label from (group_line g text)) in
    let msg : SecpMessage = record {
      type = chat;
      room = g.active_room_name;
      username = g.username;
      payload = t;
    } in
    (
      out,
      ap (λ r. r.io.out)
            (receive-build os' label s chat g.active_room_name g.username t from now later filled)
          ∙ ap (λ r. r.1.out) (private_quiet os' s' msg from now _ free)
          ∙ (rw lobby (
              group_shows s.groups g.active_room_name g.username t from s'.io same some_room
                (ground arith) cb)),
    )
