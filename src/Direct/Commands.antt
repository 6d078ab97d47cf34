-- ===== src/Direct/Commands.antt =====
-- The user's commands of DirectMessageService: invite, accept, decline and send.
-- `steady_clock::now()` and the random number of `make_session_id` are arguments.
use nettverk.Prelude.{
  ℕ, Bool, true, false, not, ◌||◌, Option, none, some, ◌++◌, Bytes, utf8, ascii, bytes_eq, is_empty,
  length, take, find, insert, contains, erase, ltb, if◌then◌else◌,
}
use nettverk.Net.{SockAddr, Os, udp_port}
use nettverk.Io.{Io, log, sent_unicast, socket_error, emit, send_udp}
use nettverk.Secp.{
  invite, chat, build_secp_line, max_username_bytes, max_room_name_bytes, max_chat_message_bytes,
}
use nettverk.Trim.{trim_in_place}
use nettverk.Users.{UserDirectory, find_address}
use nettverk.Direct.State.{
  DirectSessionState, outgoing_pending, active, is_incoming, is_active, Session,
  DirectMessageService, report, make_unicast_dest, make_session_id, closed_to,
}

-- What `invite_user` does once the session is stored.
unfoldable pub send_invite :
    Os → DirectMessageService → Bytes → Bytes → SockAddr → Io → Io × Option Bytes
unfolding report
send_invite os d sid target dest io =
    let line = build_secp_line invite sid d.self_username (closed_to ++ target) in
    if is_empty line
    then (io, none)
    else let (io', ok) = send_udp os io line dest in
      if not ok
      then (
        report d (utf8 "Kunne ikke sende invitasjon (sendto feilet).")
            (emit (log (socket_error (ascii "send INVITE unicast") io'.udp.last_errno)) io'),
        none,
      )
      else (
        report d
            (utf8 "Sendte invitasjon til \"" ++ target ++ utf8 "\" (session " ++ sid ++ utf8 ").")
            (emit (log (sent_unicast (ascii "INVITE(CLOSED)") dest (length line))) io'),
        some sid,
      )

-- The session that `invite_user` stores.
abbrev pub outgoing_session : Bytes → Bytes → SockAddr → ℕ → Session
outgoing_session sid target dest now = record {
  state = outgoing_pending;
  session_id = sid;
  peer_username = target;
  peer_addr = dest;
  created_at = now;
  last_sent = now;
  last_update = now;
}

-- `invite_user` for a user whose address is known.
unfoldable pub invite_at :
    Os
    → DirectMessageService
    → Bytes
    → Bytes
    → SockAddr
    → ℕ
    → Io
    → DirectMessageService × Io × Option Bytes
unfolding send_invite
invite_at os d sid target dest now io =
    if contains sid d.sessions
    then (d, io, none)
    else let d' = record d {
      sessions = insert sid (outgoing_session sid target dest now) d.sessions;
    } in
      let (io', r) = send_invite os d' sid target dest io in (d', io', r)

-- The early return at the trimmed name.
abbrev pub is_bad_target : DirectMessageService → Bytes → Bool
is_bad_target d target =
    is_empty target || ltb max_username_bytes (length target) || bytes_eq target d.self_username

unfoldable pub invite_user :
    Os
    → UserDirectory
    → DirectMessageService
    → Bytes
    → ℕ
    → ℕ
    → Io
    → DirectMessageService × Io × Option Bytes
unfolding invite_at report make_unicast_dest make_session_id
invite_user os users d target_username random now io =
    if not d.socket || not d.users
    then (d, io, none)
    else let target = trim_in_place target_username in
      if is_bad_target d target then (d, io, none) else elim (find_address users target) [
        | none ↦ (
          d,
          report d (utf8 "Fant ikke bruker \"" ++ target ++ utf8 "\" i aktiv bruker-liste.") io,
          none,
        )
        | some addr ↦
            invite_at os d (make_session_id random) target (make_unicast_dest os addr udp_port) now
              io
      ]

-- Tests of a session that was looked up: it is there and in one state.
abbrev pub found_in : (DirectSessionState → Bool) → Option Session → Bool
found_in is_state none = false
found_in is_state (some s) = is_state s.state

unfoldable pub accept_invite :
    DirectMessageService → Bytes → ℕ → Io → DirectMessageService × Io × Bool
unfolding report
accept_invite d room_name now io =
    let room = trim_in_place room_name in
    if is_empty room || ltb max_room_name_bytes (length room)
    then (d, io, false)
    else elim (find room d.sessions) [
      | none ↦ (d, io, false)
      | some s ↦ if not (is_incoming s.state) then (d, io, false) else (
        record d {
          sessions = insert room (record s { state = active; last_update = now }) d.sessions;
        },
        report d
            (utf8 "Aksepterte INVITE fra \""
              ++ s.peer_username
              ++ utf8 "\" (rom "
              ++ room
              ++ utf8 ").")
            io,
        true,
      )
    ]

-- `if (rs.size() > kMaxChatMessageBytes) rs.resize(kMaxChatMessageBytes);`
abbrev pub clip_reason : Bytes → Bytes
clip_reason rs =
    if ltb max_chat_message_bytes (length rs) then take max_chat_message_bytes rs else rs

unfoldable pub decline_invite :
    DirectMessageService → Bytes → Bytes → Io → DirectMessageService × Io × Bool
unfolding report
decline_invite d room_name reason io =
    let room = trim_in_place room_name in
    if is_empty room || ltb max_room_name_bytes (length room)
    then (d, io, false)
    else let rs = clip_reason (trim_in_place reason) in
      elim (find room d.sessions) [
        | none ↦ (d, io, false)
        | some s ↦ if not (is_incoming s.state) then (d, io, false) else (
          record d { sessions = erase room d.sessions },
          report d
              (if not (is_empty rs)
                then utf8 "Avslo INVITE fra \""
                  ++ s.peer_username
                  ++ utf8 "\" (rom "
                  ++ room
                  ++ utf8 "). Grunn: "
                  ++ rs
                else utf8 "Avslo INVITE fra \""
                  ++ s.peer_username
                  ++ utf8 "\" (rom "
                  ++ room
                  ++ utf8 ").")
              io,
          true,
        )
      ]

-- `send_private_chat` to the peer of an active session.
unfoldable pub send_chat_to : Os → DirectMessageService → Bytes → Bytes → SockAddr → Io → Io × Bool
send_chat_to os d sid msg peer io =
    let line = build_secp_line chat sid d.self_username msg in
    if is_empty line
    then (io, false)
    else let (io', ok) = send_udp os io line peer in
      (
        emit
            (log (
              if ok
              then sent_unicast (ascii "CHAT(CLOSED)") peer (length line)
              else socket_error (ascii "send DirectChat unicast") io'.udp.last_errno))
            io',
        ok,
      )

unfoldable pub send_private_chat : Os → DirectMessageService → Bytes → Bytes → Io → Io × Bool
unfolding send_chat_to
send_private_chat os d session_id text io =
    if not d.socket
    then (io, false)
    else let sid = trim_in_place session_id in
      if ltb 32 (length sid)
      then (io, false)
      else let msg = trim_in_place text in
        if is_empty sid || is_empty msg || ltb max_chat_message_bytes (length msg)
        then (io, false)
        else elim (find sid d.sessions) [
          | none ↦ (io, false)
          | some s ↦
              if not (is_active s.state)
              then (io, false)
              else send_chat_to os d sid msg s.peer_addr io
        ]
