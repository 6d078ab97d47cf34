-- ===== src/Lobby.antt =====
-- oblig1_chattsystem/src/services/lobby_service.cpp and its header: the room that all share.
use nettverk.Prelude.{
  Bool, true, false, not, ◌||◌, Bytes, ascii, is_empty, length, ltb, if◌then◌else◌,
}
use nettverk.Net.{SockAddr, Os, udp_port, af_inet, inaddr_broadcast}
use nettverk.Io.{Io, log, lobby_message, sent_broadcast, socket_error, emit, send_udp}
use nettverk.Secp.{chat, build_secp_line, max_username_bytes, max_chat_message_bytes}
use nettverk.Trim.{trim_in_place}

pub record LobbyService : Type 0 where
  pub socket : Bool
  pub on_message : Bool
  pub broadcast_dest : SockAddr

unfoldable pub new : Os → LobbyService
new os = record {
  socket = true;
  on_message = false;
  broadcast_dest = record { family = af_inet; port = os.htons udp_port; ip = inaddr_broadcast };
}

unfoldable pub set_on_message : LobbyService → Bool → LobbyService
set_on_message l cb = record l { on_message = cb }

abbrev pub usn_chat : Bytes
usn_chat = ascii "USN Chat"

unfoldable pub send_chat : Os → LobbyService → Bytes → Bytes → Io → Io × Bool
send_chat os l username text io =
    if not l.socket
    then (io, false)
    else let u = trim_in_place username in
      let t = trim_in_place text in
      if is_empty u || is_empty t
      then (io, false)
      else if ltb max_username_bytes (length u) || ltb max_chat_message_bytes (length t)
      then (io, false)
      else let line = build_secp_line chat usn_chat u t in
        if is_empty line
        then (io, false)
        else let (io', ok) = send_udp os io line l.broadcast_dest in
          (
            emit
                (log (
                  if ok
                  then sent_broadcast (ascii "CHAT(USN Chat)") udp_port (length line)
                  else socket_error (ascii "send LobbyChat broadcast") io'.udp.last_errno))
                io',
            ok,
          )

unfoldable pub on_lobby_chat : LobbyService → Bytes → Bytes → Io → Io
on_lobby_chat l sender text io =
    if not l.on_message
    then io
    else if is_empty sender || is_empty text
    then io
    else if ltb max_username_bytes (length sender) || ltb max_chat_message_bytes (length text)
    then io
    else emit (lobby_message sender text) io
