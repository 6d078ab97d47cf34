-- ===== src/Program/Display.antt =====
-- What a message to the lobby shows on the terminals of the copies that it reaches.
use nettverk.Prelude.{
  ℕ, ◌≡◌, refl, ◌∙◌, ap, append-nil, true, false, none, [], ◌++◌, Bytes, ascii, bytes_eq, find,
  if◌then◌else◌,
}
use nettverk.Net.{SockAddr, Os}
use nettverk.Io.{Io}
use nettverk.Trim.{trim_in_place}
use nettverk.Lobby.{LobbyService, send_chat, usn_chat}
use nettverk.Receive.{Services, handle_datagram}
use nettverk.Receive.EndToEnd.{lobby_line, lobby_reaches}
use nettverk.Program.Terminal.{terminal}

-- Where the line of a message to the lobby that `send_chat` answered true for arrives, neither as a
-- chat of the active open room nor of a private session, the terminal shows `[USN Chat]`, the
-- trimmed name and the trimmed text once, and nothing where the name is that of the user logged in
-- there: so the sender's own copy, which prints the text when it sends, does not repeat it.
pub lobby_shown :
    (os os' : Os) (l : LobbyService) (username text label me : Bytes) (io : Io) (s : Services)
    (from : SockAddr) (now later : ℕ)
    → (send_chat os l username text io).1 ≡ true
    → s.lobby.on_message ≡ true
    → bytes_eq usn_chat s.groups.active_room_name ≡ false
    → find usn_chat s.direct.sessions ≡ none
    → terminal me (handle_datagram os' label s (lobby_line username text) from now later).io.out
      ≡ terminal me s.io.out
        ++ (if bytes_eq (trim_in_place username) me
            then []
            else ascii "[USN Chat] "
              ++ trim_in_place username
              ++ ascii ": "
              ++ trim_in_place text
              ++ ascii "\n")
unfolding terminal
lobby_shown os os' l username text label me io s from now later h cb other free =
    let (_, out) = lobby_reaches os os' l username text label io s from now later h cb other free in
    ap (terminal me) out ∙ rw (append-nil (terminal me s.io.out)) refl
