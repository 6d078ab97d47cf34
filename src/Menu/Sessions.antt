-- ===== src/Menu/Sessions.antt =====
-- The choices of the menu for private sessions (oblig1_chattsystem/src/app/text_menu.cpp). The
-- Boolean is false where the input has ended.
use nettverk.Prelude.{
  Bool, true, false, not, ◌||◌, Option, none, some, ◌++◌, Bytes, utf8, ascii, bytes_eq, is_empty,
  length, ltb, if◌then◌else◌,
}
use nettverk.Net.{Os}
use nettverk.Io.{print}
use nettverk.Secp.{max_username_bytes, max_chat_message_bytes}
use nettverk.Direct.Commands.{invite_user, accept_invite, decline_invite, send_private_chat}
use nettverk.Direct.Upkeep.{snapshot_pending_invites, snapshot_active_sessions}
use nettverk.Menu.Console.{World, Menu, put, print_line, print_error_line, read_trimmed_line}
use nettverk.Menu.Listings.{pending_text, active_text}

-- `direct.invite_user(who)`, and what is printed of it.
unfoldable pub invite_named : Os → World → Bytes → Menu → Menu
unfolding print_line print_error_line
invite_named os w who m =
    let s = m.services in
    let (direct, io, sid) =
      invite_user os s.users s.direct who (w.random m.asked) (w.now m.asked) s.io in
    let m' = record m { services = record s { direct = direct; io = io } } in
    elim sid [
      | none ↦
          print_error_line (utf8 "Kunne ikke sende invitasjon (ukjent bruker / nettverksfeil).") m'
      | some id ↦ print_line (utf8 "Invitasjon sendt. Session-ID: " ++ id) m'
    ]

unfoldable pub invite_answer : Os → World → Menu × Option Bytes → Menu × Bool
unfolding invite_named print_error_line
invite_answer os w (m, none) = (m, false)
invite_answer os w (m, some who) = (
  if is_empty who
      then print_error_line (utf8 "Tomt brukernavn.") m
      else if ltb max_username_bytes (length who)
      then print_error_line (utf8 "Brukernavn er for langt.") m
      else invite_named os w who m,
  true,
)

-- Choice 8.
unfoldable pub prompt_invite : Os → World → Menu → Menu × Bool
unfolding invite_answer read_trimmed_line
prompt_invite os w m =
    invite_answer os w
      (read_trimmed_line w (utf8 "Hvem vil du invitere? (bruk 1 for å se aktive brukere)\n> ") m)

unfoldable pub accept_named : World → Bytes → Menu → Menu
unfolding print_error_line
accept_named w sid m =
    let s = m.services in
    let (direct, io, ok) = accept_invite s.direct sid (w.now m.asked) s.io in
    let m' = record m { services = record s { direct = direct; io = io } } in
    if not ok
    then print_error_line (utf8 "Kunne ikke akseptere (finnes session? er den pending?).") m'
    else m'

unfoldable pub decline_named : Bytes → Bytes → Menu → Menu
unfolding print_error_line
decline_named sid reason m =
    let s = m.services in
    let (direct, io, ok) = decline_invite s.direct sid reason s.io in
    let m' = record m { services = record s { direct = direct; io = io } } in
    if not ok
    then print_error_line (utf8 "Kunne ikke avslå (finnes session? er den pending?).") m'
    else m'

unfoldable pub decline_reason : Bytes → Menu × Option Bytes → Menu × Bool
unfolding decline_named
decline_reason sid (m, none) = (m, false)
decline_reason sid (m, some reason) = (decline_named sid reason m, true)

-- The answer to the question for `a` or `d`.
unfoldable pub reply_answer : World → Bytes → Menu × Option Bytes → Menu × Bool
unfolding accept_named decline_reason read_trimmed_line print_error_line
reply_answer w sid (m, none) = (m, false)
reply_answer w sid (m, some ans) =
    if bytes_eq ans (ascii "a") || bytes_eq ans (ascii "A")
    then (accept_named w sid m, true)
    else if bytes_eq ans (ascii "d") || bytes_eq ans (ascii "D")
    then decline_reason sid (read_trimmed_line w (utf8 "Valgfri grunn (tom = ingen): ") m)
    else (print_error_line (utf8 "Ugyldig svar (bruk a eller d).") m, true)

-- The session that is to be answered.
unfoldable pub reply_session : World → Menu × Option Bytes → Menu × Bool
unfolding reply_answer read_trimmed_line print_error_line
reply_session w (m, none) = (m, false)
reply_session w (m, some sid) =
    if is_empty sid
    then (m, true)
    else if ltb 32 (length sid)
    then (print_error_line (utf8 "Session-id er for lang.") m, true)
    else reply_answer w sid (read_trimmed_line w (utf8 "Svar (a=aksepter, d=avslå): ") m)

-- Choice 9.
unfoldable pub prompt_reply : World → Menu → Menu × Bool
unfolding reply_session read_trimmed_line put pending_text
prompt_reply w m =
    let pending = snapshot_pending_invites m.services.direct in
    let m' = put (print (pending_text pending)) m in
    if is_empty pending
    then (m', true)
    else reply_session w
        (read_trimmed_line w (utf8 "Skriv session-id (tom linje = avbryt):\n> ") m')

-- `direct.send_private_chat(sid, msg)`, and what is printed of it.
unfoldable pub say_privately : Os → Bytes → Bytes → Bytes → Menu → Menu
unfolding print_line print_error_line
say_privately os username sid msg m =
    let s = m.services in
    let (io, ok) = send_private_chat os s.direct sid msg s.io in
    let m' = record m { services = record s { io = io } } in
    if not ok
    then print_error_line (utf8 "Kunne ikke sende (ukjent session eller ikke aktiv).") m'
    else print_line (utf8 "[Privat " ++ sid ++ utf8 "] " ++ username ++ utf8 ": " ++ msg) m'

unfoldable pub private_text : Os → Bytes → Bytes → Menu × Option Bytes → Menu × Bool
unfolding say_privately print_error_line
private_text os username sid (m, none) = (m, false)
private_text os username sid (m, some msg) = (
  if is_empty msg
      then m
      else if ltb max_chat_message_bytes (length msg)
      then print_error_line (utf8 "Meldingen er for lang.") m
      else say_privately os username sid msg m,
  true,
)

unfoldable pub private_session : Os → World → Bytes → Menu × Option Bytes → Menu × Bool
unfolding private_text read_trimmed_line print_error_line
private_session os w username (m, none) = (m, false)
private_session os w username (m, some sid) =
    if is_empty sid
    then (m, true)
    else if ltb 32 (length sid)
    then (print_error_line (utf8 "Session-id er for lang.") m, true)
    else private_text os username sid
        (read_trimmed_line w (utf8 "Melding (tom linje = avbryt):\n> ") m)

-- Choice 10.
unfoldable pub prompt_private : Os → World → Bytes → Menu → Menu × Bool
unfolding private_session read_trimmed_line put active_text
prompt_private os w username m =
    let act = snapshot_active_sessions os m.services.direct in
    let m' = put (print (active_text act)) m in
    if is_empty act
    then (m', true)
    else private_session os w username (read_trimmed_line w (utf8 "Session-id:\n> ") m')

-- Choice 11.
unfoldable pub print_active_sessions : Os → Menu → Menu
unfolding put active_text
print_active_sessions os m =
    put (print (active_text (snapshot_active_sessions os m.services.direct))) m
