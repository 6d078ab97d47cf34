-- ===== src/Menu/Rooms.antt =====
-- The choices of the menu for the lobby and the open rooms
-- (oblig1_chattsystem/src/app/text_menu.cpp). The Boolean is false where the input has ended.
use nettverk.Prelude.{
  Bool, true, false, not, Option, none, some, ◌++◌, Bytes, utf8, is_empty, length, ltb,
  if◌then◌else◌,
}
use nettverk.Net.{Os}
use nettverk.Io.{print}
use nettverk.Secp.{max_chat_message_bytes, max_room_name_bytes}
use nettverk.Lobby.{send_chat}
use nettverk.Groups.State.{has_active_membership, active_room_id}
use nettverk.Groups.Rooms.{create_room, join_room, leave_room}
use nettverk.Groups.Messages.{send_group_chat}
use nettverk.Menu.Console.{World, Menu, put, print_line, print_error_line, read_trimmed_line}

-- `lobby.send_chat(username, msg)`, and what is printed of it.
unfoldable pub say_to_lobby : Os → Bytes → Bytes → Menu → Menu
unfolding put print_error_line
say_to_lobby os username msg m =
    let (io, ok) = send_chat os m.services.lobby username msg m.services.io in
    let m' = record m { services = record m.services { io = io } } in
    if not ok
    then print_error_line (utf8 "Kunne ikke sende til USN Chat.") m'
    else put (print (utf8 "[USN Chat] " ++ username ++ utf8 ": " ++ msg ++ utf8 "\n")) m'

-- Behind the prompt.
unfoldable pub lobby_answer : Os → Bytes → Menu × Option Bytes → Menu × Bool
unfolding say_to_lobby print_line print_error_line
lobby_answer os username (m, none) = (m, false)
lobby_answer os username (m, some msg) = (
  if is_empty msg
      then print_line (utf8 "(Ingen melding sendt.)") m
      else if ltb max_chat_message_bytes (length msg)
      then print_error_line (utf8 "Meldingen er for lang.") m
      else say_to_lobby os username msg m,
  true,
)

unfoldable pub prompt_lobby_message : Os → World → Bytes → Menu → Menu × Bool
unfolding lobby_answer read_trimmed_line
prompt_lobby_message os w username m =
    lobby_answer os username
      (read_trimmed_line w (utf8 "Melding til USN Chat (tom linje = avbryt):\n> ") m)

unfoldable pub create_named : Os → Bytes → Menu → Menu
unfolding print_line print_error_line
create_named os name m =
    let (groups, io, ok) = create_room os m.services.groups name m.services.io in
    let m' = record m { services = record m.services { groups = groups; io = io } } in
    if not ok
    then print_error_line (utf8 "Kunne ikke opprette grupperom (nettverk/port opptatt?).") m'
    else elim (active_room_id groups) [
      | none ↦ m'
      | some id ↦ print_line (utf8 "Grupperom opprettet. Romnavn: " ++ id) m'
    ]

unfoldable pub create_answer : Os → Menu × Option Bytes → Menu × Bool
unfolding create_named print_error_line
create_answer os (m, none) = (m, false)
create_answer os (m, some name) = (
  if is_empty name
      then print_error_line (utf8 "Navn kan ikke være tomt.") m
      else if ltb max_room_name_bytes (length name)
      then print_error_line (utf8 "Navnet er for langt.") m
      else create_named os name m,
  true,
)

unfoldable pub prompt_create_group : Os → World → Menu → Menu × Bool
unfolding create_answer read_trimmed_line
prompt_create_group os w m = create_answer os (read_trimmed_line w (utf8 "Navn på grupperom: ") m)

unfoldable pub join_named : Os → World → Bytes → Menu → Menu
unfolding print_line print_error_line
join_named os w name m =
    let (groups, io, ok) = join_room os m.services.groups name (w.now m.asked) m.services.io in
    let m' = record m { services = record m.services { groups = groups; io = io } } in
    if not ok
    then print_error_line
        (utf8 "Kunne ikke bli med (ukjent rom, allerede medlem, eller nettverksfeil).") m'
    else print_line (utf8 "Du er nå med i rom " ++ name ++ utf8 ".") m'

unfoldable pub join_answer : Os → World → Menu × Option Bytes → Menu × Bool
unfolding join_named print_error_line
join_answer os w (m, none) = (m, false)
join_answer os w (m, some name) = (
  if is_empty name
      then print_error_line (utf8 "Romnavn kan ikke være tomt.") m
      else if ltb max_room_name_bytes (length name)
      then print_error_line (utf8 "Romnavn er for langt.") m
      else join_named os w name m,
  true,
)

unfoldable pub prompt_join_group : Os → World → Menu → Menu × Bool
unfolding join_answer read_trimmed_line
prompt_join_group os w m =
    join_answer os w (read_trimmed_line w (utf8 "Romnavn (bruk 4 for oversikt): ") m)

-- `groups.send_group_chat(msg)`, and what is printed of it.
unfoldable pub say_to_group : Os → Bytes → Bytes → Bytes → Menu → Menu
unfolding put print_error_line
say_to_group os username room_id msg m =
    let (groups, io, ok) = send_group_chat os m.services.groups msg m.services.io in
    let m' = record m { services = record m.services { groups = groups; io = io } } in
    if not ok
    then print_error_line (utf8 "Sending til multicast feilet.") m'
    else put
        (print
          (utf8 "[Gruppe " ++ room_id ++ utf8 "] " ++ username ++ utf8 ": " ++ msg ++ utf8 "\n"))
        m'

unfoldable pub group_answer : Os → Bytes → Menu × Option Bytes → Menu × Bool
unfolding say_to_group print_line print_error_line
group_answer os username (m, none) = (m, false)
group_answer os username (m, some msg) = (
  if is_empty msg
      then print_line (utf8 "(Ingen melding sendt.)") m
      else if ltb max_chat_message_bytes (length msg)
      then print_error_line (utf8 "Meldingen er for lang.") m
      else elim (active_room_id m.services.groups) [
        | none ↦ print_error_line (utf8 "Ingen aktiv gruppe.") m
        | some room_id ↦ say_to_group os username room_id msg m
      ],
  true,
)

unfoldable pub prompt_group_chat : Os → World → Bytes → Menu → Menu × Bool
unfolding group_answer read_trimmed_line print_error_line
prompt_group_chat os w username m =
    if not (has_active_membership m.services.groups)
    then (print_error_line (utf8 "Du er ikke med i noe grupperom (bruk 5).") m, true)
    else group_answer os username
        (read_trimmed_line w (utf8 "Melding til grupperom (tom linje = avbryt):\n> ") m)

-- Choice 7.
unfoldable pub leave_group : Os → Menu → Menu
unfolding print_line print_error_line
leave_group os m =
    if not (has_active_membership m.services.groups)
    then print_error_line (utf8 "Du er ikke med i noe grupperom.") m
    else let (groups, io) = leave_room os m.services.groups m.services.io in
      print_line (utf8 "Du har forlatt grupperommet.")
        (record m { services = record m.services { groups = groups; io = io } })
