-- ===== src/Menu/Loop.antt =====
-- `run_text_menu_loop` of oblig1_chattsystem/src/app/text_menu.cpp.
pub mod Ends
pub mod Answers
pub mod Keeps
pub mod Rounds
pub mod Validity
use nettverk.Prelude.{
  ℕ, zero, suc, Bool, true, false, Option, none, some, Bytes, utf8, ◌==◌, if◌then◌else◌,
}
use nettverk.Net.{Os}
use nettverk.Menu.Choice.{parse_menu_choice}
use nettverk.Menu.Console.{World, Menu, print_error_line, get_trimmed}
use nettverk.Menu.Listings.{print_menu, print_active_users, print_advertised_rooms}
use nettverk.Menu.Rooms.{
  prompt_lobby_message, prompt_create_group, prompt_join_group, prompt_group_chat, leave_group,
}
use nettverk.Menu.Sessions.{prompt_invite, prompt_reply, prompt_private, print_active_sessions}

-- A round of the loop goes on, or returns from the function.
pub data Round : Type 0 where
  again : Menu → Round
  returned : Menu → Bool → Round

-- `if (!prompt_…(…)) return false; break;`
abbrev pub unless_ended : Menu × Bool → Round
unless_ended (m, true) = again m
unless_ended (m, false) = returned m false

-- The `switch`.
unfoldable pub choose : Os → World → Bytes → ℕ → Menu → Round
choose os w username choice m =
    if choice == 1
    then again (print_active_users os w m)
    else if choice == 2
    then unless_ended (prompt_lobby_message os w username m)
    else if choice == 3
    then unless_ended (prompt_create_group os w m)
    else if choice == 4
    then again (print_advertised_rooms w m)
    else if choice == 5
    then unless_ended (prompt_join_group os w m)
    else if choice == 6
    then unless_ended (prompt_group_chat os w username m)
    else if choice == 7
    then again (leave_group os m)
    else if choice == 8
    then unless_ended (prompt_invite os w m)
    else if choice == 9
    then unless_ended (prompt_reply w m)
    else if choice == 10
    then unless_ended (prompt_private os w username m)
    else if choice == 11
    then again (print_active_sessions os m)
    else if choice == 12
    then returned m true
    else again m

-- What follows the menu's own line.
unfoldable pub read_choice : Os → World → Bytes → Menu × Option Bytes → Round
unfolding choose parse_menu_choice print_error_line
read_choice os w username (m, none) =
    returned (print_error_line (utf8 "(stdin lukket — avslutter.)") m) false
read_choice os w username (m, some line) = elim (parse_menu_choice line) [
  | none ↦ again (print_error_line (utf8 "Ugyldig valg. Skriv heltall 1–12.") m)
  | some choice ↦ choose os w username choice m
]

unfoldable pub round : Os → World → Bytes → Menu → Round
unfolding read_choice get_trimmed print_menu
round os w username m = read_choice os w username (get_trimmed w (print_menu m))

-- The rounds, with fuel; `none` where it runs out.
unfoldable pub run_text_menu_loop : Os → World → Bytes → ℕ → Menu → Option (Menu × Bool)
unfolding round
run_text_menu_loop os w username zero m = none
run_text_menu_loop os w username (suc fuel) m = elim (round os w username m) [
  | again m' ↦ run_text_menu_loop os w username fuel m'
  | returned m' ok ↦ some (m', ok)
]
