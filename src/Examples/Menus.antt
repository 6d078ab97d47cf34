-- ===== src/Examples/Menus.antt =====
-- The menu, the logger and the whole program at concrete inputs.
use nettverk.Prelude.{
  is_negative, true, pos, is_empty, ℕ, ◌≤◌, ◌<◌, ◌≡◌, refl, Bool, false, Option, some, none, List,
  [], ◌∷◌, ◌++◌, ◌&&◌, Bytes, ascii, length, leb, if◌then◌else◌, ◌⊎◌, strip_back, find, bytes_eq,
}
use nettverk.Trim.{trim_in_place}
use nettverk.Logger
use nettverk.Logger.{Logger, Tm}
use nettverk.LocalEndpoint.Outcome.{Answered, Ends, get_local_ipv4_cases}
use nettverk.Receive.{Services, handle_datagram}
use nettverk.Receive.EndToEnd.{lobby_line}
use nettverk.Program.Terminal.{terminal}
use nettverk.Program.Refused.Silence.{refused_name_silent}
use nettverk.Program.Traffic.Whole.{output}
use nettverk.Receive.Silence.{sends}
use nettverk.Secp.{is_username_ok, contains_pipe_or_newline}
use nettverk.Program.StartUp.{Exits, LogsIn, start_up_cases}
use nettverk.Program.LobbyChat.{asked_twice, lobby_text, typed_reaches}
use nettverk.Lobby.{send_chat}
use nettverk.Io.{send_udp}
use nettverk.UdpSocket.{send_to}
use nettverk.Utf8.{valid_utf8}
use nettverk.Secp.{build_secp_line, fields_ok, is_room_ok, is_payload_ok, secp_type_name}
use nettverk.Menu.Loop.{again}
use nettverk.Lobby
use nettverk.Groups.State
use nettverk.Receive
use nettverk.Receive.Validity.{IsValid}
use nettverk.Menu.Choice.{parse_menu_choice}
use nettverk.Menu.Choice.Laws.{decimal, parse_menu_choice_bounds, parse_menu_choice-decimal}
use nettverk.Menu.Console.{World, Menu, put, get_line, get_trimmed}
use nettverk.Menu.Loop.{run_text_menu_loop, round, read_choice, choose}
use nettverk.UdpSocket.{open_udp, set_reuse_address, set_broadcast, set_option, bind}
use nettverk.LocalEndpoint.{get_local_ipv4, ask_route, ask_name}
use nettverk.Menu.Strtol.{strtol, c_str, skip_spaces, read_sign, read_number, read_digits, in_long}
use nettverk.Menu.Listings.{print_menu}
use nettverk.Menu.Loop.Ends.{run_text_menu_loop_ends}
use nettverk.Program.Threads.{Turn, receives, beats, announces}
use nettverk.Program.{
  Course, Ended, failed, finished, start_up, run_main, read_username, with_username, own_address,
  with_address, with_socket, make_ready, attempt, run_from, after_menu,
}
use nettverk.Program.Closed.{Closed, run_main_closes}
use nettverk.Program.Validity.{run_main-IsValid}
use nettverk.Examples.{kari, ola, hei, good_os, start_io, host}
use nettverk.Examples.Traffic.{services}

-- A world where no other thread does anything.
abbrev quiet : World
quiet = record { others = λ n s. s; now = λ n. n; random = λ n. n }

abbrev typed : Menu
typed = record {
  services = services;
  input = ascii "2" ∷ hei ∷ ascii "x" ∷ ascii " 12" ∷ [];
  asked = 0;
}

run_text_menu_loop_ends_example :
    (r : Menu × Bool) × ((fuel : ℕ)
      → length typed.input < fuel
      → run_text_menu_loop good_os quiet kari fuel typed ≡ some r)
    × (r.1 ≡ false → r.0.input ≡ [])
run_text_menu_loop_ends_example = run_text_menu_loop_ends good_os quiet kari typed

parse_menu_choice_bounds_example : (1 ≤ 12) × (12 ≤ 12)
unfolding parse_menu_choice trim_in_place strip_back
parse_menu_choice_bounds_example = parse_menu_choice_bounds (ascii " 12") 12 refl

parse_menu_choice-decimal_example : parse_menu_choice (ascii " 007 ") ≡ (
    let v = decimal (trim_in_place (ascii " 007 ")) in if leb 1 v && leb v 12 then some v else none)
unfolding trim_in_place strip_back
parse_menu_choice-decimal_example =
    parse_menu_choice-decimal (ascii " 007 ") refl (refl, (refl, (refl, tt)))

abbrev noon : Tm
noon = record { hour = 12; min = 5; sec = 9 }

abbrev turn : Turn
turn = record {
  before = record { stopped = false };
  after = record { stopped = false };
  peers_now = 7;
  pending_now = 8;
  resend_now = 9;
}

abbrev pub course : Course
course = record {
  turns = λ n. beats turn ∷ announces turn ∷ [];
  now = λ n. n;
  random = λ n. n;
  input = ascii "2" ∷ hei ∷ ascii "12" ∷ [];
  last_turns = receives (Receive.failed 9) ∷ [];
}

abbrev argv : List Bytes
argv = ascii "chatapp" ∷ kari ∷ []

run_main_closes_example :
    (e : Ended) × ((fuel : ℕ)
      → length course.input < fuel
      → run_main good_os argv course fuel ≡ some e)
    × Closed e
run_main_closes_example = run_main_closes good_os argv course

abbrev services_of : Option Ended → Services
services_of none = services
services_of (some (failed io)) = services
services_of (some (finished s)) = s

abbrev at_once : Course
at_once = record course { input = ascii "12" ∷ [] }

run_main-IsValid_example : IsValid (services_of (run_main good_os argv at_once 2))
unfolding run_main start_up read_username with_username own_address with_address with_socket
    make_ready attempt get_local_ipv4 ask_route ask_name open_udp set_reuse_address set_broadcast
    set_option bind trim_in_place strip_back run_from after_menu run_text_menu_loop round
    read_choice get_trimmed get_line choose parse_menu_choice print_menu put strtol c_str
    skip_spaces read_sign read_number read_digits in_long
run_main-IsValid_example =
    run_main-IsValid good_os argv at_once 2 (services_of (run_main good_os argv at_once 2)) refl

get_local_ipv4_cases_example :
    let r = get_local_ipv4 good_os start_io in
    ((is_negative (pos 5) ≡ true)
      × (r.1 ≡ none)
      × Answered start_io r
      × (r.0.closed ≡ start_io.closed))
    ⊎ ((is_negative (pos 5) ≡ false) × Ends (pos 5) start_io r)
get_local_ipv4_cases_example = get_local_ipv4_cases good_os start_io

-- A name of two parts, with the separator of the protocol between them.
abbrev piped : Bytes
piped = ascii "kari|ola"

refused_name_silent_example :
    (e : Ended) × ((fuel : ℕ)
      → length course.input < fuel
      → run_main good_os (ascii "chatapp" ∷ piped ∷ []) course fuel ≡ some e)
    × (sends (output e) ≡ [])
unfolding trim_in_place strip_back is_username_ok contains_pipe_or_newline
refused_name_silent_example = refused_name_silent good_os (ascii "chatapp") piped [] course refl

start_up_cases_example :
    Exits (start_up good_os argv)
    ⊎ ((p : Bytes) × (arg : Bytes) × (rest : List Bytes) × (argv ≡ p ∷ arg ∷ rest)
        × (is_empty (trim_in_place arg) ≡ false)
        × LogsIn (trim_in_place arg) (start_up good_os argv))
start_up_cases_example = start_up_cases good_os argv

-- The other copy, where ola is logged in.
abbrev there : Services
there = record services { groups = record services.groups { username = ola } }

typed_reaches_example :
    (m' : Menu) × (round good_os quiet kari typed ≡ again m')
    × (m'.input ≡ ascii "x" ∷ ascii " 12" ∷ [])
    × (terminal kari m'.services.io.out
        ≡ terminal kari (asked_twice quiet typed hei (ascii "x" ∷ ascii " 12" ∷ [])).services.io.out
          ++ lobby_text kari (trim_in_place hei))
    × (terminal ola
          (handle_datagram good_os
            (ascii "recv udp")
            there
            (lobby_line kari (trim_in_place hei))
            (host 1)
            5
            6).io.out
        ≡ terminal ola there.io.out
          ++ (if bytes_eq (trim_in_place kari) ola
              then []
              else lobby_text (trim_in_place kari) (trim_in_place hei)))
unfolding parse_menu_choice trim_in_place strip_back strtol c_str skip_spaces read_sign read_number
    read_digits in_long put print_menu send_chat send_udp Lobby.new build_secp_line fields_ok
    is_room_ok bytes_eq contains_pipe_or_newline valid_utf8 is_username_ok is_payload_ok
    secp_type_name send_to State.new find Lobby.set_on_message
typed_reaches_example =
    typed_reaches good_os good_os quiet kari (ascii "recv udp") ola typed (ascii "2") hei
      (ascii "x" ∷ ascii " 12" ∷ []) there (host 1) 5 6 refl refl refl refl refl refl
