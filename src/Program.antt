-- ===== src/Program.antt =====
-- oblig1_chattsystem/src/main.cpp: start-up, the three threads beside the menu, and the end, with
-- include/chat/app/interruptible_sleep.hpp.
pub mod Terminal
pub mod Display
pub mod Threads
pub mod Validity
pub mod Ends
pub mod Traffic
pub mod Refused
pub mod StartUp
pub mod Closed
pub mod LobbyChat
use nettverk.Prelude.{
  ℕ, ◌+◌, Bool, true, false, not, Option, none, some, List, [], ◌∷◌, ◌++◌, Bytes, utf8, ascii,
  is_empty, to_string, if◌then◌else◌,
}
use nettverk.Net.{Os, udp_port, tcp_port}
use nettverk.Io.{Io, print, print_error, log, info, emit}
use nettverk.Trim.{trim_in_place}
use nettverk.Logger.{errno_message}
use nettverk.LocalEndpoint.{get_local_ipv4, format_ipv4}
use nettverk.UdpSocket
use nettverk.UdpSocket.{UdpSocket, open_udp, set_reuse_address, set_broadcast, bind, close}
use nettverk.Users.{set_self_username}
use nettverk.Discovery
use nettverk.Discovery.{set_identity, send_presence_broadcast}
use nettverk.Lobby
use nettverk.Lobby.{set_on_message}
use nettverk.Groups.State as Rooms
use nettverk.Groups.State.{set_on_group_message}
use nettverk.Groups.Rooms.{leave_room}
use nettverk.Direct.State as Sessions
use nettverk.Direct.State.{set_on_status, set_on_private_message}
use nettverk.Receive.{Services}
use nettverk.Menu.Console.{World, Menu}
use nettverk.Menu.Loop.{run_text_menu_loop}
use nettverk.Program.Threads.{Event, run_others}

-- The output at the start of the process, with the socket that is not open yet.
abbrev pub fresh : Io
fresh = record { udp = UdpSocket.new; calls = 0; out = []; closed = [] }

abbrev complain : Bytes → Io → Io
complain text io = emit (print_error text) io

-- `argv[0]`, where there is one.
abbrev program_name : List Bytes → Bytes
program_name [] = ascii "chatapp"
program_name (p ∷ args) = p

abbrev usage : List Bytes → Io → Io × Option Bytes
usage argv io = (complain (utf8 "Bruk: " ++ program_name argv ++ utf8 " <brukernavn>\n") io, none)

-- The user name of the command line.
unfoldable pub read_username : List Bytes → Io → Io × Option Bytes
read_username [] io = usage [] io
read_username (p ∷ []) io = usage (p ∷ []) io
read_username (p ∷ arg ∷ args) io =
    let username = trim_in_place arg in
    if is_empty username
    then (complain (utf8 "Brukernavn kan ikke være tomt.\n") io, none)
    else (io, some username)

-- What follows `get_local_ipv4`.
abbrev pub or_no_address : Io × Option ℕ → Io × Option ℕ
or_no_address (io, none) = (complain (utf8 "Kunne ikke finne lokal IPv4-adresse.\n") io, none)
or_no_address (io, some ip) = (io, some ip)

unfoldable pub own_address : Os → Io → Io × Option ℕ
unfolding get_local_ipv4
own_address os io = or_no_address (get_local_ipv4 os io)

-- A call on the shared socket, and the complaint where it fails.
unfoldable pub attempt : Os → Bytes → (ℕ → UdpSocket → UdpSocket × Bool) → Io × Bool → Io × Bool
unfolding errno_message
attempt os what call (io, false) = (io, false)
attempt os what call (io, true) =
    let (udp, ok) = call io.calls io.udp in
    let io' = record io { udp = udp; calls = io.calls + 1 } in
    if not ok
    then (complain (errno_message os what udp.last_errno ++ ascii "\n") io', false)
    else (io', true)

-- The four calls that make the shared socket ready.
unfoldable pub make_ready : Os → Io → Io × Bool
unfolding attempt open_udp set_reuse_address set_broadcast bind
make_ready os io =
    attempt os (ascii "bind(udp)") (λ n s. bind os n s udp_port)
      (attempt os (ascii "setsockopt(SO_BROADCAST udp)") (λ n s. set_broadcast os n s true)
        (attempt os (ascii "setsockopt(SO_REUSEADDR udp)") (λ n s. set_reuse_address os n s true)
          (attempt os (ascii "socket(udp)") (λ n s. open_udp os n s) (io, true))))

-- The shared socket is closed: by `close`, or by its destructor.
unfoldable pub release : Os → Io → Io
unfolding close
release os io =
    let (udp, closed) = close os io.calls io.udp in
    record io { udp = udp; calls = io.calls + 1; closed = closed ++ io.closed }

-- The services as `main` constructs them and sets their callbacks.
unfoldable pub services : Os → Bytes → ℕ → Io → Services
unfolding set_self_username set_identity set_on_message set_on_group_message set_on_status
    set_on_private_message Discovery.new Lobby.new Rooms.new Sessions.new
services os username ip io = record {
  users = set_self_username (record { self_username = []; peers = [] }) username;
  discovery = set_identity (Discovery.new os) username ip;
  lobby = set_on_message (Lobby.new os) true;
  groups = set_on_group_message (Rooms.new ip username) true;
  direct = set_on_private_message (set_on_status (Sessions.new username) true) true;
  io = io;
}

-- The three lines that greet the user.
unfoldable pub greet : Os → Bytes → ℕ → Io → Io
unfolding format_ipv4
greet os username ip io = emit (print (utf8 "Meldinger fra nett blandes i menyen.\n\n")) (
    emit
      (print (
        utf8 "Porter: UDP "
        ++ to_string udp_port
        ++ utf8 " (SECP), TCP "
        ++ to_string tcp_port
        ++ utf8 " (ikke i bruk).\n"))
      (emit
        (print (
          utf8 "Logget inn som \""
          ++ username
          ++ utf8 "\" med IP "
          ++ format_ipv4 os ip
          ++ utf8 "\n"))
        io))

-- The first broadcast of the user's presence.
unfoldable pub first_presence : Os → Services → Services
unfolding send_presence_broadcast
first_presence os s =
    let (io, ok) = send_presence_broadcast os s.discovery s.io in
    record s {
      io =
          if not ok
          then complain (utf8 "Advarsel: første presence-broadcast feilet.\n") io
          else emit (log (info (ascii "startup: first presence broadcast sent"))) io;
    }

-- `main` up to the threads: it exits with 1, or goes on under a user name.
pub data Started : Type 0 where
  exited : Io → Started
  logged_in : Bytes → Services → Started

-- Behind the calls on the shared socket; where one failed, the destructor closes the socket.
unfoldable pub with_socket : Os → Bytes → ℕ → Io × Bool → Started
unfolding release services greet first_presence
with_socket os username ip (io, false) = exited (release os io)
with_socket os username ip (io, true) =
    let s = services os username ip io in
    logged_in username (first_presence os (record s { io = greet os username ip s.io }))

unfoldable pub with_address : Os → Bytes → Io × Option ℕ → Started
unfolding with_socket make_ready
with_address os username (io, none) = exited io
with_address os username (io, some ip) = with_socket os username ip (make_ready os io)

unfoldable pub with_username : Os → Io × Option Bytes → Started
unfolding with_address own_address
with_username os (io, none) = exited io
with_username os (io, some username) = with_address os username (own_address os io)

unfoldable pub start_up : Os → List Bytes → Started
unfolding with_username read_username
start_up os argv = with_username os (read_username argv fresh)

-- What the program meets while it runs: the turns of the other threads between the lines that the
-- menu asks for, the menu's clock and random numbers, and the turns that end while `main` joins.
pub record Course : Type 0 where
  pub turns : ℕ → List Event
  pub now : ℕ → ℕ
  pub random : ℕ → ℕ
  pub input : List Bytes
  pub last_turns : List Event

abbrev pub world : Os → Course → World
world os c = record { others = λ n s. run_others os (c.turns n) s; now = c.now; random = c.random }

-- From `running = false` to the end: the socket is closed, the room is left, and the threads end.
unfoldable pub close_down : Os → List Event → Services → Services
unfolding release leave_room run_others
close_down os last s =
    let (groups, io) = leave_room os s.groups (release os s.io) in
    let s' = run_others os last (record s { groups = groups; io = io }) in
    record s' { io = emit (print (ascii "Ha det.\n")) s'.io }

-- The program's end: its exit status, and what there is then.
pub data Ended : Type 0 where
  failed : Io → Ended
  finished : Services → Ended

-- What follows the menu.
unfoldable pub after_menu : Os → List Event → Option (Menu × Bool) → Option Ended
unfolding close_down
after_menu os last none = none
after_menu os last (some (m, ok)) = some (finished (close_down os last m.services))

-- What follows the start-up.
unfoldable pub run_from : Os → Course → ℕ → Started → Option Ended
unfolding after_menu run_text_menu_loop
run_from os c fuel (exited io) = some (failed io)
run_from os c fuel (logged_in username s) = after_menu os c.last_turns (
    run_text_menu_loop os (world os c) username fuel
      (record { services = s; input = c.input; asked = 0 }))

-- `main`; `none` where the menu's fuel runs out.
unfoldable pub run_main : Os → List Bytes → Course → ℕ → Option Ended
unfolding start_up run_from
run_main os argv c fuel = run_from os c fuel (start_up os argv)
