-- ===== src/Program/Closed.antt =====
-- What the program has closed and left when it ends.
mod Kept
use nettverk.Prelude.{
  ℕ, suc, ◌<◌, ◌≡◌, refl, sym, ap, subst, ◌∙◌, Bool, true, Option, none, some, List, [], Bytes,
  arith, inl, inr, is_negative, length,
}
use nettverk.Net.{Os}
use nettverk.Io.{Io}
use nettverk.Groups.State.{GroupRoomCoordinator}
use nettverk.Groups.Rooms.{leave_room}
use nettverk.Groups.Channel.{leave_multicast_membership_unlocked, let_go, drop_membership}
use nettverk.Receive.{Services}
use nettverk.Menu.Console.{Menu}
use nettverk.Program.Threads.{Event}
use nettverk.Program.{
  exited, logged_in, Course, close_down, release, Ended, failed, finished, after_menu, run_from,
  run_main,
}
use nettverk.Program.StartUp.{start_up_cases, release_closed}
use nettverk.Program.Ends.{run_main_ends}
use nettverk.Program.Closed.Kept.{IsClosed, io-IsClosed, run_others-IsClosed}

leave_fd :
    (os : Os) (g : GroupRoomCoordinator) (io : Io) → (leave_room os g io).1.udp.fd ≡ io.udp.fd
unfolding leave_room leave_multicast_membership_unlocked let_go drop_membership
leave_fd os g io = ground arith

leave_empties :
    (os : Os) (g : GroupRoomCoordinator) (io : Io)
    → let g' = (leave_room os g io).0 in (g'.mcast_sock ≡ none) × (g'.active_room_name ≡ [])
unfolding leave_room leave_multicast_membership_unlocked
leave_empties os g io = ground arith

close_down-IsClosed : (os : Os) (last : List Event) (s : Services) → IsClosed (close_down os last s)
unfolding close_down
close_down-IsClosed os last s =
    let (g, io) = leave_room os s.groups (release os s.io) in
    let (sock, room) = leave_empties os s.groups (release os s.io) in
    let h : IsClosed (record s { groups = g; io = io }) = record {
      shut = ap is_negative (leave_fd os s.groups (release os s.io)) ∙ release_closed os s.io;
      released = sock;
      left = room;
    } in
    io-IsClosed _ _ refl (run_others-IsClosed os last _ h)

-- Nothing is left open at the end, of whichever kind.
abbrev pub Closed : Ended → Type 0
Closed (failed io) = is_negative io.udp.fd ≡ true
Closed (finished s) = IsClosed s

abbrev WhenEnded : Option Ended → Type 0
WhenEnded none = Unit
WhenEnded (some e) = Closed e

after_menu-WhenEnded :
    (os : Os) (last : List Event) (o : Option (Menu × Bool)) → WhenEnded (after_menu os last o)
unfolding after_menu
after_menu-WhenEnded os last none = tt
after_menu-WhenEnded os last (some (m, ok)) = close_down-IsClosed os last m.services

exited-WhenEnded :
    (os : Os) (c : Course) (fuel : ℕ) (io : Io)
    → is_negative io.udp.fd ≡ true
    → WhenEnded (run_from os c fuel (exited io))
unfolding run_from
exited-WhenEnded os c fuel io h = h

logged_in-WhenEnded :
    (os : Os) (c : Course) (fuel : ℕ) (u : Bytes) (s : Services)
    → WhenEnded (run_from os c fuel (logged_in u s))
unfolding run_from
logged_in-WhenEnded os c fuel u s = after_menu-WhenEnded os c.last_turns _

run_main-WhenEnded :
    (os : Os) (argv : List Bytes) (c : Course) (fuel : ℕ) → WhenEnded (run_main os argv c fuel)
unfolding run_main
run_main-WhenEnded os argv c fuel = elim (start_up_cases os argv) [
  | inl (io, e, _, _, shut) ↦
      subst (λ x. WhenEnded (run_from os c fuel x)) (sym e) (exited-WhenEnded os c fuel io shut)
  | inr (p, arg, rest, _, _, (s, e, _, _, _, _, _)) ↦
      subst (λ x. WhenEnded (run_from os c fuel x)) (sym e) (logged_in-WhenEnded os c fuel _ s)
]

-- The program always ends, with one result on every fuel that is more than the number of lines of
-- its input, whatever the arguments, the operating system's answers and the turns of the other
-- threads. No socket is open then: the shared one is closed, whether the start-up failed or the menu
-- ended, and in the second case the multicast socket is let go too and no room is entered, also
-- after the last turns that the other threads take while they are joined.
pub run_main_closes :
    (os : Os) (argv : List Bytes) (c : Course)
    → (e : Ended) × ((fuel : ℕ) → length c.input < fuel → run_main os argv c fuel ≡ some e)
      × Closed e
run_main_closes os argv c =
    let n = suc (length c.input) in
    let (e, ends) = run_main_ends os argv c in
    (e, ends, subst WhenEnded (ends n (omega arith)) (run_main-WhenEnded os argv c n))
