-- ===== src/Program/Validity.antt =====
-- The program as a whole, and what it is for a service to be well formed.
use nettverk.Prelude.{
  ℕ, ◌≡◌, refl, sym, subst, Bool, true, false, not, if_holds, Option, none, some, List, [], ◌∷◌,
  Bytes, find,
}
use nettverk.Net.{Os}
use nettverk.Io.{Io}
use nettverk.Users.Laws.{prune_stale-IsValid}
use nettverk.Discovery.{send_presence_broadcast, prune_stale_peers}
use nettverk.Groups.Reach.{leave-IsValid}
use nettverk.Direct.Reach.{step-UniqueKeys}
use nettverk.Direct.Steps.{step, prunes, resends}
use nettverk.Receive.{Services}
use nettverk.Receive.Validity.{IsValid, loop-IsValid}
use nettverk.Menu.Loop.Validity.{IsSound, menu-IsValid}
use nettverk.Menu.Console.{Menu}
use nettverk.Program.Threads.{
  Event, receives, beats, announces, Turn, beat, heartbeat, group_advert, other, run_others,
}
use nettverk.Program.{
  Started, exited, logged_in, services, first_presence, with_socket, with_address, with_username,
  start_up, Course, world, close_down, Ended, failed, finished, after_menu, run_from, run_main,
  make_ready, own_address, read_username, fresh,
}

beat-IsValid : (os : Os) (t : Turn) (s : Services) → IsValid s → IsValid (beat os t s)
unfolding beat prune_stale_peers step
beat-IsValid os t s v = record {
  users = prune_stale-IsValid s.users t.peers_now 18 v.users;
  groups = v.groups;
  direct = step-UniqueKeys os _ _ (resends t.resend_now 6000 45) (
      step-UniqueKeys os s.direct (send_presence_broadcast os s.discovery s.io).0
        (prunes t.pending_now 30) v.direct);
}

other-IsValid : (os : Os) (s : Services) (e : Event) → IsValid s → IsValid (other os s e)
unfolding other heartbeat group_advert
other-IsValid os s (receives p) v = loop-IsValid os (p ∷ []) s v
other-IsValid os s (beats t) v = if_holds IsValid (not _) v (beat-IsValid os t s v)
other-IsValid os s (announces t) v =
    if_holds IsValid (not _) v (record { users = v.users; groups = v.groups; direct = v.direct })

run_others-IsValid :
    (os : Os) (es : List Event) (s : Services) → IsValid s → IsValid (run_others os es s)
unfolding run_others
run_others-IsValid os [] s v = v
run_others-IsValid os (e ∷ es) s v =
    run_others-IsValid os es (other os s e) (other-IsValid os s e v)

world-IsSound : (os : Os) (c : Course) → IsSound (world os c)
world-IsSound os c = record { others = λ n s v. run_others-IsValid os (c.turns n) s v }

services-IsValid :
    (os : Os) (username : Bytes) (ip : ℕ) (io : Io) → IsValid (services os username ip io)
unfolding services find
services-IsValid os username ip io = record {
  users = record { unique = tt; named = λ k p h. cc; filled = refl; no_self = λ h. refl };
  groups = record { member = refl; named = λ h. sym h; own_active = λ o h. cc; unique = tt };
  direct = tt;
}

-- The services of a program that has logged in are well formed.
abbrev Good : Started → Type 0
Good (exited io) = Unit
Good (logged_in username s) = IsValid s

with_socket-Good :
    (os : Os) (username : Bytes) (ip : ℕ) (r : Io × Bool) → Good (with_socket os username ip r)
unfolding with_socket first_presence
with_socket-Good os username ip (io, false) = tt
with_socket-Good os username ip (io, true) =
    let v = services-IsValid os username ip io in
    record { users = v.users; groups = v.groups; direct = v.direct }

with_address-Good :
    (os : Os) (username : Bytes) (r : Io × Option ℕ) → Good (with_address os username r)
unfolding with_address
with_address-Good os username (io, none) = tt
with_address-Good os username (io, some ip) = with_socket-Good os username ip (make_ready os io)

with_username-Good : (os : Os) (r : Io × Option Bytes) → Good (with_username os r)
unfolding with_username
with_username-Good os (io, none) = tt
with_username-Good os (io, some username) = with_address-Good os username (own_address os io)

start_up-Good : (os : Os) (argv : List Bytes) → Good (start_up os argv)
unfolding start_up
start_up-Good os argv = with_username-Good os (read_username argv fresh)

close_down-IsValid :
    (os : Os) (last : List Event) (s : Services) → IsValid s → IsValid (close_down os last s)
unfolding close_down
close_down-IsValid os last s v =
    let v' = run_others-IsValid os last _ (record {
      users = v.users;
      groups = leave-IsValid os s.groups _ v.groups;
      direct = v.direct;
    }) in
    record { users = v'.users; groups = v'.groups; direct = v'.direct }

-- The services of a program that has finished are well formed.
abbrev Sound : Option Ended → Type 0
Sound none = Unit
Sound (some (failed io)) = Unit
Sound (some (finished s)) = IsValid s

after_menu-Sound :
    (os : Os) (last : List Event) (o : Option (Menu × Bool))
    → ((r : Menu × Bool) → o ≡ some r → IsValid r.0.services)
    → Sound (after_menu os last o)
unfolding after_menu
after_menu-Sound os last none v = tt
after_menu-Sound os last (some (m, ok)) v = close_down-IsValid os last m.services (v (m, ok) refl)

run_from-Sound :
    (os : Os) (c : Course) (fuel : ℕ) (x : Started) → Good x → Sound (run_from os c fuel x)
unfolding run_from
run_from-Sound os c fuel (exited io) g = tt
run_from-Sound os c fuel (logged_in username s) g =
    after_menu-Sound os c.last_turns _
      (λ r q. menu-IsValid os (world os c) username fuel _ r (world-IsSound os c) g q)

-- Whatever the arguments, the operating system's answers, the lines typed and the turns of the other
-- threads: where the program finishes, its directory, its open rooms and its private sessions are
-- well formed.
pub run_main-IsValid :
    (os : Os) (argv : List Bytes) (c : Course) (fuel : ℕ) (s : Services)
    → run_main os argv c fuel ≡ some (finished s)
    → IsValid s
unfolding run_main
run_main-IsValid os argv c fuel s h =
    subst Sound h (run_from-Sound os c fuel (start_up os argv) (start_up-Good os argv))
