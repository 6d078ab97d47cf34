-- ===== src/Program/Traffic/Whole.antt =====
-- The whole program sends nothing but lines under the user name of its command line.
use nettverk.Prelude.{
  ℕ, suc, ◌<◌, ◌≡◌, refl, sym, subst, Bool, true, false, Option, none, some, List, [], ◌∷◌, Bytes,
  All, arith, Bool-cases, inl, inr, is_empty, length,
}
use nettverk.Net.{Os}
use nettverk.Io.{Io, Effect}
use nettverk.Trim.{trim_in_place}
use nettverk.Trim.Laws.{trim_idem}
use nettverk.UdpSocket.{UdpSocket}
use nettverk.LocalEndpoint.{get_local_ipv4, ask_route, ask_name}
use nettverk.Receive.{Services, Polled, run_receive_multiplex_loop}
use nettverk.Receive.Keeps.{loop_keeps}
use nettverk.Receive.Silence.{sends, loop_silent}
use nettverk.Menu.Console.{Menu}
use nettverk.Menu.Loop.{run_text_menu_loop}
use nettverk.Menu.Loop.Rounds.{run_keeps}
use nettverk.Program.Traffic.Signed.{
  Anything, IsSigned, IsFrom, IsSigned-voice, IsSigned-sends, IsSigned-traffic, signed-IsFrom,
}
use nettverk.Program.Traffic.{traffic, Admits, Admits-same}
use nettverk.Program.Traffic.Rooms.{leave-Says}
use nettverk.Program.Traffic.Threads.{
  Named-Keeps, Speaks, io-Speaks, rooms-Speaks, first-Speaks, heartbeat-Speaks, group_advert-Speaks,
}
use nettverk.Program.Traffic.Typed.{Speaks-Keeps}
use nettverk.Program.Threads.{Event, receives, beats, announces, other, run_others}
use nettverk.Program.{
  Started, exited, logged_in, read_username, own_address, attempt, make_ready, release, services,
  greet, with_socket, with_address, with_username, start_up, Course, world, close_down, Ended,
  failed, finished, after_menu, run_from, run_main, fresh,
}
use nettverk.Program.Ends.{run_main_ends}

address_silent : (os : Os) (io : Io) → traffic (own_address os io).0.out ≡ traffic io.out
unfolding own_address get_local_ipv4 ask_route ask_name traffic
address_silent os io = ground arith

attempt_silent :
    (os : Os) (what : Bytes) (call : ℕ → UdpSocket → UdpSocket × Bool) (r : Io × Bool)
    → traffic (attempt os what call r).0.out ≡ traffic r.0.out
unfolding attempt traffic
attempt_silent os what call (io, false) = refl
attempt_silent os what call (io, true) = ground arith

ready_silent : (os : Os) (io : Io) → traffic (make_ready os io).0.out ≡ traffic io.out
unfolding make_ready
ready_silent os io = simp (attempt_silent)

module _ (u : Bytes) (os : Os) where
  -- The services carry the name `u`, and have sent lines under it only.
  abbrev Own : Services → Type 0
  Own = Speaks u (IsSigned u)

  loop-Own : (ps : List Polled) (s : Services) → Own s → Own (run_receive_multiplex_loop os ps s)
  loop-Own ps s h = record {
    named = loop_keeps os (Named-Keeps os u) ps s h.named;
    admits =
        IsSigned-traffic u _
          (subst (All (IsSigned u)) (sym (loop_silent os ps s)) (IsSigned-sends u _ h.admits));
  }

  other-Own : (s : Services) (e : Event) → Own s → Own (other os s e)
  unfolding other
  other-Own s (receives p) h = loop-Own (p ∷ []) s h
  other-Own s (beats t) h = heartbeat-Speaks Anything u (IsSigned u) (IsSigned-voice u) os t s h
  other-Own s (announces t) h =
      group_advert-Speaks Anything u (IsSigned u) (IsSigned-voice u) os t s h

  run_others-Own : (es : List Event) (s : Services) → Own s → Own (run_others os es s)
  unfolding run_others
  run_others-Own [] s h = h
  run_others-Own (e ∷ es) s h = run_others-Own es (other os s e) (other-Own s e h)

  -- A program that has started under the name `u`.
  abbrev Begun : Started → Type 0
  Begun (exited io) = Admits (IsSigned u) io.out
  Begun (logged_in username s) = (username ≡ u) × Own s

  with_socket-Begun :
      (ip : ℕ) (r : Io × Bool) → Admits (IsSigned u) r.0.out → Begun (with_socket os u ip r)
  unfolding with_socket release services greet traffic
  with_socket-Begun ip (io, false) a = a
  with_socket-Begun ip (io, true) a = (
    refl,
    first-Speaks Anything u (IsSigned u) (IsSigned-voice u) os _
        (record { named = record { discovery = refl; groups = refl; direct = refl }; admits = a }),
  )

  with_address-Begun :
      (r : Io × Option ℕ) → Admits (IsSigned u) r.0.out → Begun (with_address os u r)
  unfolding with_address
  with_address-Begun (io, none) a = a
  with_address-Begun (io, some ip) a =
      with_socket-Begun ip (make_ready os io)
        (Admits-same (IsSigned u) io.out _ (ready_silent os io) a)

  close_down-Own :
      (last : List Event) (s : Services) → Own s → Admits (IsSigned u) (close_down os last s).io.out
  unfolding close_down release traffic
  close_down-Own last s h =
      let h' = io-Speaks u (IsSigned u) s (release os s.io) h h.admits in
      let left =
        leave-Says u (IsSigned u) os s.groups (release os s.io) (h'.named.groups, h'.admits) in
      (run_others-Own last _ (rooms-Speaks u (IsSigned u) _ _ _ h' left)).admits

-- What was put out in all.
abbrev pub output : Ended → List Effect
output (failed io) = io.out
output (finished s) = s.io.out

-- A program that has ended sent lines under the name `u` only.
abbrev Kept : Bytes → Option Ended → Type 0
Kept u none = Unit
Kept u (some e) = Admits (IsSigned u) (output e)

after_menu-Kept :
    (os : Os) (u : Bytes) (last : List Event) (o : Option (Menu × Bool))
    → ((r : Menu × Bool) → o ≡ some r → Own u os r.0.services)
    → Kept u (after_menu os last o)
unfolding after_menu
after_menu-Kept os u last none h = tt
after_menu-Kept os u last (some (m, ok)) h = close_down-Own u os last m.services (h (m, ok) refl)

run_from-Kept :
    (os : Os) (u : Bytes) (c : Course) (fuel : ℕ) (x : Started)
    → trim_in_place u ≡ u
    → Begun u os x
    → Kept u (run_from os c fuel x)
unfolding run_from
run_from-Kept os u c fuel (exited io) clean q = q
run_from-Kept os u c fuel (logged_in username s) clean (e, h) =
    let m : Menu = record { services = s; input = c.input; asked = 0 } in
    after_menu-Kept os u c.last_turns _ (λ r q.
      run_keeps os (world os c) u
        (Speaks-Keeps Anything u (IsSigned u) (IsSigned-voice u) os (world os c) (λ text. tt) clean
          (λ n s' h'. run_others-Own u os (c.turns n) s' h'))
        fuel m h r (subst (λ v. run_text_menu_loop os (world os c) v fuel m ≡ some r) e q))

start_up-Begun :
    (os : Os) (p arg : Bytes) (rest : List Bytes)
    → Begun (trim_in_place arg) os (start_up os (p ∷ arg ∷ rest))
unfolding start_up read_username with_username traffic
start_up-Begun os p arg rest =
    let u = trim_in_place arg in
    elim (Bool-cases (is_empty u)) [
      | inl e ↦ rw e tt
      | inr e ↦ rw e (
          with_address-Begun u os (own_address os fresh) (
            Admits-same (IsSigned u) fresh.out (own_address os fresh).0.out
              (address_silent os fresh) tt))
    ]

run_main-IsSigned :
    (os : Os) (p arg : Bytes) (rest : List Bytes) (c : Course) (fuel : ℕ)
    → Kept (trim_in_place arg) (run_main os (p ∷ arg ∷ rest) c fuel)
unfolding run_main
run_main-IsSigned os p arg rest c fuel =
    run_from-Kept os (trim_in_place arg) c fuel (start_up os (p ∷ arg ∷ rest)) (trim_idem arg)
      (start_up-Begun os p arg rest)

-- The program ends, and what it has sent was built under the user name of the command line.
pub ends-IsSigned :
    (os : Os) (p arg : Bytes) (rest : List Bytes) (c : Course)
    → (e : Ended) × ((fuel : ℕ)
        → length c.input < fuel
        → run_main os (p ∷ arg ∷ rest) c fuel ≡ some e)
      × All (IsSigned (trim_in_place arg)) (sends (output e))
ends-IsSigned os p arg rest c =
    let u = trim_in_place arg in
    let n = suc (length c.input) in
    let (e, ends) = run_main_ends os (p ∷ arg ∷ rest) c in
    (
      e,
      ends,
      IsSigned-sends u (output e)
          (subst (Kept u) (ends n (omega arith)) (run_main-IsSigned os p arg rest c n)),
    )

-- The program ends, and every datagram that it has sent, to anyone, is a line that reads back as a
-- message whose user name is the one on the command line, without the blanks around it, whatever is
-- typed, whatever the other threads do and whatever arrives.
pub sent_under_own_name :
    (os : Os) (p arg : Bytes) (rest : List Bytes) (c : Course)
    → (e : Ended) × ((fuel : ℕ)
        → length c.input < fuel
        → run_main os (p ∷ arg ∷ rest) c fuel ≡ some e)
      × All (IsFrom (trim_in_place arg)) (sends (output e))
sent_under_own_name os p arg rest c =
    let (e, ends, h) = ends-IsSigned os p arg rest c in
    (e, ends, signed-IsFrom (trim_in_place arg) (output e) h)
