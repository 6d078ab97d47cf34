-- ===== src/Program/Ends.antt =====
-- The end of the program.
use nettverk.Prelude.{ℕ, ◌<◌, ◌≡◌, refl, ap, some, List, Bytes, length}
use nettverk.Net.{Os}
use nettverk.Menu.Loop.Ends.{run_text_menu_loop_ends}
use nettverk.Program.{
  Started, exited, logged_in, start_up, Course, world, close_down, Ended, failed, finished,
  after_menu, run_from, run_main,
}

run_from_ends :
    (os : Os) (c : Course) (x : Started)
    → (e : Ended) × ((fuel : ℕ) → length c.input < fuel → run_from os c fuel x ≡ some e)
unfolding run_from after_menu
run_from_ends os c (exited io) = (failed io, λ fuel h. refl)
run_from_ends os c (logged_in username s) =
    let (r, more, _) =
      run_text_menu_loop_ends os (world os c) username
        (record { services = s; input = c.input; asked = 0 }) in
    (
      finished (close_down os c.last_turns r.0.services),
      λ fuel h. ap (after_menu os c.last_turns) (more fuel h),
    )

-- The program always ends, with one result on every fuel that is more than the number of lines of
-- its input, whatever the arguments, the operating system's answers and the turns of the other
-- threads.
pub run_main_ends :
    (os : Os) (argv : List Bytes) (c : Course)
    → (e : Ended) × ((fuel : ℕ) → length c.input < fuel → run_main os argv c fuel ≡ some e)
unfolding run_main
run_main_ends os argv c = run_from_ends os c (start_up os argv)
