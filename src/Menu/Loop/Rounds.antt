-- ===== src/Menu/Loop/Rounds.antt =====
-- The rounds of the menu keep what the menu's steps keep.
use nettverk.Prelude.{
  ℕ, zero, suc, ◌≡◌, Bool, true, false, Option, none, some, Bytes, arith, ◌==◌, if_holds,
  option_holds,
}
use nettverk.Net.{Os}
use nettverk.Menu.Choice.{parse_menu_choice}
use nettverk.Menu.Console.{World, Menu}
use nettverk.Menu.Listings.{print_menu, print_active_users}
use nettverk.Menu.Sessions.{print_active_sessions}
use nettverk.Menu.Loop.{
  Round, again, returned, unless_ended, choose, read_choice, round, run_text_menu_loop,
}
use nettverk.Menu.Loop.Keeps.{Keeps, Kept, kept, left}
use nettverk.Menu.Loop.Keeps.Rooms.{
  create_keeps, group_keeps, join_keeps, leave_keeps, listing_keeps, lobby_prompt_keeps,
}
use nettverk.Menu.Loop.Keeps.{error_keeps, trimmed_keeps}
use nettverk.Menu.Loop.Keeps.Sessions.{invite_keeps, private_keeps, reply_keeps}

module _ (os : Os) (w : World) (username : Bytes) {P : Menu → Type 0}
    (k : Keeps os w username P) where
  pub unless_keeps : (r : Menu × Bool) → Kept P r → P (left (unless_ended r))
  unless_keeps (m, true) (kept p) = p
  unless_keeps (m, false) (kept p) = p

  pub users_keeps : (m : Menu) → P m → P (print_active_users os w m)
  unfolding print_active_users
  users_keeps m p = k.puts m _ p

  pub sessions_keeps : (m : Menu) → P m → P (print_active_sessions os m)
  unfolding print_active_sessions
  sessions_keeps m p = k.puts m _ p

  pub menu_keeps : (m : Menu) → P m → P (print_menu m)
  unfolding print_menu
  menu_keeps m p = k.puts m _ p

  pub choose_keeps : (choice : ℕ) (m : Menu) → P m → P (left (choose os w username choice m))
  unfolding choose
  choose_keeps choice m p =
      if_holds (λ r. P (left r)) (choice == 1) (users_keeps m p)
        (if_holds (λ r. P (left r)) (choice == 2)
          (unless_keeps _ (lobby_prompt_keeps os w username k m p))
          (if_holds (λ r. P (left r)) (choice == 3)
            (unless_keeps _ (create_keeps os w username k m p))
            (if_holds (λ r. P (left r)) (choice == 4) (listing_keeps os w username k m p)
              (if_holds (λ r. P (left r)) (choice == 5)
                (unless_keeps _ (join_keeps os w username k m p))
                (if_holds (λ r. P (left r)) (choice == 6)
                  (unless_keeps _ (group_keeps os w username k m p))
                  (if_holds (λ r. P (left r)) (choice == 7) (leave_keeps os w username k m p)
                    (if_holds (λ r. P (left r)) (choice == 8)
                      (unless_keeps _ (invite_keeps os w username k m p))
                      (if_holds (λ r. P (left r)) (choice == 9)
                        (unless_keeps _ (reply_keeps os w username k m p))
                        (if_holds (λ r. P (left r)) (choice == 10)
                          (unless_keeps _ (private_keeps os w username k m p))
                          (if_holds (λ r. P (left r)) (choice == 11) (sessions_keeps m p)
                            (if_holds (λ r. P (left r)) (choice == 12) p p)))))))))))

  pub read_choice_keeps :
      (r : Menu × Option Bytes) → Kept P r → P (left (read_choice os w username r))
  unfolding read_choice
  read_choice_keeps (m, none) (kept p) = error_keeps os w username k _ m p
  read_choice_keeps (m, some line) (kept p) =
      option_holds (λ r. P (left r)) (parse_menu_choice line) (error_keeps os w username k _ m p)
        (λ choice. choose_keeps choice m p)

  pub round_keeps : (m : Menu) → P m → P (left (round os w username m))
  unfolding round
  round_keeps m p = read_choice_keeps _ (trimmed_keeps os w username k _ (menu_keeps m p))

  pub run_keeps :
      (fuel : ℕ) (m : Menu)
      → P m
      → (r : Menu × Bool) → run_text_menu_loop os w username fuel m ≡ some r
      → P r.0
  unfolding run_text_menu_loop
  run_keeps zero m p r h = cc
  run_keeps (suc fuel) m p r h =
      goes (round os w username m) (round_keeps m p) (λ m' q e. run_keeps fuel m' q r e) h
    where
      goes :
          (x : Round)
          → P (left x)
          → ((m' : Menu) → P m' → run_text_menu_loop os w username fuel m' ≡ some r → P r.0)
          → elim x [
            | again m' ↦ run_text_menu_loop os w username fuel m'
            | returned m' ok ↦ some (m', ok)
          ]
            ≡ some r
          → P r.0
      goes (again m') q on e = on m' q e
      goes (returned m' ok) q on e = ground (arith, q, e)
