-- ===== src/Menu/Loop/Ends.antt =====
-- The end of the menu's loop: every round takes a line of the input.
use nettverk.Prelude.{
  [], ap, false, ◌∙◌, ◌⊎◌, ℕ, zero, suc, ◌<◌, ◌≡◌, refl, subst, Bool, Option, none, some, Bytes,
  length, arith, inl, inr,
}
use nettverk.Net.{Os}
use nettverk.Menu.Console.{World, Menu, put, get_line, get_trimmed}
use nettverk.Menu.Listings.{print_menu}
use nettverk.Menu.Loop.{Round, again, returned, read_choice, round, run_text_menu_loop}
use nettverk.Menu.Loop.Keeps.{Keeps, kept, left}
use nettverk.Menu.Loop.Answers.{round-false}
use nettverk.Menu.Loop.Rounds.{read_choice_keeps}

-- Fewer than `n` lines are left.
abbrev Fewer : ℕ → Menu → Type 0
Fewer n m = length m.input < n

get_line-Fewer : (n : ℕ) (w : World) (m : Menu) → Fewer n m → Fewer n (get_line w m).0
unfolding get_line
get_line-Fewer n w m h = ground arith

Fewer-Keeps : (os : Os) (w : World) (username : Bytes) (n : ℕ) → Keeps os w username (Fewer n)
unfolding put
Fewer-Keeps os w username n = record {
  puts = λ m t p. p;
  complains = λ m t p. p;
  reads = λ m p. get_line-Fewer n w m p;
  chats = λ m msg p. p;
  lists = λ m now p. p;
  creates = λ m name p. p;
  joins = λ m name now p. p;
  leaves = λ m p. p;
  group_chats = λ m msg p. p;
  invites = λ m who random now p. p;
  accepts = λ m sid now p. p;
  declines = λ m sid reason p. p;
  private_chats = λ m sid msg p. p;
}

-- A line that was read is one less.
get_trimmed_shorter :
    (w : World) (m : Menu) (line : Bytes)
    → (get_trimmed w m).1 ≡ some line
    → length (get_trimmed w m).0.input < length m.input
unfolding get_trimmed get_line
get_trimmed_shorter w m line h = ground arith

Round-cases :
    (x : Round) → ((m : Menu) × (ok : Bool) × (x ≡ returned m ok)) ⊎ ((m : Menu) × (x ≡ again m))
Round-cases (again m) = inr (m, refl)
Round-cases (returned m ok) = inl (m, ok, refl)

-- A round that goes on has read a line.
read_choice-Fewer :
    (os : Os) (w : World) (username : Bytes) (n : ℕ) (r : Menu × Option Bytes) (m' : Menu)
    → ((line : Bytes) → r.1 ≡ some line → Fewer n r.0)
    → read_choice os w username r ≡ again m'
    → Fewer n m'
unfolding read_choice
read_choice-Fewer os w username n (m, none) m' h e = cc
read_choice-Fewer os w username n (m, some line) m' h e =
    subst (λ x. Fewer n (left x)) e
      (read_choice_keeps os w username (Fewer-Keeps os w username n) (m, some line)
        (kept (h line refl)))

round_fewer :
    (os : Os) (w : World) (username : Bytes) (m m' : Menu)
    → round os w username m ≡ again m'
    → length m'.input < length m.input
unfolding round print_menu put
round_fewer os w username m m' e =
    read_choice-Fewer os w username (length m.input) _ m'
      (λ line h. get_trimmed_shorter w (print_menu m) line h) e

module _ (os : Os) (w : World) (username : Bytes) (m : Menu) where
  returns_now :
      (m' : Menu) (ok : Bool)
      → round os w username m ≡ returned m' ok
      → (fuel : ℕ) → length m.input < fuel
      → run_text_menu_loop os w username fuel m ≡ some (m', ok)
  unfolding run_text_menu_loop
  returns_now m' ok e zero h = absurd (omega (arith, h))
  returns_now m' ok e (suc fuel) h = rw (run_text_menu_loop, e) refl

  goes_on :
      (m' : Menu) (r : Menu × Bool)
      → round os w username m ≡ again m'
      → ((fuel : ℕ) → length m'.input < fuel → run_text_menu_loop os w username fuel m' ≡ some r)
      → (fuel : ℕ) → length m.input < fuel
      → run_text_menu_loop os w username fuel m ≡ some r
  unfolding run_text_menu_loop
  goes_on m' r e more zero h = absurd (omega (arith, h))
  goes_on m' r e more (suc fuel) h =
      rw (run_text_menu_loop, e) (more fuel (omega (arith, h, round_fewer os w username m m' e)))

ends_within :
    (os : Os) (w : World) (username : Bytes) (n : ℕ) (m : Menu)
    → length m.input < n
    → (r : Menu × Bool) × ((fuel : ℕ)
        → length m.input < fuel
        → run_text_menu_loop os w username fuel m ≡ some r)
      × (r.1 ≡ false → r.0.input ≡ [])
ends_within os w username zero m h = absurd (omega (arith, h))
ends_within os w username (suc n) m h = elim (Round-cases (round os w username m)) [
  | inl (m', ok, e) ↦ (
    (m', ok),
    returns_now os w username m m' ok e,
    λ h. round-false os w username m m' (e ∙ ap (returned m') h),
  )
  | inr (m', e) ↦
      let f = round_fewer os w username m m' e in
      let (r, more, ended) = ends_within os w username n m' (omega (arith, f, h)) in
      (r, goes_on os w username m m' r e more, ended)
]

-- The menu always ends: there is a state and an answer which it returns on every fuel that is more
-- than the number of input lines, whatever the operating system answers and the other threads do.
-- The answer is false only where no line of the input is left.
pub run_text_menu_loop_ends :
    (os : Os) (w : World) (username : Bytes) (m : Menu)
    → (r : Menu × Bool) × ((fuel : ℕ)
        → length m.input < fuel
        → run_text_menu_loop os w username fuel m ≡ some r)
      × (r.1 ≡ false → r.0.input ≡ [])
run_text_menu_loop_ends os w username m =
    ends_within os w username (suc (length m.input)) m (omega arith)
