-- ===== src/Menu/Console.antt =====
-- Input and output of the menu (oblig1_chattsystem/src/app/text_menu.cpp), and its surroundings: what
-- the other threads do while it waits for a line, and the readings of the clock and of the random
-- numbers that follow.
use nettverk.Prelude.{ℕ, suc, Option, none, some, [], ◌∷◌, ◌++◌, List, Bytes, ascii}
use nettverk.Io.{Io, Effect, print, print_error, emit}
use nettverk.Trim.{trim_in_place}
use nettverk.Receive.{Services}

-- Everything is numbered by the lines that were asked for so far.
pub record World : Type 0 where
  pub others : ℕ → Services → Services
  pub now : ℕ → ℕ
  pub random : ℕ → ℕ

-- The services, the lines that are still to come before the end of `std::cin`, and the number of
-- lines that were asked for.
pub record Menu : Type 0 where
  pub services : Services
  pub input : List Bytes
  pub asked : ℕ

abbrev pub with_io : Services → Io → Services
with_io s io = record s { io = io }

-- One effect of the menu itself.
unfoldable pub put : Effect → Menu → Menu
put e m = record m { services = with_io m.services (emit e m.services.io) }

unfoldable pub print_line : Bytes → Menu → Menu
unfolding put
print_line msg m = put (print (msg ++ ascii "\n")) m

-- The function `print_error`.
unfoldable pub print_error_line : Bytes → Menu → Menu
unfolding put
print_error_line msg m = put (print_error (msg ++ ascii "\n")) m

-- `std::getline(std::cin, line)`: `none` where it fails.
unfoldable pub get_line : World → Menu → Menu × Option Bytes
get_line w m =
    let s = w.others m.asked m.services in
    elim m.input [
      | [] ↦ (record { services = s; input = []; asked = suc m.asked }, none)
      | line ∷ lines ↦ (record { services = s; input = lines; asked = suc m.asked }, some line)
    ]

-- `if (!std::getline(std::cin, line)) …; chat::trim_in_place(line);`
abbrev trimmed : Option Bytes → Option Bytes
trimmed none = none
trimmed (some line) = some (trim_in_place line)

unfoldable pub get_trimmed : World → Menu → Menu × Option Bytes
unfolding get_line
get_trimmed w m = let (m', line) = get_line w m in (m', trimmed line)

unfoldable pub read_trimmed_line : World → Bytes → Menu → Menu × Option Bytes
unfolding get_trimmed put
read_trimmed_line w prompt m = get_trimmed w (put (print prompt) m)
