-- ===== src/Menu/Choice.antt =====
-- `parse_menu_choice` of oblig1_chattsystem/src/app/text_menu.cpp.
pub mod Laws
use nettverk.Prelude.{
  ℕ, not, ◌||◌, Option, none, some, Bytes, ℤ, pos, negsuc, is_empty, ltb, ◌==◌, if◌then◌else◌,
}
use nettverk.Trim.{trim_in_place}
use nettverk.Menu.Strtol.{c_str, strtol}

-- `if (v < 1 || v > 12) return nullopt; return static_cast<int>(v);`
abbrev pub in_menu : ℤ → Option ℕ
in_menu (pos v) = if ltb v 1 || ltb 12 v then none else some v
in_menu (negsuc v) = none

unfoldable pub parse_menu_choice : Bytes → Option ℕ
unfolding c_str strtol
parse_menu_choice s =
    let t = trim_in_place s in
    if is_empty t
    then none
    else let r = strtol (c_str t) in
      if not (r.errno == 0) || not r.converted || not (is_empty r.rest)
      then none
      else in_menu r.value
