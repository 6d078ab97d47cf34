-- ===== src/Menu/Strtol.antt =====
-- `std::strtol(s, &end, 10)`, as `parse_menu_choice` of oblig1_chattsystem/src/app/text_menu.cpp
-- uses it: blanks, a sign, digits, and what is left.
use nettverk.Prelude.{
  ℕ, ◌+◌, ◌-◌, ◌*◌, Bool, true, false, ◌&&◌, ◌||◌, [], ◌∷◌, Bytes, ℤ, pos, negsuc, leb, ltb, ◌==◌,
  if◌then◌else◌,
}

-- `isspace` in the C locale.
abbrev pub is_space : ℕ → Bool
is_space c = c == 32 || (leb 9 c && leb c 13)

abbrev pub is_digit : ℕ → Bool
is_digit c = leb b'0' c && leb c b'9'

-- What `s.c_str()` shows of a text: all up to the first NUL.
unfoldable pub c_str : Bytes → Bytes
c_str [] = []
c_str (c ∷ s) = if c == 0 then [] else c ∷ c_str s

-- The digits at the front: their value behind `n`, and the rest.
unfoldable pub read_digits : ℕ → Bytes → ℕ × Bytes
read_digits n [] = (n, [])
read_digits n (c ∷ s) = if is_digit c then read_digits (n * 10 + (c - b'0')) s else (n, c ∷ s)

unfoldable pub skip_spaces : Bytes → Bytes
skip_spaces [] = []
skip_spaces (c ∷ s) = if is_space c then skip_spaces s else c ∷ s

-- `errno`, the value, whether anything was read, and what `end` points at.
pub record Strtol : Type 0 where
  pub errno : ℕ
  pub value : ℤ
  pub converted : Bool
  pub rest : Bytes

-- `LONG_MAX`, and `ERANGE`.
abbrev pub long_max : ℕ
long_max = 9223372036854775807

abbrev pub erange : ℕ
erange = 34

abbrev pub minus : ℕ → ℤ
minus n = if n == 0 then pos 0 else negsuc (n - 1)

-- The value of a number with its sign, held to the range of `long`.
unfoldable pub in_long : Bool → ℕ → ℕ × ℤ
in_long false n = if ltb long_max n then (erange, pos long_max) else (0, pos n)
in_long true n = if ltb (long_max + 1) n then (erange, minus (long_max + 1)) else (0, minus n)

-- Behind blanks and a sign. Where no digit follows, nothing was read at all, and `rest` does not count.
unfoldable pub read_number : Bool → Bytes → Strtol
unfolding read_digits in_long
read_number negative [] = record { errno = 0; value = pos 0; converted = false; rest = [] }
read_number negative (c ∷ s) =
    if is_digit c
    then (let (n, rest) = read_digits 0 (c ∷ s) in
        let (errno, value) = in_long negative n in
        record { errno = errno; value = value; converted = true; rest = rest })
    else record { errno = 0; value = pos 0; converted = false; rest = c ∷ s }

unfoldable pub read_sign : Bytes → Strtol
unfolding read_number
read_sign [] = read_number false []
read_sign (c ∷ s) =
    if c == b'-'
    then read_number true s
    else if c == b'+'
    then read_number false s
    else read_number false (c ∷ s)

unfoldable pub strtol : Bytes → Strtol
unfolding read_sign skip_spaces
strtol s = read_sign (skip_spaces s)
