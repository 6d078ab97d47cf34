-- ===== src/Menu/Choice/Laws.antt =====
-- Which lines the menu takes for a choice.
use nettverk.Prelude.{
  ℕ, zero, suc, ◌+◌, ◌-◌, ◌*◌, ◌≤◌, ◌≡◌, refl, true, false, ◌&&◌, none, some, [], ◌∷◌, Bytes, All,
  arith, leb, is_empty, length, pos, negsuc, ℤ, if◌then◌else◌, ap,
}
use nettverk.Trim.{trim_in_place}
use nettverk.Menu.Strtol.{
  is_digit, c_str, read_digits, skip_spaces, read_number, read_sign, in_long, strtol,
}
use nettverk.Menu.Choice.{in_menu, parse_menu_choice}

unfoldable pub power_of_ten : ℕ → ℕ
power_of_ten zero = 1
power_of_ten (suc k) = 10 * power_of_ten k

-- The number that a text of digits writes, by the places of its digits.
unfoldable pub decimal : Bytes → ℕ
unfolding power_of_ten
decimal [] = 0
decimal (c ∷ s) = (c - b'0') * power_of_ten (length s) + decimal s

read_digits-decimal :
    (n : ℕ) (s : Bytes)
    → All (λ c. is_digit c ≡ true) s
    → read_digits n s ≡ (n * power_of_ten (length s) + decimal s, [])
unfolding read_digits decimal power_of_ten
read_digits-decimal n [] h = ap (λ k. (k, [])) (omega arith)
read_digits-decimal n (c ∷ s) (d, h) =
    rw (d, read_digits-decimal (n * 10 + (c - b'0')) s h) (ap (λ k. (k, [])) (grind arith))

c_str_digits : (s : Bytes) → All (λ c. is_digit c ≡ true) s → c_str s ≡ s
unfolding c_str
c_str_digits [] h = refl
c_str_digits (c ∷ s) (d, h) = ground (arith, d, c_str_digits s h)

in_menu_bounds : (v : ℤ) (n : ℕ) → in_menu v ≡ some n → (1 ≤ n) × (n ≤ 12)
in_menu_bounds (pos v) n h = ground (arith, h)
in_menu_bounds (negsuc v) n h = absurd (cc)

-- Every choice that the menu takes from a line is a number from 1 to 12.
pub parse_menu_choice_bounds :
    (s : Bytes) (n : ℕ) → parse_menu_choice s ≡ some n → (1 ≤ n) × (n ≤ 12)
unfolding parse_menu_choice
parse_menu_choice_bounds s n h = ground (arith, h, λ (v : ℤ). in_menu_bounds v n)

-- The number that a text of digits is read as: itself, held to the range of `long`.
strtol_digits :
    (s : Bytes)
    → is_empty s ≡ false
    → All (λ c. is_digit c ≡ true) s
    → let (errno, value) = in_long false (decimal s) in
      strtol s ≡ record { errno = errno; value = value; converted = true; rest = [] }
unfolding strtol skip_spaces read_sign read_number
strtol_digits [] n h = absurd (cc)
strtol_digits (c ∷ s) n (d, h) =
    let r = read_digits-decimal 0 (c ∷ s) (d, h) in ground (arith, d, r)

-- Where what is left of a line without the blanks around it is a number in decimal digits, the menu
-- takes it for a choice exactly if that number is from 1 to 12, however many digits there are.
pub parse_menu_choice-decimal :
    (s : Bytes)
    → is_empty (trim_in_place s) ≡ false
    → All (λ c. is_digit c ≡ true) (trim_in_place s)
    → parse_menu_choice s
      ≡ (let v = decimal (trim_in_place s) in if leb 1 v && leb v 12 then some v else none)
unfolding parse_menu_choice in_long
parse_menu_choice-decimal s n h =
    let t = strtol_digits (trim_in_place s) n h in
    rw (n, c_str_digits (trim_in_place s) h, t) (ground arith)
