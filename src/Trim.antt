-- ===== src/Trim.antt =====
-- oblig1_chattsystem/include/chat/util/string_trim.hpp
pub mod Laws
use nettverk.Prelude.{ℕ, Bool, ◌||◌, Bytes, strip_back, strip_front, ◌==◌}

-- '\r', ' ' and '\t'
abbrev pub is_back_blank : ℕ → Bool
is_back_blank c = c == 13 || c == 32 || c == 9

abbrev pub is_front_blank : ℕ → Bool
is_front_blank c = c == 32 || c == 9

unfoldable pub trim_in_place : Bytes → Bytes
trim_in_place s = strip_front is_front_blank (strip_back is_back_blank s)
