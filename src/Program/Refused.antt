-- ===== src/Program/Refused.antt =====
-- A user name that the protocol refuses.
pub mod Silence
use nettverk.Prelude.{◌≡◌, false, [], Bytes, arith}
use nettverk.Secp.{SecpType, build_secp_line, fields_ok, is_username_ok}

-- No line can be built under the name `u`.
abbrev pub Refused : Bytes → Type 0
Refused u = (t : SecpType) (room payload : Bytes) → build_secp_line t room u payload ≡ []

pub username-Refused : (u : Bytes) → is_username_ok u ≡ false → Refused u
unfolding build_secp_line fields_ok
username-Refused u h t room payload = ground (arith, h)
