-- ===== src/Secp/Fields.antt =====
-- What the three field checks of secp.cpp promise, and how long a built line is.
use nettverk.Prelude.{
  ◌+◌, ◌≤◌, ◌≡◌, refl, true, false, [], ◌∷◌, ◌++◌, arith, Bytes, bytes_eq, bytes_eq_iff, length,
  length-append, All, Bool-cases, inl, inr, is_empty,
}
use nettverk.Secp.{
  SecpType, presence, room_announce, invite, chat, unknown, pipe, newline, dash,
  contains_pipe_or_newline, is_room_ok, is_username_ok, is_payload_ok, fields_ok, secp_type_name,
  parse_secp_type, join_fields, is_line_end,
}

-- The text can stand between two separators of a line.
abbrev pub IsPlain : Bytes → Type 0
IsPlain s = contains_pipe_or_newline s ≡ false

pub secp_type_name-IsPlain : (t : SecpType) → IsPlain (secp_type_name t)
unfolding secp_type_name contains_pipe_or_newline
secp_type_name-IsPlain presence = refl
secp_type_name-IsPlain room_announce = refl
secp_type_name-IsPlain invite = refl
secp_type_name-IsPlain chat = refl
secp_type_name-IsPlain unknown = refl

pub length-secp_type_name-le : (t : SecpType) → length (secp_type_name t) ≤ 13
unfolding secp_type_name
length-secp_type_name-le presence = omega arith
length-secp_type_name-le room_announce = omega arith
length-secp_type_name-le invite = omega arith
length-secp_type_name-le chat = omega arith
length-secp_type_name-le unknown = omega arith

dash-IsPlain : IsPlain dash
unfolding contains_pipe_or_newline
dash-IsPlain = refl

-- An accepted room, username and payload are plain and short.
pub room_ok : (r : Bytes) → is_room_ok r ≡ true → IsPlain r × (length r ≤ 32)
unfolding is_room_ok
room_ok r h = elim (Bool-cases (bytes_eq r dash)) [
  | inl e ↦ rw ((bytes_eq_iff r dash).0 e) (dash-IsPlain, omega arith)
  | inr e ↦ ground arith
]

pub username_ok :
    (u : Bytes) → is_username_ok u ≡ true → IsPlain u × (length u ≤ 32) × (is_empty u ≡ false)
unfolding is_username_ok
username_ok u h = ground arith

pub payload_ok : (p : Bytes) → is_payload_ok p ≡ true → IsPlain p × (length p ≤ 512)
unfolding is_payload_ok
payload_ok p h = elim (Bool-cases (bytes_eq p dash)) [
  | inl e ↦ rw ((bytes_eq_iff p dash).0 e) (dash-IsPlain, omega arith)
  | inr e ↦ ground arith
]

pub record FieldsOk (room username payload : Bytes) : Type 0 where
  pub room_plain : IsPlain room
  pub room_short : length room ≤ 32
  pub username_plain : IsPlain username
  pub username_short : length username ≤ 32
  pub username_filled : is_empty username ≡ false
  pub payload_plain : IsPlain payload
  pub payload_short : length payload ≤ 512

pub fields_ok-FieldsOk : (r u p : Bytes) → fields_ok r u p ≡ true → FieldsOk r u p
unfolding fields_ok
fields_ok-FieldsOk r u p h = ground (arith, room_ok r, username_ok u, payload_ok p)

pub length-join_fields :
    (t r u p : Bytes) → length (join_fields t r u p) ≡ length t + length r + length u + length p + 3
unfolding join_fields
length-join_fields t r u p = omega (
  arith,
  length-append t (pipe ∷ (r ++ pipe ∷ (u ++ pipe ∷ p))),
  length-append r (pipe ∷ (u ++ pipe ∷ p)),
  length-append u (pipe ∷ p),
)

-- The text of an accepted message, with its newline.
abbrev pub line_of : SecpType → Bytes → Bytes → Bytes → Bytes
line_of t r u p = join_fields (secp_type_name t) r u p ++ newline ∷ []

pub length-line_of-le :
    (t : SecpType) (r u p : Bytes) → FieldsOk r u p → length (line_of t r u p) ≤ 593
length-line_of-le t r u p ok = omega (
  arith,
  length-append (join_fields (secp_type_name t) r u p) (newline ∷ []),
  length-join_fields (secp_type_name t) r u p,
  length-secp_type_name-le t,
)

pub plain_not_line_end : (s : Bytes) → IsPlain s → All (λ c. is_line_end c ≡ false) s
unfolding contains_pipe_or_newline
plain_not_line_end [] h = tt
plain_not_line_end (c ∷ s) h = ground (arith, plain_not_line_end s)

pub parse-secp_type_name : (t : SecpType) → parse_secp_type (secp_type_name t) ≡ t
unfolding parse_secp_type secp_type_name bytes_eq
parse-secp_type_name presence = refl
parse-secp_type_name room_announce = refl
parse-secp_type_name invite = refl
parse-secp_type_name chat = refl
parse-secp_type_name unknown = refl
