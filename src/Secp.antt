-- ===== src/Secp.antt =====
-- oblig1_chattsystem/src/protocol/secp.cpp, include/chat/protocol/secp.hpp and limits.hpp: the
-- lines of the protocol, `TYPE|ROOM|USERNAME|PAYLOAD\n`.
pub mod Fields
pub mod Accepted
pub mod RoundTrip
pub mod Spelling
use nettverk.Prelude.{
  ℕ, Bool, true, false, not, ◌&&◌, ◌||◌, Option, none, some, List, [], ◌∷◌, ◌++◌, Bytes, ascii,
  bytes_eq, is_empty, length, strip_back, ltb, leb, ◌==◌, if◌then◌else◌,
}
use nettverk.Utf8.{valid_utf8}

abbrev pub max_username_bytes : ℕ
max_username_bytes = 32

abbrev pub max_chat_message_bytes : ℕ
max_chat_message_bytes = 512

abbrev pub max_room_name_bytes : ℕ
max_room_name_bytes = 32

abbrev pub max_packet_bytes : ℕ
max_packet_bytes = 1024

pub data SecpType : Type 0 where
  presence room_announce invite chat unknown : SecpType

pub record SecpMessage : Type 0 where
  pub type : SecpType
  pub room : Bytes
  pub username : Bytes
  pub payload : Bytes

abbrev pub pipe : ℕ
pipe = b'|'

-- '\n' and '\r'
abbrev pub newline : ℕ
newline = 10

abbrev pub carriage_return : ℕ
carriage_return = 13

abbrev pub dash : Bytes
dash = b'-' ∷ []

unfoldable pub contains_pipe_or_newline : Bytes → Bool
contains_pipe_or_newline [] = false
contains_pipe_or_newline (c ∷ s) =
    (c == pipe || c == newline || c == carriage_return) || contains_pipe_or_newline s

-- The last line of the three checks below.
unfoldable pub is_clean : Bytes → Bool
is_clean s = not (contains_pipe_or_newline s) && valid_utf8 s

unfoldable pub is_room_ok : Bytes → Bool
unfolding is_clean
is_room_ok room =
    if bytes_eq room dash
    then true
    else if is_empty room || ltb max_room_name_bytes (length room)
    then false
    else is_clean room

unfoldable pub is_username_ok : Bytes → Bool
unfolding is_clean
is_username_ok u = if is_empty u || ltb max_username_bytes (length u) then false else is_clean u

unfoldable pub is_payload_ok : Bytes → Bool
unfolding is_clean
is_payload_ok p =
    if bytes_eq p dash
    then true
    else if ltb max_chat_message_bytes (length p)
    then false
    else is_clean p

unfoldable pub secp_type_name : SecpType → Bytes
secp_type_name presence = ascii "PRESENCE"
secp_type_name room_announce = ascii "ROOM_ANNOUNCE"
secp_type_name invite = ascii "INVITE"
secp_type_name chat = ascii "CHAT"
secp_type_name unknown = ascii "UNKNOWN"

unfoldable pub parse_secp_type : Bytes → SecpType
parse_secp_type token =
    if bytes_eq token (ascii "PRESENCE")
    then presence
    else if bytes_eq token (ascii "ROOM_ANNOUNCE")
    then room_announce
    else if bytes_eq token (ascii "INVITE")
    then invite
    else if bytes_eq token (ascii "CHAT")
    then chat
    else unknown

abbrev pub is_unknown : SecpType → Bool
is_unknown unknown = true
is_unknown _ = false

-- The three checks that both `build_secp_line` and `parse_secp_line` make.
unfoldable pub fields_ok : Bytes → Bytes → Bytes → Bool
fields_ok room username payload =
    is_room_ok room && is_username_ok username && is_payload_ok payload

-- The text that `build_secp_line` appends up.
unfoldable pub join_fields : Bytes → Bytes → Bytes → Bytes → Bytes
join_fields token room username payload =
    token ++ pipe ∷ (room ++ pipe ∷ (username ++ pipe ∷ payload))

-- The empty text is the code's `return {}`.
unfoldable pub build_secp_line : SecpType → Bytes → Bytes → Bytes → Bytes
unfolding join_fields
build_secp_line type room username payload =
    if is_unknown type
    then []
    else if not (fields_ok room username payload)
    then []
    else let out = join_fields (secp_type_name type) room username payload ++ newline ∷ [] in
      if ltb max_packet_bytes (length out) then [] else out

abbrev pub is_line_end : ℕ → Bool
is_line_end c = c == newline || c == carriage_return

-- The loop over `i`, with the text that is left to read, the part begun at `start` and the parts
-- stored so far. `none` is the return where a fifth part would be stored.
unfoldable pub split_parts : Bytes → Bytes → List Bytes → Option (List Bytes)
split_parts [] part parts = if leb 4 (length parts) then none else some (parts ++ part ∷ [])
split_parts (c ∷ rest) part parts = elim (c == pipe) [
  | true ↦ elim (leb 4 (length parts)) [
    | true ↦ none
    | false ↦ split_parts rest [] (parts ++ part ∷ [])
  ]
  | false ↦ split_parts rest (part ++ c ∷ []) parts
]

-- What follows the split: exactly four parts, a known type, and the three checks.
unfoldable pub read_parts : List Bytes → Option SecpMessage
read_parts (token ∷ room ∷ username ∷ payload ∷ []) =
    let type = parse_secp_type token in
    if is_unknown type
    then none
    else if not (fields_ok room username payload)
    then none
    else some (record { type = type; room = room; username = username; payload = payload })
read_parts _ = none

abbrev pub read_split : Option (List Bytes) → Option SecpMessage
read_split none = none
read_split (some parts) = read_parts parts

unfoldable pub parse_secp_line : Bytes → Option SecpMessage
unfolding split_parts read_parts
parse_secp_line line =
    if ltb max_packet_bytes (length line) || is_empty line
    then none
    else let text = strip_back is_line_end line in
      if is_empty text then none else read_split (split_parts text [] [])
