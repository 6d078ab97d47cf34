-- ===== src/Secp/Spelling.antt =====
-- What `parse_secp_line` of secp.cpp accepts: a line that spells a message with accepted fields.
use mathlib.Core.List.{tail-eq_of_cons-eq}
use nettverk.Prelude.{
  ◌≡◌, refl, ap, sym, ◌∙◌, true, false, Option, none, some, List, [], ◌∷◌, ◌++◌, arith, Bytes,
  bytes_eq_iff, append_assoc, append-nil, strip_back,
}
use nettverk.Secp.{
  SecpMessage, presence, room_announce, invite, chat, pipe, newline, is_unknown, fields_ok,
  secp_type_name, parse_secp_type, join_fields, build_secp_line, is_line_end, split_parts,
  read_parts, read_split, parse_secp_line,
}
use nettverk.Secp.RoundTrip.{build-line_of}

-- The parts, each behind a separator.
separated : List Bytes → Bytes
separated [] = []
separated (s ∷ ss) = pipe ∷ (s ++ separated ss)

separated-append_one :
    (ss : List Bytes) (s : Bytes) → separated (ss ++ s ∷ []) ≡ separated ss ++ pipe ∷ s
unfolding separated
separated-append_one [] s = rw append-nil
separated-append_one (x ∷ ss) s = simp (separated-append_one ss s, append_assoc)

-- The split loses nothing: the parts spell the text.
separated-split :
    (s part : Bytes) (parts ss : List Bytes)
    → split_parts s part parts ≡ some ss
    → separated ss ≡ separated parts ++ pipe ∷ (part ++ s)
unfolding split_parts
separated-split [] part parts ss h =
    ground (arith, separated-append_one parts part, append-nil part)
separated-split (c ∷ s) part parts ss h = ground (
  arith,
  separated-split s [] (parts ++ part ∷ []) ss,
  separated-split s (part ++ c ∷ []) parts ss,
  separated-append_one parts part,
  append_assoc part (c ∷ []) s,
  append_assoc (separated parts) (pipe ∷ part) (pipe ∷ s),
)

secp_type_name-parse :
    (token : Bytes)
    → is_unknown (parse_secp_type token) ≡ false
    → secp_type_name (parse_secp_type token) ≡ token
unfolding parse_secp_type
secp_type_name-parse token h =
    unfold secp_type_name in
    ground (
      arith,
      bytes_eq_iff token (secp_type_name presence),
      bytes_eq_iff token (secp_type_name room_announce),
      bytes_eq_iff token (secp_type_name invite),
      bytes_eq_iff token (secp_type_name chat),
    )

-- What `read_parts` accepts: the message's own fields, checked.
read_parts-Reads :
    (parts : List Bytes) (m : SecpMessage)
    → read_parts parts ≡ some m
    → (parts ≡ secp_type_name m.type ∷ m.room ∷ m.username ∷ m.payload ∷ [])
      × (is_unknown m.type ≡ false)
      × (fields_ok m.room m.username m.payload ≡ true)
unfolding read_parts
read_parts-Reads (token ∷ room ∷ username ∷ payload ∷ []) m h =
    ground (arith, secp_type_name-parse token)
read_parts-Reads _ m h = absurd (cc)

read_split-Reads :
    (o : Option (List Bytes)) (m : SecpMessage)
    → read_split o ≡ some m
    → (parts : List Bytes) × (o ≡ some parts) × (read_parts parts ≡ some m)
read_split-Reads none m h = absurd (cc)
read_split-Reads (some parts) m h = (parts, refl, h)

parse-read_split :
    (line : Bytes) (m : SecpMessage)
    → parse_secp_line line ≡ some m
    → read_split (split_parts (strip_back is_line_end line) [] []) ≡ some m
unfolding parse_secp_line
parse-read_split line m h = ground arith

separated-four : (t r u p : Bytes) → separated (t ∷ r ∷ u ∷ p ∷ []) ≡ pipe ∷ join_fields t r u p
unfolding separated join_fields
separated-four t r u p = rw append-nil

-- The text of an accepted line is the joined fields of its message.
parse-join_fields :
    (line : Bytes) (m : SecpMessage)
    → parse_secp_line line ≡ some m
    → (is_unknown m.type ≡ false)
      × (fields_ok m.room m.username m.payload ≡ true)
      × (join_fields (secp_type_name m.type) m.room m.username m.payload
          ≡ strip_back is_line_end line)
unfolding separated
parse-join_fields line m h =
    let (parts, e, r) = read_split-Reads _ m (parse-read_split line m h) in
    let (spelt, known, ok) = read_parts-Reads parts m r in
    let whole = separated-split _ [] [] parts e in
    (
      known,
      ok,
      tail-eq_of_cons-eq
          (sym (separated-four _ m.room m.username m.payload) ∙ ap separated (sym spelt) ∙ whole),
    )

-- A line that is accepted spells an accepted message: built again, it is the line with exactly one
-- newline at its end.
pub build-parse :
    (line : Bytes) (m : SecpMessage)
    → parse_secp_line line ≡ some m
    → (is_unknown m.type ≡ false)
      × (fields_ok m.room m.username m.payload ≡ true)
      × (build_secp_line m.type m.room m.username m.payload
          ≡ strip_back is_line_end line ++ newline ∷ [])
build-parse line m h =
    let (known, ok, text) = parse-join_fields line m h in
    (known, ok, build-line_of m.type _ _ _ known ok ∙ ap (λ s. s ++ newline ∷ []) text)
