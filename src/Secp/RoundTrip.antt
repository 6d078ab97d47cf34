-- ===== src/Secp/RoundTrip.antt =====
-- `build_secp_line` and `parse_secp_line` of secp.cpp are inverse to one another, up to the line's
-- end.
use nettverk.Prelude.{
  ℕ, ◌≤◌, ◌≡◌, ◌↔◌, refl, ap, ◌∙◌, true, false, some, List, [], ◌∷◌, ◌++◌, arith, Bytes, length,
  append_assoc, append-nil, leb, strip_back, strip_back-append_one, strip_back_stays, is_empty,
}
use nettverk.Secp.{
  SecpType, pipe, newline, is_unknown, contains_pipe_or_newline, fields_ok, secp_type_name,
  join_fields, build_secp_line, is_line_end, split_parts, read_parts, read_split, parse_secp_line,
}
use nettverk.Secp.Fields.{
  IsPlain, FieldsOk, fields_ok-FieldsOk, secp_type_name-IsPlain, line_of, length-line_of-le,
  plain_not_line_end, parse-secp_type_name,
}

-- A plain text in front of a separator becomes one part.
split-plain :
    (s rest part : Bytes) (parts : List Bytes)
    → IsPlain s
    → leb 4 (length parts) ≡ false
    → split_parts (s ++ pipe ∷ rest) part parts ≡ split_parts rest [] (parts ++ (part ++ s) ∷ [])
unfolding split_parts contains_pipe_or_newline
split-plain [] rest part parts h room = rw (append-nil, room, split_parts)
split-plain (c ∷ s) rest part parts h room =
    ground (arith, split-plain s rest (part ++ c ∷ []) parts, append_assoc part (c ∷ []) s)

-- A plain text at the end becomes the last part.
split-plain_last :
    (s part : Bytes) (parts : List Bytes)
    → IsPlain s
    → leb 4 (length parts) ≡ false
    → split_parts s part parts ≡ some (parts ++ (part ++ s) ∷ [])
unfolding split_parts contains_pipe_or_newline
split-plain_last [] part parts h room = rw (append-nil, room)
split-plain_last (c ∷ s) part parts h room =
    ground (arith, split-plain_last s (part ++ c ∷ []) parts, append_assoc part (c ∷ []) s)

split-join_fields :
    (t r u p : Bytes)
    → IsPlain t
    → IsPlain r
    → IsPlain u
    → IsPlain p
    → split_parts (join_fields t r u p) [] [] ≡ some (t ∷ r ∷ u ∷ p ∷ [])
unfolding join_fields
split-join_fields t r u p ht hr hu hp =
    split-plain t _ [] [] ht refl
    ∙ split-plain r _ [] (t ∷ []) hr refl
    ∙ split-plain u _ [] (t ∷ r ∷ []) hu refl
    ∙ split-plain_last p [] (t ∷ r ∷ u ∷ []) hp refl

join_fields-last :
    (t r u p : Bytes) → join_fields t r u p ≡ (t ++ pipe ∷ (r ++ pipe ∷ u)) ++ pipe ∷ p
unfolding join_fields
join_fields-last t r u p = simp append_assoc

strip-line_of :
    (t : SecpType) (r u p : Bytes)
    → IsPlain p
    → strip_back is_line_end (line_of t r u p) ≡ join_fields (secp_type_name t) r u p
strip-line_of t r u p h =
    strip_back-append_one is_line_end _ newline
    ∙ rw join_fields-last (strip_back_stays is_line_end _ pipe p (refl, plain_not_line_end p h))

-- For a known type and accepted fields the length test never fires.
pub build-line_of :
    (t : SecpType) (r u p : Bytes)
    → is_unknown t ≡ false
    → fields_ok r u p ≡ true
    → build_secp_line t r u p ≡ line_of t r u p
unfolding build_secp_line
build-line_of t r u p known ok =
    rw (known, ok) (ground (arith, length-line_of-le t r u p (fields_ok-FieldsOk r u p ok)))

append_one_filled : (s : Bytes) (c : ℕ) → is_empty (s ++ c ∷ []) ≡ false
append_one_filled [] c = refl
append_one_filled (x ∷ s) c = refl

join_fields_filled : (t r u p : Bytes) → is_empty (join_fields t r u p) ≡ false
unfolding join_fields
join_fields_filled [] r u p = refl
join_fields_filled (x ∷ t) r u p = refl

-- `build_secp_line` returns a text exactly for a known type and three accepted fields.
pub build-filled_iff :
    (t : SecpType) (r u p : Bytes)
    → (is_empty (build_secp_line t r u p) ≡ false)
      ↔ ((is_unknown t ≡ false) × (fields_ok r u p ≡ true))
build-filled_iff t r u p = (
  λ h. unfold build_secp_line in ground arith,
  λ ok. rw (build-line_of t r u p ok.0 ok.1) (append_one_filled _ newline),
)

-- The first tests of `parse_secp_line` pass.
parse-split :
    (line text : Bytes)
    → length line ≤ 1024
    → is_empty line ≡ false
    → strip_back is_line_end line ≡ text
    → is_empty text ≡ false
    → parse_secp_line line ≡ read_split (split_parts text [] [])
unfolding parse_secp_line
parse-split line text short filled stripped more = rw stripped (ground arith)

read_parts-name :
    (t : SecpType) (r u p : Bytes)
    → is_unknown t ≡ false
    → fields_ok r u p ≡ true
    → read_parts (secp_type_name t ∷ r ∷ u ∷ p ∷ [])
      ≡ some (record { type = t; room = r; username = u; payload = p })
unfolding read_parts
read_parts-name t r u p known ok = rw (parse-secp_type_name t, known, ok)

parse-line_of :
    (t : SecpType) (r u p : Bytes)
    → is_unknown t ≡ false
    → fields_ok r u p ≡ true
    → FieldsOk r u p
    → parse_secp_line (line_of t r u p)
      ≡ some (record { type = t; room = r; username = u; payload = p })
parse-line_of t r u p known ok f =
    parse-split _ _ (omega (arith, length-line_of-le t r u p f)) (append_one_filled _ newline)
      (strip-line_of t r u p f.payload_plain) (join_fields_filled _ r u p)
    ∙ ap read_split (
        split-join_fields _ r u p (secp_type_name-IsPlain t) f.room_plain f.username_plain
          f.payload_plain)
    ∙ read_parts-name t r u p known ok

-- A line built from a known type and accepted fields has at most 593 bytes, and is read back as the
-- message it was built from.
pub parse-build :
    (t : SecpType) (r u p : Bytes)
    → is_unknown t ≡ false
    → fields_ok r u p ≡ true
    → (length (build_secp_line t r u p) ≤ 593)
      × (parse_secp_line (build_secp_line t r u p)
          ≡ some (record { type = t; room = r; username = u; payload = p }))
parse-build t r u p known ok =
    let f = fields_ok-FieldsOk r u p ok in
    rw (build-line_of t r u p known ok)
      (length-line_of-le t r u p f, parse-line_of t r u p known ok f)
