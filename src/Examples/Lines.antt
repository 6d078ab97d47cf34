-- ===== src/Examples/Lines.antt =====
-- The lines of the protocol and the texts in them, at concrete inputs.
use nettverk.Prelude.{
  ◌≤◌, ◌≡◌, ◌↔◌, refl, true, false, some, [], ◌∷◌, ◌++◌, Bytes, ascii, length, arith, strip_back,
  bytes_eq,
}
use nettverk.Utf8.{valid_utf8, scan, advance}
use nettverk.Utf8.Text.{IsEncoded, valid_utf8_iff}
use nettverk.Secp.{
  chat, is_unknown, fields_ok, build_secp_line, parse_secp_line, is_room_ok, is_username_ok,
  is_payload_ok, is_clean, contains_pipe_or_newline, split_parts, read_parts, parse_secp_type,
  is_line_end, newline,
}
use nettverk.Secp.RoundTrip.{parse-build}
use nettverk.Secp.Spelling.{build-parse}
use nettverk.Examples.{kari, hei, fjell}

-- The fields of one message pass the checks.
pub fields_ok_example : fields_ok fjell kari hei ≡ true
unfolding fields_ok is_room_ok is_username_ok is_payload_ok is_clean contains_pipe_or_newline
    valid_utf8 scan advance bytes_eq
fields_ok_example = refl

parse-build_example :
    (length (build_secp_line chat fjell kari hei) ≤ 593)
    × (parse_secp_line (build_secp_line chat fjell kari hei)
        ≡ some (record { type = chat; room = fjell; username = kari; payload = hei }))
parse-build_example = parse-build chat fjell kari hei refl fields_ok_example

abbrev crlf_line : Bytes
crlf_line = ascii "CHAT|fjell|kari|hei" ++ 13 ∷ 10 ∷ []

crlf_line-parse :
    parse_secp_line crlf_line
    ≡ some (record { type = chat; room = fjell; username = kari; payload = hei })
unfolding parse_secp_line split_parts read_parts parse_secp_type fields_ok is_room_ok is_username_ok
    is_payload_ok is_clean contains_pipe_or_newline valid_utf8 scan advance strip_back bytes_eq
crlf_line-parse = refl

build-parse_example :
    (is_unknown chat ≡ false)
    × (fields_ok fjell kari hei ≡ true)
    × (build_secp_line chat fjell kari hei ≡ strip_back is_line_end crlf_line ++ newline ∷ [])
build-parse_example = build-parse crlf_line _ crlf_line-parse

valid_utf8_iff_example : (valid_utf8 (0xC3 ∷ 0xB8 ∷ []) ≡ true) ↔ IsEncoded (0xC3 ∷ 0xB8 ∷ [])
valid_utf8_iff_example = valid_utf8_iff (0xC3 ∷ 0xB8 ∷ []) (omega arith, (omega arith, tt))

abbrev typed : Bytes
typed = ascii " hei \t"
