-- ===== src/Examples/Crowd.antt =====
-- Several copies on one network, at concrete inputs.
use nettverk.Prelude.{
  insert, contains, retain, ◌++◌, ℕ, ◌≡◌, refl, [], ◌∷◌, Bytes, ascii, All, In, Bool-cases, ◌==◌,
  if◌then◌else◌, inl, inr, strip_back, bytes_eq, find, length, ◌<◌, some,
}
use nettverk.Net.{Os}
use nettverk.Trim.{trim_in_place}
use nettverk.Io.{send_udp}
use nettverk.UdpSocket.{send_to}
use nettverk.Utf8.{valid_utf8}
use nettverk.Secp.{
  build_secp_line, fields_ok, is_room_ok, is_payload_ok, is_username_ok, contains_pipe_or_newline,
  secp_type_name, parse_secp_line, parse_secp_type,
}
use nettverk.Lobby
use nettverk.Lobby.{send_chat, set_on_message}
use nettverk.Io.{lobby_message}
use nettverk.Receive.{handle_datagram}
use nettverk.Receive.EndToEnd.{lobby_line}
use nettverk.Direct.Receive
use nettverk.Direct.State as Sessions
use nettverk.Groups.Messages
use nettverk.Groups.State
use nettverk.Receive.Silence.{sends}
use nettverk.Examples.Menus.{course}
use nettverk.Program.Traffic.Signed.{IsFrom}
use nettverk.Program.Traffic.Whole.{output, sent_under_own_name}
use nettverk.Network.Agreement.{Invited, session_was_agreed}
use nettverk.Users.{upsert, prune_stale, find_address, set_self_username}
use nettverk.Discovery
use nettverk.Discovery.{set_identity, send_presence_broadcast, on_presence, prune_stale_peers}
use nettverk.Secp.{presence, invite, dash}
use nettverk.Direct.State.{
  Session, make_session_id, make_unicast_dest, closed_to, report, set_on_status,
  set_on_private_message,
}
use nettverk.Direct.Commands.{invite_user}
use nettverk.Direct.Receive.{incoming_session, on_invite, strip_prefix}
use nettverk.Direct.Handshake.{invitation}
use nettverk.Program.{first_presence, services, run_main, Ended}
use nettverk.Program.Traffic.{traffic}
use nettverk.Network.{
  Network, says_lobby, says_first, invites, act, after_act, after_hearing, lines_sent, IsFresh,
  Reach, here, next, acts, hears,
}
use nettverk.Network.Integrity.{Honest, past, shown_was_said}
use nettverk.Examples.{kari, ola, hei, good_os, host, start_io}

-- Copy 0 is kari's, and all others are ola's.
abbrev names : ℕ → Bytes
names i = if i == 0 then kari else ola

abbrev systems : ℕ → Os
systems i = good_os

abbrev crowd : Network
crowd = record { copies = λ i. services good_os (names i) 1 start_io; wires = []; made = [] }

names_trimmed : (i : ℕ) → trim_in_place (names i) ≡ names i
unfolding trim_in_place strip_back
names_trimmed i = elim (Bool-cases (i == 0)) [ inl e ↦ rw e refl | inr e ↦ rw e refl ]

crowd-IsFresh : IsFresh systems names crowd
unfolding services traffic Sessions.new
crowd-IsFresh = record {
  named = λ i. record { discovery = refl; groups = refl; direct = refl };
  quiet = λ i. refl;
  alone = λ i. refl;
  clear = refl;
  trimmed = names_trimmed;
}

-- Kari greets the lobby, and the line reaches ola.
abbrev greeted : Network
greeted = after_act good_os kari crowd 0 (says_lobby hei)

abbrev heard : Network
heard = after_hearing good_os greeted 1 (ascii "recv udp") (lobby_line kari hei) (host 1) 5 6

line_sent : In (0, lobby_line kari hei) greeted.wires
unfolding after_act act lines_sent send_chat services send_udp send_to Lobby.new set_on_message
    build_secp_line fields_ok is_room_ok is_payload_ok is_username_ok contains_pipe_or_newline
    secp_type_name valid_utf8 bytes_eq trim_in_place strip_back
line_sent = inl refl

heard-Reach : Reach systems names crowd heard
heard-Reach =
    next (next here (acts 0 (says_lobby hei)))
      (hears 1 0 (ascii "recv udp") (lobby_line kari hei) (host 1) 5 6 line_sent)

shown_was_said_example : All (Honest names (past heard) 1) (traffic (heard.copies 1).io.out)
shown_was_said_example = shown_was_said names systems crowd heard crowd-IsFresh heard-Reach 1

heard_shown : traffic (heard.copies 1).io.out ≡ lobby_message kari hei ∷ []
unfolding after_hearing after_act act services handle_datagram traffic build_secp_line fields_ok
    is_room_ok bytes_eq contains_pipe_or_newline valid_utf8 is_username_ok trim_in_place strip_back
    is_payload_ok secp_type_name parse_secp_line parse_secp_type Receive.on_room_chat find
    Messages.on_room_chat Lobby.on_lobby_chat Lobby.new set_on_message send_chat send_udp send_to
    Sessions.new State.new
heard_shown = refl

-- What kari has sent in a whole run.
sent_under_own_name_example :
    (e : Ended) × ((fuel : ℕ)
      → length course.input < fuel
      → run_main good_os (ascii "chatapp" ∷ kari ∷ []) course fuel ≡ some e)
    × All (IsFrom (trim_in_place kari)) (sends (output e))
sent_under_own_name_example = sent_under_own_name good_os (ascii "chatapp") kari [] course

-- Ola is heard of, kari invites ola, and the invitation arrives.
abbrev presence_line : Bytes
presence_line = build_secp_line presence dash ola (ascii "10.0.0.1")

abbrev known : Network
known =
    after_hearing good_os (after_act good_os ola crowd 1 says_first) 0 (ascii "recv udp")
      presence_line (host 2) 5 6

abbrev sid : Bytes
sid = make_session_id 4660

abbrev invite_line : Bytes
invite_line = build_secp_line invite sid kari (closed_to ++ ola)

abbrev invited : Network
invited = after_act good_os kari known 0 (invites ola 4660 100)

abbrev notified : Network
notified = after_hearing good_os invited 1 (ascii "recv udp") invite_line (host 1) 110 111

presence_sent : In (1, presence_line) (after_act good_os ola crowd 1 says_first).wires
unfolding after_act act lines_sent first_presence send_presence_broadcast services send_udp send_to
    Discovery.new set_identity build_secp_line fields_ok is_room_ok is_payload_ok is_username_ok
    contains_pipe_or_newline secp_type_name valid_utf8 bytes_eq
presence_sent = inl refl

invite_sent : In (0, invite_line) invited.wires
unfolding after_act act lines_sent first_presence send_presence_broadcast services send_udp send_to
    Discovery.new set_identity build_secp_line fields_ok is_room_ok is_payload_ok is_username_ok
    contains_pipe_or_newline secp_type_name valid_utf8 bytes_eq after_hearing handle_datagram
    parse_secp_line parse_secp_type on_presence upsert prune_stale_peers prune_stale find_address
    invite_user find trim_in_place strip_back make_session_id make_unicast_dest Sessions.new insert
    contains retain report set_on_status set_on_private_message set_self_username
invite_sent = inr (inl refl)

notified-Reach : Reach systems names crowd notified
notified-Reach =
    next
      (next
        (next (next here (acts 1 says_first))
          (hears 0 1 (ascii "recv udp") presence_line (host 2) 5 6 presence_sent))
        (acts 0 (invites ola 4660 100)))
      (hears 1 0 (ascii "recv udp") invite_line (host 1) 110 111 invite_sent)

abbrev waiting : Session
waiting = incoming_session (invitation sid kari ola) (host 1) 110 111

is_waiting : find sid (notified.copies 1).direct.sessions ≡ some waiting
unfolding after_act act services build_secp_line fields_ok is_room_ok is_payload_ok is_username_ok
    contains_pipe_or_newline secp_type_name valid_utf8 bytes_eq after_hearing handle_datagram
    parse_secp_line parse_secp_type find make_session_id make_unicast_dest Sessions.new insert
    contains on_invite strip_prefix first_presence strip_back
is_waiting = refl

session_was_agreed_example : Invited names (past notified) sid kari ola
session_was_agreed_example =
    session_was_agreed names systems crowd notified crowd-IsFresh notified-Reach 1 sid waiting
      is_waiting
