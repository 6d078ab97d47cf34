-- ===== src/Examples/Sessions.antt =====
-- Private sessions at concrete inputs.
use nettverk.Prelude.{
  ◌≡◌, ◌⊎◌, refl, Bool, true, false, some, none, List, [], ◌∷◌, Bytes, Dict, ascii, find, contains,
  UniqueKeys, bytes_eq, is_empty, ◌++◌, strip_back,
}
use nettverk.Net.{udp_port}
use nettverk.Io.{Io, private_message, log, send, emit, send_udp}
use nettverk.Secp.{
  SecpMessage, chat, invite, build_secp_line, parse_secp_line, is_username_ok, is_payload_ok,
  is_clean, contains_pipe_or_newline,
}
use nettverk.Utf8.{valid_utf8, scan, advance}
use nettverk.Trim.{trim_in_place}
use nettverk.Direct.State.{
  DirectMessageService, Session, active, make_unicast_dest, make_session_id, closed_to,
  same_endpoint, is_incoming,
}
use nettverk.Direct.Commands.{
  outgoing_session, invite_at, accept_invite, decline_invite, send_private_chat,
}
use nettverk.Direct.Receive.{incoming_session, on_invite, on_room_chat, is_from_peer, sender_of}
use nettverk.Direct.Overdue.{IsOverdue, IsFresh, prune_pending_cases}
use nettverk.Direct.Resent.{Resent, resend_outgoing_pending_cases}
use nettverk.Direct.Upkeep.{prune_pending, resend_outgoing_pending}
use nettverk.Direct.Steps.{step, run, Move, accepts, prunes, Event}
use nettverk.Direct.Moves.{step-Move}
use nettverk.Direct.Reach.{active_stays}
use nettverk.Direct.Delivery.{on_room_chat_shows, send_private_chat_cases, chat_line, sent_log}
use nettverk.Direct.Handshake.{handshake, invitation, chat_message}
use nettverk.Direct.Declined.{declined_comes_back}
use nettverk.Direct.Stored.{failed_invite_stays}
use nettverk.Receive.Silence.{sends}
use nettverk.Examples.{kari, ola, hei, good_os, host, start_io}

-- The service of a user, with all callbacks and some sessions.
abbrev service : Bytes → Dict Session → DirectMessageService
service name sessions = record {
  socket = true;
  users = true;
  self_username = name;
  sessions = sessions;
  on_private = true;
  on_invite_set = true;
  on_status = true;
}

abbrev sid : Bytes
sid = make_session_id 4660

abbrev one : Session → Dict Session
one s = (sid, s) ∷ []

abbrev sent_one : Session
sent_one = outgoing_session sid ola (host 2) 100

abbrev talk : Session
talk = record sent_one { state = active }

abbrev got_one : Session
got_one = incoming_session (invitation sid kari ola) (host 1) 100 101

one_unique : (s : Session) → UniqueKeys (one s)
unfolding find
one_unique s = (refl, tt)

found : (s : Session) → find sid (one s) ≡ some s
unfolding find bytes_eq make_session_id
found s = refl

kari_ok : is_username_ok kari ≡ true
unfolding is_username_ok is_clean contains_pipe_or_newline valid_utf8 scan advance
kari_ok = refl

ola_ok : is_username_ok ola ≡ true
unfolding is_username_ok is_clean contains_pipe_or_newline valid_utf8 scan advance
ola_ok = refl

hei_ok : is_payload_ok hei ≡ true
unfolding is_payload_ok bytes_eq is_clean contains_pipe_or_newline valid_utf8 scan advance
hei_ok = refl

step-Move_example :
    Move good_os
      (accepts sid 200)
      sid
      (find sid (one got_one))
      (find sid (step good_os (service ola (one got_one), start_io) (accepts sid 200)).0.sessions)
step-Move_example =
    step-Move good_os (service ola (one got_one)) start_io (accepts sid 200) sid
      (one_unique got_one)

abbrev later_calls : List Event
later_calls = accepts sid 200 ∷ prunes 900000000000 60 ∷ []

active_stays_example :
    find sid (run good_os (service kari (one talk), start_io) later_calls).0.sessions ≡ some talk
active_stays_example =
    active_stays good_os later_calls (service kari (one talk)) start_io sid talk (one_unique talk)
      (found talk) refl

prune_pending_cases_example :
    let left =
      find sid (prune_pending (service ola (one got_one)) 90000000000 60 start_io).0.sessions in
    (IsOverdue 90000000000 60 got_one × (left ≡ none))
    ⊎ (IsFresh 90000000000 60 got_one × (left ≡ some got_one))
prune_pending_cases_example =
    prune_pending_cases (service ola (one got_one)) 90000000000 60 start_io sid got_one
      (one_unique got_one) (found got_one)

resend_outgoing_pending_cases_example :
    let d = service kari (one sent_one) in
    let r = resend_outgoing_pending good_os d 5000000000 2000 30 start_io in
    Resent d 5000000000 2000 30 sid sent_one (find sid r.0.sessions) r.1.out
resend_outgoing_pending_cases_example =
    resend_outgoing_pending_cases good_os (service kari (one sent_one)) 5000000000 2000 30 start_io
      sid sent_one refl (one_unique sent_one) (found sent_one)

abbrev reply : SecpMessage
reply = chat_message sid ola hei

reply_from_peer : is_from_peer good_os sent_one reply (host 2) ≡ true
unfolding is_from_peer make_unicast_dest same_endpoint bytes_eq
reply_from_peer = refl

on_room_chat_shows_example :
    ((on_room_chat good_os (service kari (one talk)) reply (host 2) 300 start_io).1 ≡ start_io)
    ⊎ ((s : Session) × (find sid (one talk) ≡ some s)
        × (is_incoming s.state ≡ false)
        × (is_from_peer good_os s reply (host 2) ≡ true)
        × ((on_room_chat good_os (service kari (one talk)) reply (host 2) 300 start_io).1
            ≡ emit (private_message sid (sender_of s reply) hei) start_io))
on_room_chat_shows_example =
    on_room_chat_shows good_os (service kari (one talk)) reply (host 2) 300 start_io

failed_invite_stays_example :
    ((invite_at good_os (service (ascii "a|b") []) sid ola (host 2) 100 start_io).2 ≡ none)
    × ((invite_at good_os (service (ascii "a|b") []) sid ola (host 2) 100 start_io).1 ≡ start_io)
    × (find sid
          (invite_at good_os (service (ascii "a|b") []) sid ola (host 2) 100 start_io).0.sessions
        ≡ some (outgoing_session sid ola (host 2) 100))
unfolding is_username_ok is_clean contains_pipe_or_newline contains find
failed_invite_stays_example =
    failed_invite_stays good_os (service (ascii "a|b") []) sid ola (host 2) 100 start_io refl refl

abbrev inviter : DirectMessageService
inviter = service kari (one sent_one)

abbrev invitee : DirectMessageService
invitee = service ola []

abbrev invitee_later : DirectMessageService
invitee_later =
    (accept_invite (on_invite good_os invitee (invitation sid kari ola) (host 1) 110 111 start_io).0
      sid 200 start_io).0

id_trimmed : trim_in_place sid ≡ make_session_id 4660
unfolding trim_in_place strip_back make_session_id
id_trimmed = refl

nothing_found : find sid invitee.sessions ≡ none
unfolding find
nothing_found = refl

same_host : same_endpoint (host 2) (make_unicast_dest good_os (host 2) udp_port) ≡ true
unfolding same_endpoint make_unicast_dest
same_host = refl

handshake_example :
    (parse_secp_line (build_secp_line invite sid kari (closed_to ++ ola))
      ≡ some (invitation sid kari ola))
    × (find sid invitee_later.sessions
        ≡ some
            (record (incoming_session
              (invitation sid kari ola)
              (make_unicast_dest good_os (host 1) udp_port)
              110
              111) { state = active; last_update = 200 }))
    × (parse_secp_line (build_secp_line chat sid ola hei) ≡ some (chat_message sid ola hei))
    × ((on_room_chat good_os inviter (chat_message sid ola hei) (host 2) 300 start_io).1
        ≡ emit (private_message sid ola hei) start_io)
    × (find sid
          (on_room_chat good_os inviter (chat_message sid ola hei) (host 2) 300 start_io).0.sessions
        ≡ some (record sent_one { state = active; last_update = 300 }))
handshake_example =
    handshake good_os kari ola hei sid 4660 100 110 111 200 300 inviter invitee (host 2) (host 1)
      (host 2) start_io start_io start_io kari_ok ola_ok hei_ok refl refl id_trimmed
      (found sent_one) nothing_found same_host refl

abbrev invited : DirectMessageService
invited = service ola (one got_one)

abbrev declined : DirectMessageService × Io × Bool
declined = decline_invite invited sid hei start_io

abbrev invited_again : DirectMessageService
invited_again =
    (on_invite good_os declined.0 (invitation sid kari ola) (host 1) 110 111 declined.1).0

declined_comes_back_example :
    (declined.2 ≡ true)
    × (find sid declined.0.sessions ≡ none)
    × (sends declined.1.out ≡ sends start_io.out)
    × (parse_secp_line (build_secp_line invite sid kari (closed_to ++ ola))
        ≡ some (invitation sid kari ola))
    × (find sid invited_again.sessions
        ≡ some (
            incoming_session
              (invitation sid kari ola)
              (make_unicast_dest good_os (host 1) udp_port)
              110
              111))
declined_comes_back_example =
    declined_comes_back good_os invited kari ola sid hei (host 1) got_one 4660 110 111 start_io
      declined.1 kari_ok ola_ok (one_unique got_one) refl id_trimmed (found got_one) refl

abbrev line : Bytes
line = chat_line (service kari (one talk)) sid hei

send_private_chat_cases_example :
    (send_private_chat good_os (service kari (one talk)) sid hei start_io ≡ (start_io, false))
    ⊎ ((s : Session) × (find (trim_in_place sid) (one talk) ≡ some s)
        × (s.state ≡ active)
        × (is_empty (trim_in_place hei) ≡ false)
        × (parse_secp_line line
            ≡ some (record {
              type = chat;
              room = trim_in_place sid;
              username = kari;
              payload = trim_in_place hei;
            }))
        × ((send_private_chat good_os (service kari (one talk)) sid hei start_io).1
            ≡ (send_udp good_os start_io line s.peer_addr).1)
        × ((send_private_chat good_os (service kari (one talk)) sid hei start_io).0.out
            ≡ log (
                sent_log s.peer_addr line
                  (send_udp good_os start_io line s.peer_addr).0
                  (send_udp good_os start_io line s.peer_addr).1)
              ∷ send start_io.udp.fd line s.peer_addr (send_udp good_os start_io line s.peer_addr).1
              ∷ start_io.out))
send_private_chat_cases_example =
    send_private_chat_cases good_os (service kari (one talk)) sid hei start_io
