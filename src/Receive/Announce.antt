-- ===== src/Receive/Announce.antt =====
-- The announcement of a room by one copy of the program in the receive loop of another.
use nettverk.Prelude.{
  ℕ, ◌+◌, ◌≡◌, refl, ap, ◌∙◌, true, false, ◌||◌, some, ◌∷◌, Bytes, ascii, bytes_eq, bytes_eq_refl,
  find, insert, find-insert, find-retain, insert-UniqueKeys, UniqueKeys, is_empty, length, ltb,
  arith,
}
use nettverk.Net.{SockAddr, Os, udp_port, seconds, af_inet, inaddr_broadcast}
use nettverk.Io.{Io, log, send, sent_broadcast, send_udp}
use nettverk.Secp.{room_announce, dash, build_secp_line, fields_ok, is_username_ok}
use nettverk.Secp.Fields.{username_ok}
use nettverk.Secp.RoundTrip.{build-filled_iff}
use nettverk.Groups.State.{GroupRoomCoordinator, prune_registry_unlocked, is_current}
use nettverk.Groups.Messages.{broadcast_owned_advert, on_room_announce, advertised, text_open}
use nettverk.Receive.EndToEnd.{receive-build, sent_out}
use nettverk.Receive.{Services, dispatch, handle_datagram}

-- The line that `broadcast_owned_advert` builds for a room, and where it goes.
abbrev pub advert_line : GroupRoomCoordinator → Bytes → Bytes
advert_line g room = build_secp_line room_announce room g.username text_open

abbrev pub advert_dest : Os → SockAddr
advert_dest os = record { family = af_inet; port = os.htons udp_port; ip = inaddr_broadcast }

advert_sends :
    (os : Os) (g : GroupRoomCoordinator) (room : Bytes) (io : Io)
    → g.owned ≡ some room
    → g.advert_sock ≡ true
    → is_empty (advert_line g room) ≡ false
    → (send_udp os io (advert_line g room) (advert_dest os)).1 ≡ true
    → (broadcast_owned_advert os g io).out
      ≡ log (sent_broadcast (ascii "ROOM_ANNOUNCE") udp_port (length (advert_line g room)))
        ∷ send io.udp.fd (advert_line g room) (advert_dest os) true
        ∷ io.out
unfolding broadcast_owned_advert
advert_sends os g room io o a f ok =
    rw (o, f, a, ok, sent_out os io (advert_line g room) (advert_dest os) ok)

-- A room that is announced is listed, unless 25 seconds pass before the pruning.
announced_listed :
    (g : GroupRoomCoordinator) (room u : Bytes) (now later : ℕ)
    → (is_empty room || bytes_eq room dash || is_empty u) ≡ false
    → UniqueKeys g.registry
    → ltb (now + seconds 25) later ≡ false
    → find room
        (on_room_announce g
          (record { type = room_announce; room = room; username = u; payload = text_open })
          now
          later).registry
      ≡ some (advertised room now)
unfolding on_room_announce prune_registry_unlocked
announced_listed g room u now later h unique soon =
    rw (h, bytes_eq_refl text_open)
      (find-retain (is_current later) room (insert room (advertised room now) g.registry)
          (insert-UniqueKeys room (advertised room now) g.registry unique)
        ∙ rw (find-insert room room (advertised room now) g.registry, bytes_eq_refl room, soon))

-- An owner whose name and room the protocol accepts, the room not being `-`, broadcasts, and the
-- socket takes the line: one line went out. Where it arrives and is handled within 25 seconds, and no
-- room is listed twice before, the room is listed with the time it was heard.
pub announcement_reaches :
    (os os' : Os) (g : GroupRoomCoordinator) (room label : Bytes) (io : Io) (s : Services)
    (from : SockAddr) (now later : ℕ)
    → g.owned ≡ some room
    → g.advert_sock ≡ true
    → fields_ok room g.username text_open ≡ true
    → (is_empty room || bytes_eq room dash) ≡ false
    → (send_udp os io (advert_line g room) (advert_dest os)).1 ≡ true
    → UniqueKeys s.groups.registry
    → ltb (now + seconds 25) later ≡ false
    → ((broadcast_owned_advert os g io).out
        ≡ log (sent_broadcast (ascii "ROOM_ANNOUNCE") udp_port (length (advert_line g room)))
          ∷ send io.udp.fd (advert_line g room) (advert_dest os) true
          ∷ io.out)
      × (find room (handle_datagram os' label s (advert_line g room) from now later).groups.registry
          ≡ some (advertised room now))
unfolding dispatch
announcement_reaches os os' g room label io s from now later o a ok named sent unique soon =
    let filled = (build-filled_iff room_announce room g.username text_open).1 (refl, ok) in
    let name : is_username_ok g.username ≡ true = unfold fields_ok in ground arith in
    let (plain, short, some_name) = username_ok g.username name in
    (
      advert_sends os g room io o a filled sent,
      ap (λ r. find room r.groups.registry)
            (receive-build os' label s room_announce room g.username text_open from now later
              filled)
          ∙ announced_listed s.groups room g.username now later (ground arith) unique soon,
    )
