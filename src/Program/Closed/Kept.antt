-- ===== src/Program/Closed/Kept.antt =====
-- What every step keeps once the sockets are closed: a call of a closed socket does not open it.
use nettverk.Prelude.{
  ℕ, ◌≡◌, refl, sym, ap, ◌∙◌, true, not, Option, none, some, List, [], ◌∷◌, ◌++◌, Bytes, arith,
  Bool-cases, inl, inr, is_negative, bytes_eq, if_holds, if◌then◌else◌,
}
use nettverk.Net.{SockAddr, Os}
use nettverk.Io.{Io, send_udp}
use nettverk.Secp.{SecpMessage, SecpType, presence, room_announce, invite, chat, unknown}
use nettverk.UdpSocket.{UdpSocket, send_to}
use nettverk.Discovery.{DiscoveryService, send_presence_broadcast}
use nettverk.Lobby.{on_lobby_chat, usn_chat}
use nettverk.Groups.State.{GroupRoomCoordinator, prune_registry_unlocked}
use nettverk.Groups.Messages.{on_room_announce, broadcast_owned_advert}
use nettverk.Groups.Messages
use nettverk.Direct.State.{DirectMessageService, report}
use nettverk.Direct.Receive
use nettverk.Direct.Receive.{on_invite, deliver}
use nettverk.Direct.Upkeep.{
  prune_pending, resend_outgoing_pending, report_all, resend_all, resend_one, ToSend,
}
use nettverk.Receive.{Services, dispatch, dispatch_chat}
use nettverk.Receive.Keeps.{Keeps, loop_keeps}
use nettverk.Program.Threads.{
  Event, receives, beats, announces, Turn, beat, heartbeat, group_advert, other, run_others,
}

-- Neither socket is open, and no room is entered.
pub record IsClosed (s : Services) : Type 0 where
  pub shut : is_negative s.io.udp.fd ≡ true
  pub released : s.groups.mcast_sock ≡ none
  pub left : s.groups.active_room_name ≡ []

pub io-IsClosed :
    (s : Services) (io : Io)
    → io.udp.fd ≡ s.io.udp.fd
    → IsClosed s
    → IsClosed (record s { io = io })
io-IsClosed s io e h = record {
  shut = ap is_negative e ∙ h.shut;
  released = h.released;
  left = h.left;
}

direct-IsClosed :
    (s : Services) (d : DirectMessageService) (io : Io)
    → io.udp.fd ≡ s.io.udp.fd
    → IsClosed s
    → IsClosed (record s { direct = d; io = io })
direct-IsClosed s d io e h = record {
  shut = ap is_negative e ∙ h.shut;
  released = h.released;
  left = h.left;
}

lobby_fd :
    (s : Services) (msg : SecpMessage)
    → (if bytes_eq msg.room usn_chat
        then on_lobby_chat s.lobby msg.username msg.payload s.io
        else s.io).udp.fd
      ≡ s.io.udp.fd
unfolding on_lobby_chat
lobby_fd s msg = ground arith

group_fd :
    (g : GroupRoomCoordinator) (msg : SecpMessage) (from : SockAddr) (io : Io)
    → (Messages.on_room_chat g msg from io).udp.fd ≡ io.udp.fd
unfolding Messages.on_room_chat
group_fd g msg from io = ground arith

private_fd :
    (os : Os) (d : DirectMessageService) (msg : SecpMessage) (from : SockAddr) (now : ℕ) (io : Io)
    → (Receive.on_room_chat os d msg from now io).1.udp.fd ≡ io.udp.fd
unfolding Receive.on_room_chat deliver
private_fd os d msg from now io = ground arith

invite_fd :
    (os : Os) (d : DirectMessageService) (msg : SecpMessage) (from : SockAddr) (c t : ℕ) (io : Io)
    → (on_invite os d msg from c t io).1.udp.fd ≡ io.udp.fd
unfolding on_invite report
invite_fd os d msg from c t io = ground arith

announce_room :
    (g : GroupRoomCoordinator) (msg : SecpMessage) (now later : ℕ)
    → let g' = on_room_announce g msg now later in
      (g'.mcast_sock ≡ g.mcast_sock) × (g'.active_room_name ≡ g.active_room_name)
unfolding on_room_announce prune_registry_unlocked
announce_room g msg now later = ground arith

typed-IsClosed :
    (os : Os) (s : Services) (t : SecpType) (r n p : Bytes) (from : SockAddr) (now later : ℕ)
    → IsClosed s
    → IsClosed
        (dispatch os s (record { type = t; room = r; username = n; payload = p }) from now later)
unfolding dispatch dispatch_chat
typed-IsClosed os s presence r n p from now later h = record {
  shut = h.shut;
  released = h.released;
  left = h.left;
}
typed-IsClosed os s room_announce r n p from now later h =
    let (sock, room) =
      announce_room s.groups (record { type = room_announce; room = r; username = n; payload = p })
        now later in
    record { shut = h.shut; released = sock ∙ h.released; left = room ∙ h.left }
typed-IsClosed os s invite r n p from now later h =
    direct-IsClosed s _ _ (invite_fd os s.direct _ from now later s.io) h
typed-IsClosed os s chat r n p from now later h =
    let msg : SecpMessage = record { type = chat; room = r; username = n; payload = p } in
    direct-IsClosed s _ _
      (private_fd os s.direct msg from now _ ∙ group_fd s.groups msg from _ ∙ lobby_fd s msg) h
typed-IsClosed os s unknown r n p from now later h = h

IsClosed-Keeps : (os : Os) → Keeps os IsClosed
IsClosed-Keeps os = record {
  logs = λ s l h. io-IsClosed s _ refl h;
  calls = λ s udp f h. io-IsClosed s _ f h;
  takes = λ s sk sk' held h.
      let impossible : ◌≡◌ {A = Option UdpSocket} none (some sk) = sym h.released ∙ held in
      absurd (cc);
  handles = λ s msg from now later h.
      typed-IsClosed os s msg.type msg.room msg.username msg.payload from now later h;
}

presence_sent_fd :
    (os : Os) (d : DiscoveryService) (io : Io)
    → (send_presence_broadcast os d io).0.udp.fd ≡ io.udp.fd
unfolding send_presence_broadcast send_udp send_to
presence_sent_fd os d io = ground arith

report_all_fd :
    (d : DirectMessageService) (text : Bytes) (sids : List Bytes) (io : Io)
    → (report_all d text sids io).udp.fd ≡ io.udp.fd
unfolding report_all report
report_all_fd d text [] io = refl
report_all_fd d text (sid ∷ sids) io =
    report_all_fd d text sids (report d (text ++ sid) io) ∙ ground arith

resend_all_fd :
    (os : Os) (d : DirectMessageService) (ts : List ToSend) (io : Io)
    → (resend_all os d ts io).udp.fd ≡ io.udp.fd
unfolding resend_all
resend_all_fd os d [] io = refl
resend_all_fd os d (t ∷ ts) io =
    resend_all_fd os d ts (resend_one os d t io)
    ∙ (unfold resend_one in unfold send_udp in unfold send_to in ground arith)

report_resend_fd :
    (os : Os) (d : DirectMessageService) (text : Bytes) (sids : List Bytes) (ts : List ToSend)
    (io : Io)
    → (report_all d text sids (resend_all os d ts io)).udp.fd ≡ io.udp.fd
report_resend_fd os d text sids ts io =
    report_all_fd d text sids (resend_all os d ts io) ∙ resend_all_fd os d ts io

prune_fd :
    (d : DirectMessageService) (now max_age : ℕ) (io : Io)
    → (prune_pending d now max_age io).1.udp.fd ≡ io.udp.fd
unfolding prune_pending
prune_fd d now max_age io = search report_all_fd

resend_fd :
    (os : Os) (d : DirectMessageService) (now min_interval max_age : ℕ) (io : Io)
    → (resend_outgoing_pending os d now min_interval max_age io).1.udp.fd ≡ io.udp.fd
unfolding resend_outgoing_pending
resend_fd os d now min_interval max_age io = elim (Bool-cases d.socket) [
  | inl e ↦ rw e (search report_resend_fd)
  | inr e ↦ rw e refl
]

advert_fd :
    (os : Os) (g : GroupRoomCoordinator) (io : Io)
    → (broadcast_owned_advert os g io).udp.fd ≡ io.udp.fd
unfolding broadcast_owned_advert send_udp send_to
advert_fd os g io = ground arith

beat-IsClosed : (os : Os) (t : Turn) (s : Services) → IsClosed s → IsClosed (beat os t s)
unfolding beat
beat-IsClosed os t s h =
    let io1 = (send_presence_broadcast os s.discovery s.io).0 in
    let r = prune_pending s.direct t.pending_now 30 io1 in
    let e =
      resend_fd os r.0 t.resend_now 6000 45 r.1
      ∙ prune_fd s.direct t.pending_now 30 io1
      ∙ presence_sent_fd os s.discovery s.io in
    record { shut = ap is_negative e ∙ h.shut; released = h.released; left = h.left }

other-IsClosed : (os : Os) (s : Services) (e : Event) → IsClosed s → IsClosed (other os s e)
unfolding other heartbeat group_advert
other-IsClosed os s (receives p) h = loop_keeps os (IsClosed-Keeps os) (p ∷ []) s h
other-IsClosed os s (beats t) h = if_holds IsClosed (not _) h (beat-IsClosed os t s h)
other-IsClosed os s (announces t) h =
    if_holds IsClosed (not _) h (io-IsClosed s _ (advert_fd os s.groups s.io) h)

pub run_others-IsClosed :
    (os : Os) (es : List Event) (s : Services) → IsClosed s → IsClosed (run_others os es s)
unfolding run_others
run_others-IsClosed os [] s h = h
run_others-IsClosed os (e ∷ es) s h =
    run_others-IsClosed os es (other os s e) (other-IsClosed os s e h)
