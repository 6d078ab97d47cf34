-- ===== src/Network/Hears.antt =====
-- A line that a copy has sent, in the receive loop of another: what is shown is what was sent, under
-- the sender's name.
use nettverk.Prelude.{
  ℕ, ◌≡◌, refl, sym, ap, subst, ◌∙◌, true, false, not, some, Bytes, arith, bytes_eq, bytes_eq_iff,
  is_empty, find, if_holds, option_holds, Bool-cases, inl, inr, if◌then◌else◌,
}
use nettverk.Net.{SockAddr, Os}
use nettverk.Io.{Io, Effect, private_message, group_message, lobby_message}
use nettverk.Secp.{
  SecpMessage, SecpType, presence, room_announce, invite, chat, unknown, parse_secp_line,
  build_secp_line,
}
use nettverk.Secp.RoundTrip.{parse-build, build-filled_iff}
use nettverk.Lobby.{LobbyService, on_lobby_chat, usn_chat}
use nettverk.Groups.State.{GroupRoomCoordinator}
use nettverk.Groups.Messages
use nettverk.Direct.State.{DirectMessageService, Session, report}
use nettverk.Direct.Handshake.{chat_message}
use nettverk.Direct.Receive
use nettverk.Direct.Receive.{on_invite, deliver, is_from_peer, sender_of, is_incomplete, is_chat}
use nettverk.Receive.{Services, dispatch, dispatch_chat, handle_datagram}
use nettverk.Receive.EndToEnd.{receive-build, received}
use nettverk.Receive.Keeps.{logged}
use nettverk.Program.Traffic.{traffic, Signed, Admits, Admits-same}
use nettverk.Program.Traffic.Threads.{Speaks, Named-Keeps}

-- The sender's name, of a message that matches a session.
sender_of_peer :
    (os : Os) (s : Session) (msg : SecpMessage) (from : SockAddr)
    → is_from_peer os s msg from ≡ true
    → sender_of s msg ≡ msg.username
unfolding is_from_peer
sender_of_peer os s msg from h = ground (arith, bytes_eq_iff msg.username s.peer_username)

module _ (Q : Effect → Type 0) (os : Os) where
  lobby-Admits :
      (l : LobbyService) (r n p : Bytes) (io : Io)
      → (r ≡ usn_chat → Q (lobby_message n p))
      → Admits Q io.out
      → Admits Q (if bytes_eq r usn_chat then on_lobby_chat l n p io else io).out
  unfolding on_lobby_chat traffic
  lobby-Admits l r n p io f h = elim (Bool-cases (bytes_eq r usn_chat)) [
    | inl e ↦ let q = f ((bytes_eq_iff r usn_chat).0 e) in rw e (ground arith)
    | inr e ↦ rw e h
  ]

  group-Admits :
      (g : GroupRoomCoordinator) (msg : SecpMessage) (from : SockAddr) (io : Io)
      → Q (group_message msg.room msg.username msg.payload)
      → Admits Q io.out
      → Admits Q (Messages.on_room_chat g msg from io).out
  unfolding Messages.on_room_chat traffic
  group-Admits g msg from io q h = elim (Bool-cases (bytes_eq msg.room g.active_room_name)) [
    | inl e ↦
        let q' : Q (group_message g.active_room_name msg.username msg.payload) =
          subst (λ r. Q (group_message r msg.username msg.payload))
            ((bytes_eq_iff msg.room g.active_room_name).0 e) q in
        ground arith
    | inr e ↦ ground arith
  ]

  deliver-Admits :
      (d : DirectMessageService) (msg : SecpMessage) (s : Session) (now : ℕ) (io : Io)
      → Q (private_message msg.room (sender_of s msg) msg.payload)
      → Admits Q io.out
      → Admits Q (deliver d msg s now io).1.out
  unfolding deliver traffic
  deliver-Admits d msg s now io q h = ground arith

  private-Admits :
      (d : DirectMessageService) (msg : SecpMessage) (from : SockAddr) (now : ℕ) (io : Io)
      → Q (private_message msg.room msg.username msg.payload)
      → Admits Q io.out
      → Admits Q (Receive.on_room_chat os d msg from now io).1.out
  unfolding Receive.on_room_chat
  private-Admits d msg from now io q h =
      let P = λ (r : DirectMessageService × Io). Admits Q r.1.out in
      if_holds P (not (is_chat msg.type)) {x = (d, io)} h (
        if_holds P (is_incomplete msg) {x = (d, io)} h (
          option_holds P (find msg.room d.sessions) {x = (d, io)} h (λ s.
            elim (Bool-cases (is_from_peer os s msg from)) [
              | inl e ↦ rw e (
                  deliver-Admits d msg s now io
                    (subst (λ n. Q (private_message msg.room n msg.payload))
                      (sym (sender_of_peer os s msg from e)) q)
                    h)
              | inr e ↦ rw e h
            ])))

  invite-Admits :
      (d : DirectMessageService) (msg : SecpMessage) (from : SockAddr) (c t : ℕ) (io : Io)
      → traffic (on_invite os d msg from c t io).1.out ≡ traffic io.out
  unfolding on_invite report traffic
  invite-Admits d msg from c t io = ground arith

  -- A message admits what it may be shown as.
  abbrev pub Shown : SecpMessage → Type 0
  Shown msg =
      (msg.room ≡ usn_chat → Q (lobby_message msg.username msg.payload))
      × Q (group_message msg.room msg.username msg.payload)
      × Q (private_message msg.room msg.username msg.payload)

  dispatch-Admits :
      (s : Services) (t : SecpType) (r n p : Bytes) (from : SockAddr) (now later : ℕ)
      → let msg : SecpMessage = record { type = t; room = r; username = n; payload = p } in
        (t ≡ chat → Shown msg)
        → Admits Q s.io.out
        → Admits Q (dispatch os s msg from now later).io.out
  unfolding dispatch dispatch_chat
  dispatch-Admits s presence r n p from now later f h = h
  dispatch-Admits s room_announce r n p from now later f h = h
  dispatch-Admits s invite r n p from now later f h =
      Admits-same Q s.io.out _ (invite-Admits s.direct _ from now later s.io) h
  dispatch-Admits s chat r n p from now later f h =
      let (lobby, group, private) = f refl in
      private-Admits s.direct _ from now _ private
        (group-Admits s.groups _ from _ group (lobby-Admits s.lobby r n p s.io lobby h))
  dispatch-Admits s unknown r n p from now later f h = h

  -- A line that was built under the name `n` is shown as what was built, if at all.
  pub hears-Speaks :
      (T : Bytes → Type 0) (u label : Bytes) (s : Services) (line n : Bytes) (from : SockAddr)
      (now later : ℕ)
      → Signed T n line
      → ((r p : Bytes)
          → T p
          → parse_secp_line line ≡ some (chat_message r n p)
          → Shown (chat_message r n p))
      → Speaks u Q s
      → Speaks u Q (handle_datagram os label s line from now later)
  unfolding traffic
  hears-Speaks T u label s line n from now later (t, r, p, e, filled, typed) f h =
      let built : is_empty (build_secp_line t r n p) ≡ false = ap is_empty (sym e) ∙ filled in
      let (known, fields) = (build-filled_iff t r n p).0 built in
      let msg : SecpMessage = record { type = t; room = r; username = n; payload = p } in
      let read : parse_secp_line line ≡ some msg =
        ap parse_secp_line e ∙ (parse-build t r n p known fields).1 in
      let s' = logged s (received os label from (build_secp_line t r n p)) in
      let shown = λ (c : t ≡ chat). f r p (typed c) (
        subst
          (λ t'.
            parse_secp_line line ≡ some (record { type = t'; room = r; username = n; payload = p }))
          c read) in
      subst (λ l. Speaks u Q (handle_datagram os label s l from now later)) (sym e)
        (subst (Speaks u Q) (sym (receive-build os label s t r n p from now later built)) (record {
          named =
              (Named-Keeps os u).handles s' msg from now later
                ((Named-Keeps os u).logs s _ h.named);
          admits = dispatch-Admits s' t r n p from now later shown h.admits;
        }))
