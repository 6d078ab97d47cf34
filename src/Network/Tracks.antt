-- ===== src/Network/Tracks.antt =====
-- How the private sessions of a copy fare in what it does by itself and in what it hears.
use nettverk.Prelude.{
  true, ℕ, ◌≡◌, refl, sym, ap, subst, ◌∙◌, not, false, Bytes, UniqueKeys, is_empty, if_holds, ◌++◌,
}
use nettverk.Net.{SockAddr, Os}
use nettverk.Secp.{
  SecpMessage, SecpType, presence, room_announce, invite, chat, unknown, build_secp_line,
}
use nettverk.Direct.State.{outgoing_pending, incoming_pending, active, Session, closed_to}
use nettverk.Direct.Receive.{is_from_peer}
use nettverk.Direct.Steps
use nettverk.Direct.Steps.{step}
use nettverk.Direct.Reach.{step-UniqueKeys}
use nettverk.Direct.Upkeep.{prune_pending}
use nettverk.Direct.Origin.{
  Origin, Tracks, prune-Tracks, resend-Tracks, accept-Tracks, decline-Tracks, invite-Tracks,
  on_invite-Tracks, on_room_chat-Tracks,
}
use nettverk.Discovery.{send_presence_broadcast}
use nettverk.Receive.{Services, dispatch, dispatch_chat, handle_datagram}
use nettverk.Receive.EndToEnd.{receive-build, received}
use nettverk.Receive.Keeps.{logged}
use nettverk.Program.{first_presence}
use nettverk.Program.Threads.{Turn, beat, heartbeat, group_advert, sleep_for}
use nettverk.Groups.Messages.{broadcast_owned_advert}
use nettverk.Network.{
  Call, act, says_first, says_lobby, lists_rooms, creates_room, joins_room, leaves_room, says_group,
  invites, accepts, declines, says_private, beats, announces,
}

-- The sessions have distinct names, and `P` holds of each.
pub record Held (P : Origin) (s : Services) : Type 0 where
  pub unique : UniqueKeys s.direct.sessions
  pub tracks : Tracks P s.direct.sessions

module _ (P : Origin) (os : Os) where
  -- What the user's own acts need of `P`.
  pub record Acts : Type 0 where
    pub invited : (j u : Bytes) → is_empty u ≡ false → P j outgoing_pending u
    pub accepted : (j u : Bytes) → P j incoming_pending u → P j active u

  beat-Held : (t : Turn) (s : Services) → Held P s → Held P (beat os t s)
  unfolding beat step
  beat-Held t s h =
      let io1 = (send_presence_broadcast os s.discovery s.io).0 in
      let r = prune_pending s.direct t.pending_now 30 io1 in
      let u = step-UniqueKeys os s.direct io1 (Steps.prunes t.pending_now 30) h.unique in
      record {
        unique = step-UniqueKeys os r.0 r.1 (Steps.resends t.resend_now 6000 45) u;
        tracks =
            resend-Tracks P os r.0 t.resend_now 6000 45 r.1 u
              (prune-Tracks P s.direct t.pending_now 30 io1 h.unique h.tracks);
      }

  advert-Held : (t : Turn) (s : Services) → Held P s → Held P (group_advert os t s)
  unfolding group_advert
  advert-Held t s h =
      let after : Services = record s { io = broadcast_owned_advert os s.groups s.io } in
      if_holds (Held P) (not (sleep_for t.before t.after)) {y = after} h
        (record { unique = h.unique; tracks = h.tracks })

  heartbeat-Held : (t : Turn) (s : Services) → Held P s → Held P (heartbeat os t s)
  unfolding heartbeat
  heartbeat-Held t s h = if_holds (Held P) (not _) h (beat-Held t s h)

  pub act-Held : (u : Bytes) (s : Services) (c : Call) → Acts → Held P s → Held P (act os u s c)
  unfolding act step first_presence
  act-Held u s says_first a h = record { unique = h.unique; tracks = h.tracks }
  act-Held u s (says_lobby text) a h = record { unique = h.unique; tracks = h.tracks }
  act-Held u s (lists_rooms now) a h = record { unique = h.unique; tracks = h.tracks }
  act-Held u s (creates_room name) a h = record { unique = h.unique; tracks = h.tracks }
  act-Held u s (joins_room name now) a h = record { unique = h.unique; tracks = h.tracks }
  act-Held u s leaves_room a h = record { unique = h.unique; tracks = h.tracks }
  act-Held u s (says_group text) a h = record { unique = h.unique; tracks = h.tracks }
  act-Held u s (invites who random now) a h = record {
    unique = step-UniqueKeys os s.direct s.io (Steps.invites s.users who random now) h.unique;
    tracks = invite-Tracks P os s.users s.direct who random now s.io a.invited h.tracks;
  }
  act-Held u s (accepts sid now) a h = record {
    unique = step-UniqueKeys os s.direct s.io (Steps.accepts sid now) h.unique;
    tracks = accept-Tracks P s.direct sid now s.io a.accepted h.tracks;
  }
  act-Held u s (declines sid reason) a h = record {
    unique = step-UniqueKeys os s.direct s.io (Steps.declines sid reason) h.unique;
    tracks = decline-Tracks P s.direct sid reason s.io h.unique h.tracks;
  }
  act-Held u s (says_private sid text) a h = record { unique = h.unique; tracks = h.tracks }
  act-Held u s (beats t) a h = heartbeat-Held t s h
  act-Held u s (announces t) a h = advert-Held t s h

  -- What a message that is received needs of `P`.
  pub record Hears (s : Services) (msg : SecpMessage) (from : SockAddr) : Type 0 where
    pub notified :
        msg.type ≡ invite
        → msg.payload ≡ closed_to ++ s.direct.self_username
        → P msg.room incoming_pending msg.username
    pub confirmed :
        msg.type ≡ chat
        → (p : Session) → is_from_peer os p msg from ≡ true
        → P msg.room outgoing_pending p.peer_username
        → P msg.room active p.peer_username

  dispatch-Held :
      (s : Services) (t : SecpType) (r n p : Bytes) (from : SockAddr) (now later : ℕ)
      → let msg : SecpMessage = record { type = t; room = r; username = n; payload = p } in
        Hears s msg from → Held P s → Held P (dispatch os s msg from now later)
  unfolding dispatch dispatch_chat step
  dispatch-Held s presence r n p from now later a h = record {
    unique = h.unique;
    tracks = h.tracks;
  }
  dispatch-Held s room_announce r n p from now later a h = record {
    unique = h.unique;
    tracks = h.tracks;
  }
  dispatch-Held s invite r n p from now later a h =
      let msg : SecpMessage = record { type = invite; room = r; username = n; payload = p } in
      record {
        unique =
            step-UniqueKeys os s.direct s.io (Steps.invite_arrives msg from now later) h.unique;
        tracks = on_invite-Tracks P os s.direct msg from now later s.io (a.notified refl) h.tracks;
      }
  dispatch-Held s chat r n p from now later a h =
      let msg : SecpMessage = record { type = chat; room = r; username = n; payload = p } in
      record {
        unique = step-UniqueKeys os s.direct _ (Steps.chat_arrives msg from now) h.unique;
        tracks = on_room_chat-Tracks P os s.direct msg from now _ (a.confirmed refl) h.tracks;
      }
  dispatch-Held s unknown r n p from now later a h = h

  -- A line that was built as a message.
  pub Hears-Held :
      (label : Bytes) (s : Services) (line : Bytes) (t : SecpType) (r n p : Bytes) (from : SockAddr)
      (now later : ℕ)
      → line ≡ build_secp_line t r n p
      → is_empty line ≡ false
      → Hears s (record { type = t; room = r; username = n; payload = p }) from
      → Held P s
      → Held P (handle_datagram os label s line from now later)
  Hears-Held label s line t r n p from now later e filled a h =
      let built : is_empty (build_secp_line t r n p) ≡ false = ap is_empty (sym e) ∙ filled in
      let s' = logged s (received os label from (build_secp_line t r n p)) in
      let a' : Hears s' (record { type = t; room = r; username = n; payload = p }) from = record {
        notified = a.notified;
        confirmed = a.confirmed;
      } in
      subst (λ l. Held P (handle_datagram os label s l from now later)) (sym e)
        (subst (Held P) (sym (receive-build os label s t r n p from now later built)) (
          dispatch-Held s' t r n p from now later a'
            (record { unique = h.unique; tracks = h.tracks })))
