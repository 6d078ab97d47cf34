-- ===== src/Program/Traffic/Threads.antt =====
-- What the threads beside the menu say: nothing but lines under the program's own name.
use nettverk.Prelude.{
  Bool, false, is_empty, ℕ, ◌≡◌, ◌∙◌, not, Bytes, arith, if_holds, ◌||◌, Bool-cases, inl, inr,
}
use nettverk.Io.{Effect, send_udp}
use nettverk.Secp.{dash, build_secp_line}
use nettverk.Discovery.{or_dash}
use nettverk.Program.{first_presence}
use nettverk.Program.Traffic.{traffic, Voice, Admits, speaks}
use nettverk.Program.Traffic.Rooms
use nettverk.Program.Traffic.Rooms.{advert-Says}
use nettverk.Program.Traffic.Sessions
use nettverk.Program.Traffic.Sessions.{prune-Says, resend-Says}
use nettverk.Net.{SockAddr, Os}
use nettverk.Io.{Io}
use nettverk.Secp.{SecpMessage, SecpType, presence, room_announce, invite, chat, unknown}
use nettverk.Discovery.{DiscoveryService, send_presence_broadcast}
use nettverk.Groups.State.{GroupRoomCoordinator, prune_registry_unlocked}
use nettverk.Groups.Messages.{on_room_announce, broadcast_owned_advert}
use nettverk.Direct.State.{DirectMessageService}
use nettverk.Direct.Receive.{deliver, on_invite, on_room_chat}
use nettverk.Direct.Upkeep.{prune_pending}
use nettverk.Receive.Keeps.{Keeps}
use nettverk.Receive.{Services, dispatch, dispatch_chat}
use nettverk.Program.Threads.{Turn, beat, heartbeat, group_advert}

-- The services carry the name `u`.
pub record Named (u : Bytes) (s : Services) : Type 0 where
  pub discovery : s.discovery.username ≡ u
  pub groups : s.groups.username ≡ u
  pub direct : s.direct.self_username ≡ u

-- They carry the name `u`, and their traffic is admitted.
pub record Speaks (u : Bytes) (Q : Effect → Type 0) (s : Services) : Type 0 where
  pub named : Named u s
  pub admits : Admits Q s.io.out

announce_name :
    (g : GroupRoomCoordinator) (msg : SecpMessage) (now later : ℕ)
    → (on_room_announce g msg now later).username ≡ g.username
unfolding on_room_announce prune_registry_unlocked
announce_name g msg now later = ground arith

invite_name :
    (os : Os) (d : DirectMessageService) (msg : SecpMessage) (from : SockAddr) (c t : ℕ) (io : Io)
    → (on_invite os d msg from c t io).0.self_username ≡ d.self_username
unfolding on_invite
invite_name os d msg from c t io = ground arith

chat_name :
    (os : Os) (d : DirectMessageService) (msg : SecpMessage) (from : SockAddr) (now : ℕ) (io : Io)
    → (on_room_chat os d msg from now io).0.self_username ≡ d.self_username
unfolding on_room_chat deliver
chat_name os d msg from now io = ground arith

typed-Named :
    (os : Os) (u : Bytes) (s : Services) (t : SecpType) (r v p : Bytes) (from : SockAddr)
    (now later : ℕ)
    → Named u s
    → Named u
        (dispatch os s (record { type = t; room = r; username = v; payload = p }) from now later)
unfolding dispatch dispatch_chat
typed-Named os u s presence r v p from now later n = record {
  discovery = n.discovery;
  groups = n.groups;
  direct = n.direct;
}
typed-Named os u s room_announce r v p from now later n = record {
  discovery = n.discovery;
  groups = announce_name s.groups _ now later ∙ n.groups;
  direct = n.direct;
}
typed-Named os u s invite r v p from now later n = record {
  discovery = n.discovery;
  groups = n.groups;
  direct = invite_name os s.direct _ from now later s.io ∙ n.direct;
}
typed-Named os u s chat r v p from now later n = record {
  discovery = n.discovery;
  groups = n.groups;
  direct = chat_name os s.direct _ from now _ ∙ n.direct;
}
typed-Named os u s unknown r v p from now later n = n

pub Named-Keeps : (os : Os) (u : Bytes) → Keeps os (Named u)
Named-Keeps os u = record {
  logs = λ s l n. record { discovery = n.discovery; groups = n.groups; direct = n.direct };
  calls = λ s udp f n. record { discovery = n.discovery; groups = n.groups; direct = n.direct };
  takes =
      λ s sk sk' held n. record { discovery = n.discovery; groups = n.groups; direct = n.direct };
  handles = λ s msg from now later n.
      typed-Named os u s msg.type msg.room msg.username msg.payload from now later n;
}

-- The services with other effects, rooms or private sessions.
pub io-Speaks :
    (u : Bytes) (Q : Effect → Type 0) (s : Services) (io : Io)
    → Speaks u Q s
    → Admits Q io.out
    → Speaks u Q (record s { io = io })
io-Speaks u Q s io h a = record {
  named = record {
    discovery = h.named.discovery;
    groups = h.named.groups;
    direct = h.named.direct;
  };
  admits = a;
}

pub rooms-Speaks :
    (u : Bytes) (Q : Effect → Type 0) (s : Services) (g : GroupRoomCoordinator) (io : Io)
    → Speaks u Q s
    → Rooms.Says u Q g io
    → Speaks u Q (record s { groups = g; io = io })
rooms-Speaks u Q s g io h (n, a) = record {
  named = record { discovery = h.named.discovery; groups = n; direct = h.named.direct };
  admits = a;
}

pub direct-Speaks :
    (u : Bytes) (Q : Effect → Type 0) (s : Services) (d : DirectMessageService) (io : Io)
    → Speaks u Q s
    → Sessions.Says u Q d io
    → Speaks u Q (record s { direct = d; io = io })
direct-Speaks u Q s d io h (n, a) = record {
  named = record { discovery = h.named.discovery; groups = h.named.groups; direct = n };
  admits = a;
}

module _ (T : Bytes → Type 0) (u : Bytes) (Q : Effect → Type 0) (v : Voice T u Q) (os : Os) where
  pub presence-Admits :
      (d : DiscoveryService) (io : Io)
      → d.username ≡ u
      → Admits Q io.out
      → Admits Q (send_presence_broadcast os d io).0.out
  unfolding send_presence_broadcast send_udp traffic
  presence-Admits d io n h =
      let P = λ (r : Io × Bool). Admits Q r.0.out in
      if_holds P (not d.identity_ready || not d.socket) {x = (io, false)} h (
        let line = build_secp_line presence dash d.username (or_dash (os.inet_ntop d.ipv4)) in
        elim (Bool-cases (is_empty line)) [
          | inl b ↦ rw b h
          | inr b ↦ rw b (
            speaks T u Q v d.username presence dash (or_dash (os.inet_ntop d.ipv4)) _ _ _ n b
                (λ e. absurd (cc)),
            h,
          )
        ])

  pub beat-Speaks : (t : Turn) (s : Services) → Speaks u Q s → Speaks u Q (beat os t s)
  unfolding beat
  beat-Speaks t s h =
      let io1 = (send_presence_broadcast os s.discovery s.io).0 in
      let a1 = presence-Admits s.discovery s.io h.named.discovery h.admits in
      let r = prune_pending s.direct t.pending_now 30 io1 in
      let pruned = prune-Says u Q s.direct io1 (h.named.direct, a1) t.pending_now 30 in
      let (n, a) = resend-Says T u Q v os r.0 t.resend_now 6000 45 r.1 pruned in
      record {
        named = record { discovery = h.named.discovery; groups = h.named.groups; direct = n };
        admits = a;
      }

  advert-Speaks :
      (s : Services)
      → Speaks u Q s
      → Speaks u Q (record s { io = broadcast_owned_advert os s.groups s.io })
  advert-Speaks s h =
      io-Speaks u Q s _ h (advert-Says T u Q v os s.groups s.io (h.named.groups, h.admits))

  pub heartbeat-Speaks : (t : Turn) (s : Services) → Speaks u Q s → Speaks u Q (heartbeat os t s)
  unfolding heartbeat
  heartbeat-Speaks t s h = if_holds (Speaks u Q) (not _) h (beat-Speaks t s h)

  pub group_advert-Speaks :
      (t : Turn) (s : Services) → Speaks u Q s → Speaks u Q (group_advert os t s)
  unfolding group_advert
  group_advert-Speaks t s h = if_holds (Speaks u Q) (not _) h (advert-Speaks s h)

  -- The first presence, in the main thread.
  pub first-Speaks : (s : Services) → Speaks u Q s → Speaks u Q (first_presence os s)
  unfolding first_presence traffic
  first-Speaks s h =
      let a = presence-Admits s.discovery s.io h.named.discovery h.admits in
      elim (Bool-cases (send_presence_broadcast os s.discovery s.io).1) [
        | inl b ↦ io-Speaks u Q s _ h (rw b a)
        | inr b ↦ io-Speaks u Q s _ h (rw b a)
      ]
