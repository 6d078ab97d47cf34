-- ===== src/Receive/Consent.antt =====
-- What the net alone cannot change: an invitation waits for the user, and the user's room stays.
use nettverk.Prelude.{
  ℕ, ◌≡◌, refl, sym, ap, ◌∙◌, true, false, Option, none, some, List, Bytes, bytes_eq, bytes_eq_iff,
  find, insert, find-insert, Dict, Bool-cases, inl, inr, arith,
}
use nettverk.Net.{SockAddr, Os}
use nettverk.Io.{Io}
use nettverk.Secp.{SecpMessage, SecpType, presence, room_announce, invite, chat, unknown}
use nettverk.Groups.State.{GroupRoomCoordinator, prune_registry_unlocked}
use nettverk.Groups.Messages.{on_room_announce}
use nettverk.Direct.State.{Session, DirectMessageService, is_incoming, is_outgoing}
use nettverk.Direct.Receive.{on_invite, on_room_chat, deliver}
use nettverk.Direct.Cases.{on_invite_cases, on_room_chat_cases}
use nettverk.Receive.Keeps.{Keeps, loop_keeps}
use nettverk.Receive.{Services, dispatch_chat, dispatch, Polled, run_receive_multiplex_loop}

-- The rooms of the user are the same in both states.
pub record SameRoom (g h : GroupRoomCoordinator) : Type 0 where
  pub active : h.active_room_name ≡ g.active_room_name
  pub owned : h.owned ≡ g.owned
  pub group : h.joined_group ≡ g.joined_group
  pub membership : h.joined_membership ≡ g.joined_membership

announce-SameRoom :
    (g h : GroupRoomCoordinator) (msg : SecpMessage) (now later : ℕ)
    → SameRoom g h
    → SameRoom g (on_room_announce h msg now later)
unfolding on_room_announce prune_registry_unlocked
announce-SameRoom g h msg now later v = record {
  active = ground (arith, v.active);
  owned = ground (arith, v.owned);
  group = ground (arith, v.group);
  membership = ground (arith, v.membership);
}

insert_elsewhere :
    (k j : Bytes) (v : Session) (m : Dict Session) (t : Session)
    → bytes_eq k j ≡ false
    → find j m ≡ some t
    → find j (insert k v m) ≡ some t
insert_elsewhere k j v m t h e = find-insert k j v m ∙ rw h e

other_key :
    (k j : Bytes) (m : Dict Session) (o : Option Session) (t : Session)
    → find k m ≡ o
    → find j m ≡ some t
    → (o ≡ some t → ⊥)
    → bytes_eq k j ≡ false
other_key k j m o t e f differ = elim (Bool-cases (bytes_eq k j)) [
  | inr h ↦ h
  | inl h ↦ absurd (differ (sym e ∙ ap (λ i. find i m) ((bytes_eq_iff k j).0 h) ∙ f))
]

invite_waits :
    (os : Os) (d : DirectMessageService) (msg : SecpMessage) (from : SockAddr) (c u : ℕ) (io : Io)
    (j : Bytes) (t : Session)
    → find j d.sessions ≡ some t
    → find j (on_invite os d msg from c u io).0.sessions ≡ some t
invite_waits os d msg from c u io j t e = elim (on_invite_cases os d msg from c u io) [
  | inl r ↦ rw r e
  | inr (absent, _, r) ↦ rw r (
      insert_elsewhere msg.room j _ d.sessions t
        (other_key msg.room j d.sessions none t absent e (λ h. cc)) e)
]

deliver_waits :
    (d : DirectMessageService) (msg : SecpMessage) (s : Session) (now : ℕ) (io : Io) (j : Bytes)
    (t : Session)
    → is_incoming t.state ≡ true
    → find msg.room d.sessions ≡ some s
    → find j d.sessions ≡ some t
    → find j (deliver d msg s now io).0.sessions ≡ some t
unfolding deliver
deliver_waits d msg s now io j t w found e = elim (Bool-cases (is_outgoing s.state)) [
  | inl g ↦ rw g (
      insert_elsewhere msg.room j _ d.sessions t
        (other_key msg.room j d.sessions (some s) t found e (λ h. ground arith)) e)
  | inr g ↦ ground arith
]

chat_waits :
    (os : Os) (d : DirectMessageService) (msg : SecpMessage) (from : SockAddr) (now : ℕ) (io : Io)
    (j : Bytes) (t : Session)
    → is_incoming t.state ≡ true
    → find j d.sessions ≡ some t
    → find j (on_room_chat os d msg from now io).0.sessions ≡ some t
chat_waits os d msg from now io j t w e = elim (on_room_chat_cases os d msg from now io) [
  | inl r ↦ rw r e
  | inr (s, found, _, r) ↦ rw r (deliver_waits d msg s now io j t w found e)
]

-- What the loop keeps for one invitation and for the rooms of `g`.
abbrev Waits : Bytes → Session → GroupRoomCoordinator → Services → Type 0
Waits j t g s = (find j s.direct.sessions ≡ some t) × SameRoom g s.groups

typed-Waits :
    (os : Os) (s : Services) (t : SecpType) (r u p : Bytes) (from : SockAddr) (now later : ℕ)
    (j : Bytes) (i : Session) (g : GroupRoomCoordinator)
    → is_incoming i.state ≡ true
    → Waits j i g s
    → Waits j i g
        (dispatch os s (record { type = t; room = r; username = u; payload = p }) from now later)
unfolding dispatch dispatch_chat
typed-Waits os s presence r u p from now later j i g w v = v
typed-Waits os s room_announce r u p from now later j i g w v =
    (v.0, announce-SameRoom g s.groups _ now later v.1)
typed-Waits os s invite r u p from now later j i g w v =
    (invite_waits os s.direct _ from now later s.io j i v.0, v.1)
typed-Waits os s chat r u p from now later j i g w v =
    (chat_waits os s.direct _ from now _ j i w v.0, v.1)
typed-Waits os s unknown r u p from now later j i g w v = v

Waits-Keeps :
    (os : Os) (j : Bytes) (i : Session) (g : GroupRoomCoordinator)
    → is_incoming i.state ≡ true
    → Keeps os (Waits j i g)
Waits-Keeps os j i g w = record {
  logs = λ s l v. v;
  calls = λ s udp f v. v;
  takes = λ s sk sk' held v. (
    v.0,
    record {
      active = v.1.active;
      owned = v.1.owned;
      group = v.1.group;
      membership = v.1.membership;
    },
  );
  handles = λ s msg from now later v.
      typed-Waits os s msg.type msg.room msg.username msg.payload from now later j i g w v;
}

-- However long the loop runs and whatever arrives: an invitation that was received stays exactly as
-- it is, so that only the user can accept it; and the active room, the owned room, the group and the
-- membership of the open rooms stay as they are.
pub loop_waits :
    (os : Os) (ps : List Polled) (s : Services) (j : Bytes) (i : Session)
    → find j s.direct.sessions ≡ some i
    → is_incoming i.state ≡ true
    → (find j (run_receive_multiplex_loop os ps s).direct.sessions ≡ some i)
      × SameRoom s.groups (run_receive_multiplex_loop os ps s).groups
loop_waits os ps s j i e w =
    loop_keeps os (Waits-Keeps os j i s.groups w) ps s
      (e, record { active = refl; owned = refl; group = refl; membership = refl })
