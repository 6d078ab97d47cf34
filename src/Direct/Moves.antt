-- ===== src/Direct/Moves.antt =====
-- Every command and every message moves every session of DirectMessageService along an edge of
-- `Move`.
use nettverk.Prelude.{
  ℕ, ◌≡◌, refl, subst, true, Option, none, some, Bytes, Dict, find, insert, erase, bytes_eq,
  bytes_eq_iff, find-insert, find-erase, UniqueKeys, Bool-cases, inl, inr, arith, ◌||◌,
}
use nettverk.Net.{SockAddr, Os, udp_port}
use nettverk.Io.{Io}
use nettverk.Secp.{SecpMessage}
use nettverk.Trim.{trim_in_place}
use nettverk.Users.{UserDirectory}
use nettverk.Direct.State.{
  outgoing_pending, is_outgoing, Session, make_session_id, make_unicast_dest, DirectMessageService,
}
use nettverk.Direct.Commands.{invite_user, accept_invite, decline_invite}
use nettverk.Direct.Receive.{on_invite, on_room_chat, deliver, is_from_peer}
use nettverk.Direct.Steps.{
  Event, invites, accepts, declines, sends, invite_arrives, chat_arrives, prunes, resends, step,
  Move, stays, invited, notified, accepted, confirmed, resent, removed,
}
use nettverk.Direct.Upkeep.{
  prune_pending, resend_outgoing_pending, resend_step, is_expire, is_again, is_stale,
}
use nettverk.Direct.Expiry.{
  after_prune, after_resend, find-prune_pending, find-resend_outgoing_pending, resend_unbound,
}
use nettverk.Direct.Cases.{
  accept_cases, decline_cases, invite_at_cases, invite_user_cases, on_invite_cases,
  on_room_chat_cases,
}

module _ (os : Os) (e : Event) where
  -- To write one session moves that one, and no other.
  insert-Move :
      (k j : Bytes) (v : Session) (m : Dict Session)
      → Move os e k (find k m) (some v)
      → Move os e j (find j m) (find j (insert k v m))
  insert-Move k j v m h = elim (Bool-cases (bytes_eq k j)) [
    | inl same ↦
        rw (find-insert k j v m, same)
          (subst (λ i. Move os e i (find i m) (some v)) ((bytes_eq_iff k j).0 same) h)
    | inr other ↦ rw (find-insert k j v m, other) (stays refl)
  ]

  erase-Move :
      (k j : Bytes) (m : Dict Session)
      → UniqueKeys m
      → Move os e k (find k m) none
      → Move os e j (find j m) (find j (erase k m))
  erase-Move k j m u h = elim (Bool-cases (bytes_eq k j)) [
    | inl same ↦
        rw (find-erase k j m u, same)
          (subst (λ i. Move os e i (find i m) none) ((bytes_eq_iff k j).0 same) h)
    | inr other ↦ rw (find-erase k j m u, other) (stays refl)
  ]

pub accept-Move :
    (os : Os) (d : DirectMessageService) (room : Bytes) (now : ℕ) (io : Io) (j : Bytes)
    → Move os
        (accepts room now)
        j
        (find j d.sessions)
        (find j (accept_invite d room now io).0.sessions)
accept-Move os d room now io j = elim (accept_cases d room now io) [
  | inl e ↦ stays (rw e)
  | inr (s, e, p, r) ↦ rw r (
      insert-Move os _ (trim_in_place room) j _ d.sessions (
        accepted s _ e p refl refl
          (record { session_id = refl; peer_username = refl; peer_addr = refl; created_at = refl })
          refl))
]

pub decline-Move :
    (os : Os) (d : DirectMessageService) (room reason : Bytes) (io : Io) (j : Bytes)
    → UniqueKeys d.sessions
    → Move os
        (declines room reason)
        j
        (find j d.sessions)
        (find j (decline_invite d room reason io).0.sessions)
decline-Move os d room reason io j u = elim (decline_cases d room reason io) [
  | inl e ↦ stays (rw e)
  | inr (s, e, p, r) ↦
      rw r (erase-Move os _ (trim_in_place room) j d.sessions u (removed s e (rw p) refl))
]

pub invite-Move :
    (os : Os) (users : UserDirectory) (d : DirectMessageService) (target : Bytes) (random now : ℕ)
    (io : Io) (j : Bytes)
    → Move os
        (invites users target random now)
        j
        (find j d.sessions)
        (find j (invite_user os users d target random now io).0.sessions)
invite-Move os users d target random now io j =
    elim (invite_user_cases os users d target random now io) [
      | inl e ↦ stays (rw e)
      | inr (addr, known, e) ↦
          rw e
            (elim (invite_at_cases os d (make_session_id random) (trim_in_place target)
              (make_unicast_dest os addr udp_port) now io) [
                | inl e' ↦ stays (rw e')
                | inr (absent, e') ↦
                    rw e' (insert-Move os _ _ j _ d.sessions (invited _ absent refl refl))
              ])
    ]

pub on_invite-Move :
    (os : Os) (d : DirectMessageService) (msg : SecpMessage) (from : SockAddr) (c u : ℕ) (io : Io)
    (j : Bytes)
    → Move os
        (invite_arrives msg from c u)
        j
        (find j d.sessions)
        (find j (on_invite os d msg from c u io).0.sessions)
on_invite-Move os d msg from c u io j = elim (on_invite_cases os d msg from c u io) [
  | inl e ↦ stays (rw e)
  | inr (absent, _, e) ↦
      rw e (insert-Move os _ msg.room j _ d.sessions (notified _ absent refl refl))
]

-- `deliver` activates an outgoing session and writes to no other.
deliver-Move :
    (os : Os) (d : DirectMessageService) (msg : SecpMessage) (from : SockAddr) (s : Session)
    (now : ℕ) (io : Io) (j : Bytes)
    → find msg.room d.sessions ≡ some s
    → is_from_peer os s msg from ≡ true
    → Move os
        (chat_arrives msg from now)
        j
        (find j d.sessions)
        (find j (deliver d msg s now io).0.sessions)
unfolding deliver
deliver-Move os d msg from s now io j e p = elim (Bool-cases (is_outgoing s.state)) [
  | inl g ↦ rw g (
      insert-Move os _ msg.room j _ d.sessions (
        confirmed s _ e (ground arith) refl refl
          (record { session_id = refl; peer_username = refl; peer_addr = refl; created_at = refl })
          (refl, p)))
  | inr g ↦ stays (ground arith)
]

pub on_room_chat-Move :
    (os : Os) (d : DirectMessageService) (msg : SecpMessage) (from : SockAddr) (now : ℕ) (io : Io)
    (j : Bytes)
    → Move os
        (chat_arrives msg from now)
        j
        (find j d.sessions)
        (find j (on_room_chat os d msg from now io).0.sessions)
on_room_chat-Move os d msg from now io j = elim (on_room_chat_cases os d msg from now io) [
  | inl e ↦ stays (rw e)
  | inr (s, e, p, r) ↦ rw r (deliver-Move os d msg from s now io j e p)
]

prune-Move_at :
    (os : Os) (e : Event) (j : Bytes) (now max_age : ℕ) (o : Option Session)
    → Move os e j o (after_prune now max_age o)
prune-Move_at os e j now max_age none = stays refl
prune-Move_at os e j now max_age (some s) = elim (Bool-cases (is_stale now max_age s)) [
  | inl h ↦ rw h (removed s refl (ground arith) refl)
  | inr h ↦ rw h (stays refl)
]

outgoing_of_step :
    (now min_interval max_age : ℕ) (s : Session)
    → (is_expire (resend_step now min_interval max_age s)
        || is_again (resend_step now min_interval max_age s))
      ≡ true
    → s.state ≡ outgoing_pending
unfolding resend_step
outgoing_of_step now min_interval max_age s h = ground arith

resend-Move_at :
    (os : Os) (e : Event) (j : Bytes) (now min_interval max_age : ℕ) (o : Option Session)
    → Move os e j o (after_resend now (resend_step now min_interval max_age) o)
resend-Move_at os e j now min_interval max_age none = stays refl
resend-Move_at os e j now min_interval max_age (some s) =
    let r = resend_step now min_interval max_age s in
    elim (Bool-cases (is_expire r)) [
      | inl h ↦ rw h (removed s refl (rw (outgoing_of_step now min_interval max_age s (rw h))) refl)
      | inr h ↦ elim (Bool-cases (is_again r)) [
        | inl k ↦
            let was = outgoing_of_step now min_interval max_age s (rw (h, k)) in
            rw (h, k)
              (resent s _ refl was refl was (record {
                session_id = refl;
                peer_username = refl;
                peer_addr = refl;
                created_at = refl;
              }))
        | inr k ↦ rw (h, k) (stays refl)
      ]
    ]

prune-Move :
    (os : Os) (d : DirectMessageService) (now max_age : ℕ) (io : Io) (j : Bytes)
    → UniqueKeys d.sessions
    → Move os
        (prunes now max_age)
        j
        (find j d.sessions)
        (find j (prune_pending d now max_age io).0.sessions)
prune-Move os d now max_age io j u =
    rw (find-prune_pending d now max_age io j u)
      (prune-Move_at os _ j now max_age (find j d.sessions))

resend-Move :
    (os : Os) (d : DirectMessageService) (now min_interval max_age : ℕ) (io : Io) (j : Bytes)
    → UniqueKeys d.sessions
    → Move os
        (resends now min_interval max_age)
        j
        (find j d.sessions)
        (find j (resend_outgoing_pending os d now min_interval max_age io).0.sessions)
resend-Move os d now min_interval max_age io j u = elim (Bool-cases d.socket) [
  | inl e ↦
      rw (find-resend_outgoing_pending os d now min_interval max_age io j e u)
        (resend-Move_at os _ j now min_interval max_age (find j d.sessions))
  | inr e ↦ rw (resend_unbound os d now min_interval max_age io e) (stays refl)
]

-- On sessions under distinct names, every call moves every session along an edge of `Move`: a session begins as an invitation sent or
-- received, becomes active only by the user's acceptance of a received one or by a chat message from
-- the peer's endpoint to a sent one, and is removed only while it is pending; all else about it but
-- its clock stamps stays.
pub step-Move :
    (os : Os) (d : DirectMessageService) (io : Io) (e : Event) (j : Bytes)
    → UniqueKeys d.sessions
    → Move os e j (find j d.sessions) (find j (step os (d, io) e).0.sessions)
unfolding step
step-Move os d io (invites users target random now) j u =
    invite-Move os users d target random now io j
step-Move os d io (accepts room now) j u = accept-Move os d room now io j
step-Move os d io (declines room reason) j u = decline-Move os d room reason io j u
step-Move os d io (sends sid text) j u = stays refl
step-Move os d io (invite_arrives msg from created updated) j u =
    on_invite-Move os d msg from created updated io j
step-Move os d io (chat_arrives msg from now) j u = on_room_chat-Move os d msg from now io j
step-Move os d io (prunes now max_age) j u = prune-Move os d now max_age io j u
step-Move os d io (resends now min_interval max_age) j u =
    resend-Move os d now min_interval max_age io j u
