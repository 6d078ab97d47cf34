-- ===== src/Direct/Origin.antt =====
-- What holds of every session of DirectMessageService, by its name, its state and its peer's name:
-- how each call keeps it.
use nettverk.Prelude.{
  ◌++◌, ℕ, ◌≡◌, refl, sym, subst, ◌∙◌, true, false, Option, none, some, Bytes, Dict, find, insert,
  erase, find-insert, find-erase, bytes_eq, bytes_eq_iff, UniqueKeys, is_empty, arith, Bool-cases,
  inl, inr, if◌then◌else◌,
}
use nettverk.Net.{SockAddr, Os, udp_port}
use nettverk.Io.{Io}
use nettverk.Secp.{SecpMessage}
use nettverk.Trim.{trim_in_place}
use nettverk.Users.{UserDirectory}
use nettverk.Direct.State.{
  DirectSessionState, outgoing_pending, incoming_pending, active, Session, DirectMessageService,
  make_session_id, make_unicast_dest, closed_to, is_outgoing,
}
use nettverk.Direct.Commands.{invite_user, accept_invite, decline_invite}
use nettverk.Direct.Receive.{on_invite, on_room_chat, deliver, is_from_peer}
use nettverk.Direct.Upkeep.{
  prune_pending, resend_outgoing_pending, resend_step, is_stale, ResendStep, is_expire, touched,
}
use nettverk.Direct.Cases.{
  accept_cases, decline_cases, invite_at_cases, invite_user_cases, on_invite_cases,
  on_room_chat_cases,
}
use nettverk.Direct.Expiry.{
  find-prune_pending, find-resend_outgoing_pending, after_prune, after_resend,
}

-- A predicate of a session's name, its state and its peer's name.
abbrev pub Origin : Type 1
Origin = Bytes → DirectSessionState → Bytes → Type 0

-- It holds of every session of the table.
abbrev pub Tracks : Origin → Dict Session → Type 0
Tracks P m = (j : Bytes) (s : Session) → find j m ≡ some s → P j s.state s.peer_username

some_inj : {s t : Session} → some s ≡ some t → s ≡ t
some_inj e = cc

outgoing_state : (t : DirectSessionState) → is_outgoing t ≡ true → t ≡ outgoing_pending
outgoing_state t h = ground arith

deliver_stays :
    (d : DirectMessageService) (msg : SecpMessage) (s : Session) (now : ℕ) (io : Io)
    → is_outgoing s.state ≡ false
    → (deliver d msg s now io).0 ≡ d
unfolding deliver
deliver_stays d msg s now io g = ground arith

deliver_stores :
    (d : DirectMessageService) (msg : SecpMessage) (s : Session) (now : ℕ) (io : Io)
    → is_outgoing s.state ≡ true
    → (deliver d msg s now io).0.sessions
      ≡ insert msg.room (record s { state = active; last_update = now }) d.sessions
unfolding deliver
deliver_stores d msg s now io g = ground arith

-- Nobody is invited under an empty name.
nobody :
    (os : Os) (users : UserDirectory) (d : DirectMessageService) (who : Bytes) (random now : ℕ)
    (io : Io)
    → is_empty (trim_in_place who) ≡ true
    → (invite_user os users d who random now io).0 ≡ d
unfolding invite_user
nobody os users d who random now io b = ground (arith, b)

module _ (P : Origin) where
  insert-Tracks :
      (k : Bytes) (v : Session) (m : Dict Session)
      → P k v.state v.peer_username
      → Tracks P m
      → Tracks P (insert k v m)
  insert-Tracks k v m p h j s e =
      let e' : (if bytes_eq k j then some v else find j m) ≡ some s =
        sym (find-insert k j v m) ∙ e in
      elim (Bool-cases (bytes_eq k j)) [
        | inl b ↦
            subst (λ x. P j x.state x.peer_username) (some_inj (rw b at e'))
              (subst (λ i. P i v.state v.peer_username) ((bytes_eq_iff k j).0 b) p)
        | inr b ↦ h j s (rw b at e')
      ]

  erase-Tracks : (k : Bytes) (m : Dict Session) → UniqueKeys m → Tracks P m → Tracks P (erase k m)
  erase-Tracks k m u h j s e =
      let e' : (if bytes_eq k j then none else find j m) ≡ some s = sym (find-erase k j m u) ∙ e in
      elim (Bool-cases (bytes_eq k j)) [
        | inl b ↦ absurd (ground arith)
        | inr b ↦ h j s (rw b at e')
      ]

  after_prune-Origin :
      (now max_age : ℕ) (j : Bytes) (o : Option Session) (t : Session)
      → ((s : Session) → o ≡ some s → P j s.state s.peer_username)
      → after_prune now max_age o ≡ some t
      → P j t.state t.peer_username
  after_prune-Origin now max_age j none t h e = absurd (cc)
  after_prune-Origin now max_age j (some s) t h e = elim (Bool-cases (is_stale now max_age s)) [
    | inl b ↦ absurd (ground arith)
    | inr b ↦ h t (ground arith)
  ]

  pub prune-Tracks :
      (d : DirectMessageService) (now max_age : ℕ) (io : Io)
      → UniqueKeys d.sessions
      → Tracks P d.sessions
      → Tracks P (prune_pending d now max_age io).0.sessions
  prune-Tracks d now max_age io u h j s e =
      after_prune-Origin now max_age j (find j d.sessions) s (h j)
        (sym (find-prune_pending d now max_age io j u) ∙ e)

  touched-Origin :
      (now : ℕ) (step : ResendStep) (j : Bytes) (s : Session)
      → P j s.state s.peer_username
      → P j (touched now step s).state (touched now step s).peer_username
  touched-Origin now ResendStep.skip j s p = p
  touched-Origin now ResendStep.expire j s p = p
  touched-Origin now ResendStep.wait j s p = p
  touched-Origin now ResendStep.again j s p = p

  after_resend-Origin :
      (now : ℕ) (step : Session → ResendStep) (j : Bytes) (o : Option Session) (t : Session)
      → ((s : Session) → o ≡ some s → P j s.state s.peer_username)
      → after_resend now step o ≡ some t
      → P j t.state t.peer_username
  after_resend-Origin now step j none t h e = absurd (cc)
  after_resend-Origin now step j (some s) t h e = elim (Bool-cases (is_expire (step s))) [
    | inl b ↦ absurd (ground arith)
    | inr b ↦
        subst (λ x. P j x.state x.peer_username) (some_inj (rw b at e))
          (touched-Origin now (step s) j s (h s refl))
  ]

  pub resend-Tracks :
      (os : Os) (d : DirectMessageService) (now min_interval max_age : ℕ) (io : Io)
      → UniqueKeys d.sessions
      → Tracks P d.sessions
      → Tracks P (resend_outgoing_pending os d now min_interval max_age io).0.sessions
  resend-Tracks os d now min_interval max_age io u h j s e = elim (Bool-cases d.socket) [
    | inl b ↦
        after_resend-Origin now (resend_step now min_interval max_age) j (find j d.sessions) s (h j)
          (sym (find-resend_outgoing_pending os d now min_interval max_age io j b u) ∙ e)
    | inr b ↦ h j s (unfold resend_outgoing_pending in rw b at e)
  ]

  pub decline-Tracks :
      (d : DirectMessageService) (room reason : Bytes) (io : Io)
      → UniqueKeys d.sessions
      → Tracks P d.sessions
      → Tracks P (decline_invite d room reason io).0.sessions
  decline-Tracks d room reason io u h = elim (decline_cases d room reason io) [
    | inl e ↦ rw e h
    | inr (s, _, _, e) ↦ rw e (erase-Tracks (trim_in_place room) d.sessions u h)
  ]

  pub accept-Tracks :
      (d : DirectMessageService) (room : Bytes) (now : ℕ) (io : Io)
      → ((j u : Bytes) → P j incoming_pending u → P j active u)
      → Tracks P d.sessions
      → Tracks P (accept_invite d room now io).0.sessions
  accept-Tracks d room now io a h = elim (accept_cases d room now io) [
    | inl e ↦ rw e h
    | inr (s, f, i, e) ↦ rw e (
        insert-Tracks (trim_in_place room) (record s { state = active; last_update = now })
          d.sessions
          (a (trim_in_place room) s.peer_username
            (subst (λ t. P (trim_in_place room) t s.peer_username) i (h (trim_in_place room) s f)))
          h)
  ]

  pub invite-Tracks :
      (os : Os) (users : UserDirectory) (d : DirectMessageService) (who : Bytes) (random now : ℕ)
      (io : Io)
      → ((j u : Bytes) → is_empty u ≡ false → P j outgoing_pending u)
      → Tracks P d.sessions
      → Tracks P (invite_user os users d who random now io).0.sessions
  invite-Tracks os users d who random now io a h =
      elim (Bool-cases (is_empty (trim_in_place who))) [
        | inl b ↦ rw (nobody os users d who random now io b) h
        | inr b ↦ elim (invite_user_cases os users d who random now io) [
          | inl e ↦ rw e h
          | inr (addr, _, e) ↦
              rw e
                (elim (invite_at_cases os d (make_session_id random) (trim_in_place who)
                  (make_unicast_dest os addr udp_port) now io) [
                    | inl e' ↦ rw e' h
                    | inr (_, e') ↦ rw e' (insert-Tracks _ _ d.sessions (a _ _ b) h)
                  ])
        ]
      ]

  pub on_invite-Tracks :
      (os : Os) (d : DirectMessageService) (msg : SecpMessage) (from : SockAddr) (c t : ℕ) (io : Io)
      → (msg.payload ≡ closed_to ++ d.self_username → P msg.room incoming_pending msg.username)
      → Tracks P d.sessions
      → Tracks P (on_invite os d msg from c t io).0.sessions
  on_invite-Tracks os d msg from c t io a h = elim (on_invite_cases os d msg from c t io) [
    | inl e ↦ rw e h
    | inr (_, p, e) ↦ rw e (insert-Tracks msg.room _ d.sessions (a p) h)
  ]

  -- A chat message of the peer.
  pub on_room_chat-Tracks :
      (os : Os) (d : DirectMessageService) (msg : SecpMessage) (from : SockAddr) (now : ℕ) (io : Io)
      → ((s : Session)
          → is_from_peer os s msg from ≡ true
          → P msg.room outgoing_pending s.peer_username
          → P msg.room active s.peer_username)
      → Tracks P d.sessions
      → Tracks P (on_room_chat os d msg from now io).0.sessions
  on_room_chat-Tracks os d msg from now io a h = elim (on_room_chat_cases os d msg from now io) [
    | inl e ↦ rw e h
    | inr (s, f, p, e) ↦ rw e (elim (Bool-cases (is_outgoing s.state)) [
      | inl g ↦ rw (deliver_stores d msg s now io g) (
          insert-Tracks msg.room (record s { state = active; last_update = now }) d.sessions
            (a s p (
              subst (λ t. P msg.room t s.peer_username) (outgoing_state s.state g)
                (h msg.room s f)))
            h)
      | inr g ↦ rw (deliver_stays d msg s now io g) h
    ])
  ]
