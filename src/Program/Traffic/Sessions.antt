-- ===== src/Program/Traffic/Sessions.antt =====
-- What DirectMessageService says: its calls add nothing to the traffic but lines under its own name.
use nettverk.Prelude.{
  Bool, insert, is_empty, ltb, length, ℕ, ◌≡◌, refl, ◌∙◌, false, not, ◌||◌, List, [], ◌∷◌, ◌++◌,
  Bytes, arith, if_holds, option_holds, find, contains, Bool-cases, inl, inr,
}
use nettverk.Net.{SockAddr, Os, udp_port}
use nettverk.Trim.{trim_in_place}
use nettverk.Io.{Io, Effect, send_udp}
use nettverk.Secp.{build_secp_line, invite, chat, max_chat_message_bytes}
use nettverk.Users.{UserDirectory, find_address}
use nettverk.Direct.State.{
  DirectMessageService, report, make_unicast_dest, make_session_id, closed_to, is_active,
}
use nettverk.UdpSocket.{send_to}
use nettverk.Direct.Commands.{
  outgoing_session, send_invite, invite_at, is_bad_target, invite_user, accept_invite,
  decline_invite, send_chat_to, send_private_chat,
}
use nettverk.Direct.Upkeep.{
  report_all, prune_pending, resend_one, resend_all, resend_outgoing_pending, ToSend,
}
use nettverk.Program.Traffic.{traffic, Voice, Admits, Admits-same, speaks}

-- A call keeps the name and adds nothing to the traffic.
abbrev pub Mute : DirectMessageService → Io → DirectMessageService → Io → Type 0
Mute d io d' io' = (d'.self_username ≡ d.self_username) × (traffic io'.out ≡ traffic io.out)

report_silent :
    (d : DirectMessageService) (msg : Bytes) (io : Io)
    → traffic (report d msg io).out ≡ traffic io.out
unfolding report traffic
report_silent d msg io = ground arith

report_all_silent :
    (d : DirectMessageService) (text : Bytes) (sids : List Bytes) (io : Io)
    → traffic (report_all d text sids io).out ≡ traffic io.out
unfolding report_all
report_all_silent d text [] io = refl
report_all_silent d text (sid ∷ sids) io =
    report_all_silent d text sids _ ∙ report_silent d (text ++ sid) io

pub prune-Mute :
    (d : DirectMessageService) (now max_age : ℕ) (io : Io)
    → let r = prune_pending d now max_age io in Mute d io r.0 r.1
unfolding prune_pending
prune-Mute d now max_age io = (refl, search report_all_silent)

pub accept-Mute :
    (d : DirectMessageService) (sid : Bytes) (now : ℕ) (io : Io)
    → let r = accept_invite d sid now io in Mute d io r.0 r.1
unfolding accept_invite report traffic
accept-Mute d sid now io = ground arith

pub decline-Mute :
    (d : DirectMessageService) (sid reason : Bytes) (io : Io)
    → let r = decline_invite d sid reason io in Mute d io r.0 r.1
unfolding decline_invite report traffic
decline-Mute d sid reason io = ground arith

-- The name is `u`, and the traffic is admitted.
abbrev pub Says : Bytes → (Effect → Type 0) → DirectMessageService → Io → Type 0
Says u Q d io = (d.self_username ≡ u) × Admits Q io.out

pub Mute-Says :
    (u : Bytes) (Q : Effect → Type 0) (d : DirectMessageService) (io : Io)
    (d' : DirectMessageService) (io' : Io)
    → Mute d io d' io'
    → Says u Q d io
    → Says u Q d' io'
Mute-Says u Q d io d' io' (n, e) (n', h) = (n ∙ n', Admits-same Q io.out io'.out e h)

-- `Says` of a result.
data Spoken (u : Bytes) (Q : Effect → Type 0) {B : Type 0} (r : DirectMessageService × Io × B)
    : Type 0 where
  spoken : Says u Q r.0 r.1 → Spoken u Q r

module _ (T : Bytes → Type 0) (u : Bytes) (Q : Effect → Type 0) (v : Voice T u Q) (os : Os) where
  resend_one-Admits :
      (d : DirectMessageService) (t : ToSend) (io : Io)
      → Says u Q d io
      → Admits Q (resend_one os d t io).out
  unfolding resend_one send_udp traffic
  resend_one-Admits d t io (n, h) =
      elim (Bool-cases (
        is_empty
          (build_secp_line invite t.session_id d.self_username (closed_to ++ t.peer_username)))) [
            | inl b ↦ rw b h
            | inr b ↦ rw b (
              speaks T u Q v d.self_username invite t.session_id (closed_to ++ t.peer_username) _ _
                  _ n b (λ e. absurd (cc)),
              h,
            )
          ]

  resend_all-Admits :
      (d : DirectMessageService) (ts : List ToSend) (io : Io)
      → Says u Q d io
      → Admits Q (resend_all os d ts io).out
  unfolding resend_all
  resend_all-Admits d [] io h = h.1
  resend_all-Admits d (t ∷ ts) io h =
      resend_all-Admits d ts (resend_one os d t io) (h.0, resend_one-Admits d t io h)

  report_resend-Admits :
      (d : DirectMessageService) (text : Bytes) (sids : List Bytes) (ts : List ToSend) (io : Io)
      → d.self_username ≡ u
      → Admits Q io.out
      → Admits Q (report_all d text sids (resend_all os d ts io)).out
  report_resend-Admits d text sids ts io n h =
      Admits-same Q _ _ (report_all_silent d text sids (resend_all os d ts io))
        (resend_all-Admits d ts io (n, h))

  pub resend-Says :
      (d : DirectMessageService) (now min_interval max_age : ℕ) (io : Io)
      → Says u Q d io
      → let r = resend_outgoing_pending os d now min_interval max_age io in Says u Q r.0 r.1
  unfolding resend_outgoing_pending
  resend-Says d now min_interval max_age io (n, h) = elim (Bool-cases d.socket) [
    | inl e ↦ rw e (n, search (report_resend-Admits, n, h))
    | inr e ↦ rw e (n, h)
  ]

  send_invite-Admits :
      (d : DirectMessageService) (sid target : Bytes) (dest : SockAddr) (io : Io)
      → Says u Q d io
      → Admits Q (send_invite os d sid target dest io).0.out
  unfolding send_invite send_udp report traffic
  send_invite-Admits d sid target dest io (n, h) =
      let line = build_secp_line invite sid d.self_username (closed_to ++ target) in
      elim (Bool-cases (is_empty line)) [
        | inl b ↦ rw b h
        | inr b ↦ rw b (
            let said = speaks T u Q v d.self_username invite sid (closed_to ++ target) in
            let q =
              said io.udp.fd dest (send_to os io.calls io.udp line dest).1 n b (λ e. absurd (cc)) in
            ground arith)
      ]

  invite_at-Spoken :
      (d : DirectMessageService) (sid target : Bytes) (dest : SockAddr) (now : ℕ) (io : Io)
      → Says u Q d io
      → Spoken u Q (invite_at os d sid target dest now io)
  unfolding invite_at
  invite_at-Spoken d sid target dest now io (n, h) =
      if_holds (Spoken u Q) (contains sid d.sessions) (spoken (n, h)) (
        let d' = record d {
          sessions = insert sid (outgoing_session sid target dest now) d.sessions;
        } in
        spoken (n, send_invite-Admits d' sid target dest io (n, h)))

  invite-Spoken :
      (users : UserDirectory) (d : DirectMessageService) (who : Bytes) (random now : ℕ) (io : Io)
      → Says u Q d io
      → Spoken u Q (invite_user os users d who random now io)
  unfolding invite_user
  invite-Spoken users d who random now io h =
      let target = trim_in_place who in
      if_holds (Spoken u Q) (not d.socket || not d.users) (spoken h) (
        if_holds (Spoken u Q) (is_bad_target d target) (spoken h) (
          option_holds (Spoken u Q) (find_address users target)
            (spoken (h.0, Admits-same Q io.out _ (report_silent d _ io) h.1))
            (λ addr.
              invite_at-Spoken d (make_session_id random) target
                (make_unicast_dest os addr udp_port) now io h)))

  pub invite-Says :
      (users : UserDirectory) (d : DirectMessageService) (who : Bytes) (random now : ℕ) (io : Io)
      → Says u Q d io
      → let r = invite_user os users d who random now io in Says u Q r.0 r.1
  invite-Says users d who random now io h = elim (invite-Spoken users d who random now io h) [
    | spoken k ↦ k
  ]

  chat_to-Admits :
      (d : DirectMessageService) (sid msg : Bytes) (peer : SockAddr) (io : Io)
      → Says u Q d io
      → T msg
      → Admits Q (send_chat_to os d sid msg peer io).0.out
  unfolding send_chat_to send_udp traffic
  chat_to-Admits d sid msg peer io (n, h) typed =
      elim (Bool-cases (is_empty (build_secp_line chat sid d.self_username msg))) [
        | inl b ↦ rw b h
        | inr b ↦ rw b (speaks T u Q v d.self_username chat sid msg _ _ _ n b (λ e. typed), h)
      ]

  pub private_chat-Admits :
      (d : DirectMessageService) (sid text : Bytes) (io : Io)
      → Says u Q d io
      → T (trim_in_place text)
      → Admits Q (send_private_chat os d sid text io).0.out
  unfolding send_private_chat
  private_chat-Admits d sid text io (n, h) typed =
      let P = λ (r : Io × Bool). Admits Q r.0.out in
      let id = trim_in_place sid in
      let msg = trim_in_place text in
      if_holds P (not d.socket) {x = (io, false)} h (
        if_holds P (ltb 32 (length id)) {x = (io, false)} h (
          if_holds P (is_empty id || is_empty msg || ltb max_chat_message_bytes (length msg))
            {x = (io, false)} h
            (option_holds P (find id d.sessions) {x = (io, false)} h (λ s.
              if_holds P (not (is_active s.state)) {x = (io, false)} h
                (chat_to-Admits d id msg s.peer_addr io (n, h) typed)))))

module _ (u : Bytes) (Q : Effect → Type 0) (d : DirectMessageService) (io : Io)
    (h : Says u Q d io) where
  pub prune-Says : (now max_age : ℕ) → let r = prune_pending d now max_age io in Says u Q r.0 r.1
  prune-Says now max_age =
      let r = prune_pending d now max_age io in
      Mute-Says u Q d io r.0 r.1 (prune-Mute d now max_age io) h

  pub accept-Says : (sid : Bytes) (now : ℕ) → let r = accept_invite d sid now io in Says u Q r.0 r.1
  accept-Says sid now =
      let r = accept_invite d sid now io in Mute-Says u Q d io r.0 r.1 (accept-Mute d sid now io) h

  pub decline-Says :
      (sid reason : Bytes) → let r = decline_invite d sid reason io in Says u Q r.0 r.1
  decline-Says sid reason =
      let r = decline_invite d sid reason io in
      Mute-Says u Q d io r.0 r.1 (decline-Mute d sid reason io) h
