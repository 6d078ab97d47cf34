-- ===== src/Direct/Resent/Lines.antt =====
-- The lines that resend_outgoing_pending of DirectMessageService sends.
use nettverk.Prelude.{
  ◌≡◌, ◌⊎◌, refl, ap, sym, subst, ◌∙◌, true, Bool, Option, some, List, [], ◌∷◌, ◌++◌, Bytes, Dict,
  find, bytes_eq, bytes_eq_iff, Bool-cases, inl, inr, is_empty, In, ℤ,
}
use nettverk.Net.{Os}
use nettverk.Io.{Io, Effect, send, send_udp}
use nettverk.Secp.{invite, build_secp_line}
use nettverk.Direct.State.{Session, DirectMessageService, report, closed_to}
use nettverk.Direct.Upkeep.{
  ResendStep, again, is_again, to_resend, ToSend, resend_one, resend_all, report_all,
}

-- The line of an invitation.
abbrev pub invitation_line : DirectMessageService → Bytes → Session → Bytes
invitation_line d sid s = build_secp_line invite sid d.self_username (closed_to ++ s.peer_username)

-- The invitation could not be written as a line, or the line went out to the peer on a socket.
abbrev pub WentOut : DirectMessageService → Bytes → Session → List Effect → Type 0
WentOut d sid s out =
    (is_empty (invitation_line d sid s) ≡ true)
    ⊎ ((fd : ℤ) × (ok : Bool) × In (send fd (invitation_line d sid s) s.peer_addr ok) out)

resend_one_keeps :
    (os : Os) (d : DirectMessageService) (t : ToSend) (io : Io) (e : Effect)
    → In e io.out
    → In e (resend_one os d t io).out
unfolding resend_one send_udp
resend_one_keeps os d t io e i =
    let line = build_secp_line invite t.session_id d.self_username (closed_to ++ t.peer_username) in
    elim (Bool-cases (is_empty line)) [
      | inl none_built ↦ rw none_built (inr i)
      | inr built ↦ rw built (inr (inr i))
    ]

resend_all_keeps :
    (os : Os) (d : DirectMessageService) (ts : List ToSend) (io : Io) (e : Effect)
    → In e io.out
    → In e (resend_all os d ts io).out
unfolding resend_all
resend_all_keeps os d [] io e i = i
resend_all_keeps os d (t ∷ ts) io e i =
    resend_all_keeps os d ts (resend_one os d t io) e (resend_one_keeps os d t io e i)

pub report_all_keeps :
    (d : DirectMessageService) (text : Bytes) (sids : List Bytes) (io : Io) (e : Effect)
    → In e io.out
    → In e (report_all d text sids io).out
unfolding report_all report
report_all_keeps d text [] io e i = i
report_all_keeps d text (sid ∷ sids) io e i =
    report_all_keeps d text sids (report d (text ++ sid) io) e (elim (Bool-cases d.on_status) [
      | inl set ↦ unfold report in rw set (inr i)
      | inr unset ↦ unfold report in rw unset i
    ])

-- What is to be sent for a session.
abbrev entry_of : Bytes → Session → ToSend
entry_of sid s = record { session_id = sid; peer_username = s.peer_username; dest = s.peer_addr }

resend_one_sends :
    (os : Os) (d : DirectMessageService) (sid : Bytes) (s : Session) (io : Io)
    → WentOut d sid s (resend_one os d (entry_of sid s) io).out
unfolding resend_one send_udp
resend_one_sends os d sid s io = elim (Bool-cases (is_empty (invitation_line d sid s))) [
  | inl none_built ↦ inl none_built
  | inr built ↦ rw built (inr (_, _, inr (inl refl)))
]

pub WentOut-keeps :
    (d : DirectMessageService) (sid : Bytes) (s : Session) (out out' : List Effect)
    → ((e : Effect) → In e out → In e out')
    → WentOut d sid s out
    → WentOut d sid s out'
WentOut-keeps d sid s out out' keeps (inl none_built) = inl none_built
WentOut-keeps d sid s out out' keeps (inr (fd, ok, i)) = inr (fd, ok, keeps _ i)

pub resend_all_sends :
    (os : Os) (d : DirectMessageService) (sid : Bytes) (s : Session) (ts : List ToSend) (io : Io)
    → In (entry_of sid s) ts
    → WentOut d sid s (resend_all os d ts io).out
unfolding resend_all
resend_all_sends os d sid s [] io i = elim i [ ]
resend_all_sends os d sid s (t ∷ ts) io (inl e) =
    WentOut-keeps d sid s _ _ (λ x i. resend_all_keeps os d ts (resend_one os d t io) x i)
      (subst (λ u. WentOut d sid s (resend_one os d u io).out) e (resend_one_sends os d sid s io))
resend_all_sends os d sid s (t ∷ ts) io (inr i) =
    resend_all_sends os d sid s ts (resend_one os d t io) i

pub to_resend_has :
    (step : Session → ResendStep) (j : Bytes) (s : Session) (m : Dict Session)
    → find j m ≡ some s
    → step s ≡ again
    → In (entry_of j s) (to_resend step m)
unfolding to_resend find
to_resend_has step j s [] e a = absurd (cc)
to_resend_has step j s ((k, r) ∷ m) e a = elim (Bool-cases (bytes_eq k j)) [
  | inl same ↦
      let named : k ≡ j = (bytes_eq_iff k j).0 same in
      let found : find j ((k, r) ∷ m) ≡ some r = rw same refl in
      let here : ◌≡◌ {A = Option Session} (some r) (some s) = sym found ∙ e in
      let it : r ≡ s = cc in
      rw (ap step it ∙ a) (inl (ap (λ x. entry_of x s) (sym named) ∙ ap (entry_of k) (sym it)))
  | inr other ↦
      let passed : find j ((k, r) ∷ m) ≡ find j m = rw other refl in
      let later = to_resend_has step j s m (sym passed ∙ e) a in
      elim (Bool-cases (is_again (step r))) [ inl y ↦ rw y (inr later) | inr n ↦ rw n later ]
]
