-- ===== src/Direct/Resent.antt =====
-- What resend_outgoing_pending of DirectMessageService does to a session, by its state and its times.
mod Lines
use nettverk.Prelude.{
  ℕ, ◌+◌, ◌*◌, ◌<◌, ◌≤◌, ◌≡◌, ◌≢◌, ◌⊎◌, refl, ap, sym, subst, ◌∙◌, true, false, Bool, not, ◌&&◌,
  Option, none, some, List, Bytes, utf8, find, UniqueKeys, inl, inr, arith, if◌then◌else◌, ltb,
  ◌==◌,
}
use nettverk.Net.{Os}
use nettverk.Io.{Io, Effect}
use nettverk.Direct.State.{
  Session, DirectMessageService, DirectSessionState, outgoing_pending, incoming_pending, active,
  is_outgoing,
}
use nettverk.Direct.Upkeep.{
  resend_step, ResendStep, skip, expire, wait, again, is_expire, touched, to_resend, resend_all,
  keys_where, erase_all, touch_all, report_all, resend_outgoing_pending,
}
use nettverk.Direct.Expiry.{after_resend, find-resend_outgoing_pending}
use nettverk.Direct.Overdue.{second, millisecond}
use nettverk.Direct.Resent.Lines.{
  WentOut, WentOut-keeps, report_all_keeps, resend_all_sends, to_resend_has,
}

-- An invitation that was sent out for the first time more than `max_age` seconds ago.
abbrev pub HasExpired : ℕ → ℕ → Session → Type 0
HasExpired now max_age s =
    (s.state ≡ outgoing_pending) × (s.created_at ≢ 0) × (s.created_at + max_age * second < now)

-- An invitation that was sent out and has not expired.
abbrev pub IsAwaited : ℕ → ℕ → Session → Type 0
IsAwaited now max_age s =
    (s.state ≡ outgoing_pending) × ((s.created_at ≡ 0) ⊎ (now ≤ s.created_at + max_age * second))

-- Its last line went out less than `min_interval` milliseconds ago.
abbrev pub IsRecent : ℕ → ℕ → Session → Type 0
IsRecent now min_interval s = (s.last_sent ≢ 0) × (now < s.last_sent + min_interval * millisecond)

-- No line went out yet, or the last one at least `min_interval` milliseconds ago.
abbrev pub IsDue : ℕ → ℕ → Session → Type 0
IsDue now min_interval s = (s.last_sent ≡ 0) ⊎ (s.last_sent + min_interval * millisecond ≤ now)

-- The branch that each invitation and each other session takes.
abbrev Taken : ℕ → ℕ → ℕ → Session → ResendStep → Type 0
Taken now min_interval max_age s skip = s.state ≢ outgoing_pending
Taken now min_interval max_age s expire = HasExpired now max_age s
Taken now min_interval max_age s wait = IsAwaited now max_age s × IsRecent now min_interval s
Taken now min_interval max_age s again = IsAwaited now max_age s × IsDue now min_interval s

out_or_not :
    (t : DirectSessionState)
    → ((is_outgoing t ≡ true) × (t ≡ outgoing_pending))
      ⊎ ((is_outgoing t ≡ false) × (t ≢ outgoing_pending))
out_or_not outgoing_pending = inl (refl, refl)
out_or_not incoming_pending = inr (refl, λ e. absurd (cc))
out_or_not active = inr (refl, λ e. absurd (cc))

-- A test `t != 0 && passed`.
since_cases :
    (t : ℕ) (b : Bool)
    → (((not (t == 0) && b) ≡ true) × (t ≢ 0) × (b ≡ true))
      ⊎ (((not (t == 0) && b) ≡ false) × ((t ≡ 0) ⊎ (b ≡ false)))
since_cases t b = ground arith

at_most : {P : Type 0} (a now : ℕ) → P ⊎ (ltb a now ≡ false) → P ⊎ (now ≤ a)
at_most a now (inl p) = inl p
at_most a now (inr e) = inr (ground arith)

not_before : {P : Type 0} (now a : ℕ) → P ⊎ (ltb now a ≡ false) → P ⊎ (a ≤ now)
not_before now a (inl p) = inl p
not_before now a (inr e) = inr (ground arith)

step-Taken :
    (now min_interval max_age : ℕ) (s : Session)
    → Taken now min_interval max_age s (resend_step now min_interval max_age s)
unfolding resend_step
step-Taken now min_interval max_age s = elim (out_or_not s.state) [
  | inr (e, other) ↦ rw e other
  | inl (e, out) ↦ elim (since_cases s.created_at (ltb (s.created_at + max_age * second) now)) [
    | inl (f, began, old) ↦ rw (e, f) (out, began, ground arith)
    | inr (f, young) ↦
        elim (since_cases s.last_sent (ltb now (s.last_sent + min_interval * millisecond))) [
          | inl (g, sent, recent) ↦ rw (e, f, g) ((out, at_most _ now young), (sent, ground arith))
          | inr (g, due) ↦ rw (e, f, g) ((out, at_most _ now young), not_before now _ due)
        ]
  ]
]

-- What one call has left of a session, in each of the four branches.
abbrev pub Resent :
    DirectMessageService → ℕ → ℕ → ℕ → Bytes → Session → Option Session → List Effect → Type 0
Resent d now min_interval max_age j s found out =
    ((s.state ≢ outgoing_pending) × (found ≡ some s))
    ⊎ ((HasExpired now max_age s × (found ≡ none))
        ⊎ ((IsAwaited now max_age s × IsRecent now min_interval s × (found ≡ some s))
            ⊎ (IsAwaited now max_age s
                × IsDue now min_interval s
                × (found ≡ some (record s { last_sent = now; last_update = now }))
                × WentOut d j s out)))

Resent-Taken :
    (d : DirectMessageService) (now min_interval max_age : ℕ) (j : Bytes) (s : Session)
    (step : ResendStep) (found : Option Session) (out : List Effect)
    → Taken now min_interval max_age s step
    → found ≡ (if is_expire step then none else some (touched now step s))
    → (step ≡ again → WentOut d j s out)
    → Resent d now min_interval max_age j s found out
Resent-Taken d now min_interval max_age j s skip found out t e w = inl (t, e)
Resent-Taken d now min_interval max_age j s expire found out t e w = inr (inl (t, e))
Resent-Taken d now min_interval max_age j s wait found out (a, r) e w = inr (inr (inl (a, r, e)))
Resent-Taken d now min_interval max_age j s again found out (a, u) e w =
    inr (inr (inr (a, u, e, w refl)))

line_out :
    (os : Os) (d : DirectMessageService) (now min_interval max_age : ℕ) (io : Io) (j : Bytes)
    (s : Session)
    → d.socket ≡ true
    → find j d.sessions ≡ some s
    → resend_step now min_interval max_age s ≡ again
    → WentOut d j s (resend_outgoing_pending os d now min_interval max_age io).1.out
unfolding resend_outgoing_pending
line_out os d now min_interval max_age io j s socket e a =
    let step = resend_step now min_interval max_age in
    let expired = keys_where (λ x. is_expire (step x)) d.sessions in
    let d' = record d { sessions = erase_all expired (touch_all now step d.sessions) } in
    let text = utf8 "Invitasjon utløpt (ingen svar): " in
    let io' = resend_all os d' (to_resend step d.sessions) io in
    let sent =
      WentOut-keeps d' j s io'.out (report_all d' text expired io').out
        (λ x i. report_all_keeps d' text expired io' x i)
        (resend_all_sends os d' j s (to_resend step d.sessions) io
          (to_resend_has step j s d.sessions e a)) in
    subst
      (λ b.
        WentOut d j s
          (if◌then◌else◌ {A = DirectMessageService × Io} (not b) (d, io)
            (d', report_all d' text expired io')).1.out)
      (sym socket) sent

-- A session under distinct names, and a socket. `resend_outgoing_pending` leaves it as it was where it
-- is not an invitation that was sent out. It drops the invitation where its first line went out more
-- than `max_age` seconds of 10^9 nanoseconds ago, and leaves it where its last line went out less
-- than `min_interval` milliseconds of 10^6 nanoseconds ago. In every other case it sends the line of
-- the invitation to the peer, if the protocol accepts it, and puts down the time as that of the last
-- line and of the last update.
pub resend_outgoing_pending_cases :
    (os : Os) (d : DirectMessageService) (now min_interval max_age : ℕ) (io : Io) (j : Bytes)
    (s : Session)
    → d.socket ≡ true
    → UniqueKeys d.sessions
    → find j d.sessions ≡ some s
    → let r = resend_outgoing_pending os d now min_interval max_age io in
      Resent d now min_interval max_age j s (find j r.0.sessions) r.1.out
resend_outgoing_pending_cases os d now min_interval max_age io j s socket u e =
    let step = resend_step now min_interval max_age in
    Resent-Taken d now min_interval max_age j s (step s) _ _ (step-Taken now min_interval max_age s)
      (find-resend_outgoing_pending os d now min_interval max_age io j socket u
        ∙ ap (after_resend now step) e)
      (line_out os d now min_interval max_age io j s socket e)
