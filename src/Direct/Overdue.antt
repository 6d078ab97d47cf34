-- ===== src/Direct/Overdue.antt =====
-- What prune_pending of DirectMessageService does to a session, by its state and its last update.
use nettverk.Prelude.{
  ℕ, ◌+◌, ◌*◌, ◌<◌, ◌≤◌, ◌≡◌, ◌⊎◌, refl, ◌∙◌, true, false, ◌||◌, ◌&&◌, none, some, Bytes, find,
  UniqueKeys, Bool-cases, inl, inr, arith, ltb,
}
use nettverk.Io.{Io}
use nettverk.Direct.State.{
  Session, DirectMessageService, DirectSessionState, outgoing_pending, incoming_pending, active,
  is_outgoing, is_incoming,
}
use nettverk.Direct.Upkeep.{prune_pending}
use nettverk.Direct.Expiry.{find-prune_pending}

-- A second has so many nanoseconds, and a millisecond so many.
abbrev pub second : ℕ
second = 1000000000

abbrev pub millisecond : ℕ
millisecond = 1000000

-- The session waits for an answer, and nothing has touched it for more than `max_age` seconds.
abbrev pub IsOverdue : ℕ → ℕ → Session → Type 0
IsOverdue now max_age s =
    ((s.state ≡ incoming_pending) ⊎ (s.state ≡ outgoing_pending))
    × (s.last_update + max_age * second < now)

-- The session is active, or was touched at most `max_age` seconds ago.
abbrev pub IsFresh : ℕ → ℕ → Session → Type 0
IsFresh now max_age s = (s.state ≡ active) ⊎ (now ≤ s.last_update + max_age * second)

stale_cases :
    (now max_age : ℕ) (t : DirectSessionState) (updated : ℕ)
    → let stale = (is_incoming t || is_outgoing t) && ltb (updated + max_age * second) now in
      ((stale ≡ true)
        × (((t ≡ incoming_pending) ⊎ (t ≡ outgoing_pending)) × (updated + max_age * second < now)))
      ⊎ ((stale ≡ false) × ((t ≡ active) ⊎ (now ≤ updated + max_age * second)))
stale_cases now max_age active updated = inr (refl, inl refl)
stale_cases now max_age incoming_pending updated =
    elim (Bool-cases (ltb (updated + max_age * second) now)) [
      | inl e ↦ inl (e, (inl refl, ground arith))
      | inr e ↦ inr (e, inr (ground arith))
    ]
stale_cases now max_age outgoing_pending updated =
    elim (Bool-cases (ltb (updated + max_age * second) now)) [
      | inl e ↦ inl (e, (inr refl, ground arith))
      | inr e ↦ inr (e, inr (ground arith))
    ]

-- A session under distinct names: `prune_pending` drops it where it waits for an answer and its last
-- update lies more than `max_age` seconds of 10^9 nanoseconds back. Else, where it is active or was
-- updated since, it is as it was.
pub prune_pending_cases :
    (d : DirectMessageService) (now max_age : ℕ) (io : Io) (j : Bytes) (s : Session)
    → UniqueKeys d.sessions
    → find j d.sessions ≡ some s
    → let found = find j (prune_pending d now max_age io).0.sessions in
      (IsOverdue now max_age s × (found ≡ none)) ⊎ (IsFresh now max_age s × (found ≡ some s))
prune_pending_cases d now max_age io j s u e =
    let p = find-prune_pending d now max_age io j u in
    elim (stale_cases now max_age s.state s.last_update) [
      | inl (stale, old) ↦ inl (old, p ∙ rw (e, stale) refl)
      | inr (stale, new) ↦ inr (new, p ∙ rw (e, stale) refl)
    ]
