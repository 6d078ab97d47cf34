-- ===== src/Direct/Expiry.antt =====
-- The heartbeat's calls on DirectMessageService, session by session.
use nettverk.Prelude.{
  ℕ, ◌≡◌, refl, ap, ◌∙◌, true, false, Bool, ◌||◌, Option, none, some, List, [], ◌∷◌, Bytes, Dict,
  find, erase, bytes_eq, bytes_eq_iff, find-erase, UniqueKeys, erase-UniqueKeys, Bool-cases, inl,
  inr, arith, if◌then◌else◌,
}
use nettverk.Net.{Os}
use nettverk.Io.{Io}
use nettverk.Direct.State.{Session, DirectMessageService}
use nettverk.Direct.Upkeep.{
  keys_where, erase_all, touch_all, touched, resend_step, ResendStep, is_expire, is_stale,
  prune_pending, resend_outgoing_pending,
}

abbrev listed : Bytes → List Bytes → Bool
listed j [] = false
listed j (k ∷ ks) = bytes_eq k j || listed j ks

erase_all-UniqueKeys :
    (ks : List Bytes) (m : Dict Session) → UniqueKeys m → UniqueKeys (erase_all ks m)
unfolding erase_all
erase_all-UniqueKeys [] m u = u
erase_all-UniqueKeys (k ∷ ks) m u = erase_all-UniqueKeys ks (erase k m) (erase-UniqueKeys k m u)

find-erase_all :
    (ks : List Bytes) (j : Bytes) (m : Dict Session)
    → UniqueKeys m
    → find j (erase_all ks m) ≡ (if listed j ks then none else find j m)
unfolding erase_all
find-erase_all [] j m u = refl
find-erase_all (k ∷ ks) j m u =
    ground (arith, find-erase_all ks j (erase k m) (erase-UniqueKeys k m u), find-erase k j m u)

module _ (test : Session → Bool) where
  abbrev found_with : Option Session → Bool
  found_with none = false
  found_with (some s) = test s

  listed-keys_where_absent :
      (j : Bytes) (m : Dict Session) → find j m ≡ none → listed j (keys_where test m) ≡ false
  unfolding keys_where find
  listed-keys_where_absent j [] h = refl
  listed-keys_where_absent j ((k, s) ∷ m) h = ground (arith, listed-keys_where_absent j m)

  listed-keys_where :
      (j : Bytes) (m : Dict Session)
      → UniqueKeys m
      → listed j (keys_where test m) ≡ found_with (find j m)
  unfolding keys_where find
  listed-keys_where j [] u = refl
  listed-keys_where j ((k, s) ∷ m) u =
      ground (arith, bytes_eq_iff k j, listed-keys_where j m u.1, listed-keys_where_absent k m u.0)

module _ (now : ℕ) (step : Session → ResendStep) where
  abbrev touch_found : Option Session → Option Session
  touch_found none = none
  touch_found (some s) = some (touched now (step s) s)

  find-touch_all :
      (j : Bytes) (m : Dict Session) → find j (touch_all now step m) ≡ touch_found (find j m)
  unfolding touch_all find
  find-touch_all j [] = refl
  find-touch_all j ((k, s) ∷ m) = ground (arith, find-touch_all j m)

  touch_all-UniqueKeys : (m : Dict Session) → UniqueKeys m → UniqueKeys (touch_all now step m)
  unfolding touch_all
  touch_all-UniqueKeys [] u = tt
  touch_all-UniqueKeys ((k, s) ∷ m) u =
      (find-touch_all k m ∙ ap touch_found u.0, touch_all-UniqueKeys m u.1)

-- What `prune_pending` leaves of a session.
abbrev pub after_prune : ℕ → ℕ → Option Session → Option Session
after_prune now max_age none = none
after_prune now max_age (some s) = if is_stale now max_age s then none else some s

-- On sessions under distinct names, `prune_pending` drops exactly those that are pending and have
-- been left alone for longer than `max_age`, and leaves the others as they were.
pub find-prune_pending :
    (d : DirectMessageService) (now max_age : ℕ) (io : Io) (j : Bytes)
    → UniqueKeys d.sessions
    → find j (prune_pending d now max_age io).0.sessions
      ≡ after_prune now max_age (find j d.sessions)
unfolding prune_pending
find-prune_pending d now max_age io j u = ground (
  arith,
  find-erase_all (keys_where (is_stale now max_age) d.sessions) j d.sessions u,
  listed-keys_where (is_stale now max_age) j d.sessions u,
)

-- What `resend_outgoing_pending` leaves of a session: an invitation that is too old goes, one that
-- is due is stamped, and all else stays.
abbrev pub after_resend : ℕ → (Session → ResendStep) → Option Session → Option Session
after_resend now step none = none
after_resend now step (some s) = if is_expire (step s) then none else some (touched now (step s) s)

joined :
    (now : ℕ) (step : Session → ResendStep) (o : Option Session)
    → (if found_with (λ s. is_expire (step s)) o then none else touch_found now step o)
      ≡ after_resend now step o
joined now step none = refl
joined now step (some s) = refl

-- On sessions under distinct names and with a socket, `resend_outgoing_pending` drops an invitation
-- that was sent out too long ago, stamps one that is due, and leaves every other session as it was.
pub find-resend_outgoing_pending :
    (os : Os) (d : DirectMessageService) (now min_interval max_age : ℕ) (io : Io) (j : Bytes)
    → d.socket ≡ true
    → UniqueKeys d.sessions
    → find j (resend_outgoing_pending os d now min_interval max_age io).0.sessions
      ≡ after_resend now (resend_step now min_interval max_age) (find j d.sessions)
unfolding resend_outgoing_pending
find-resend_outgoing_pending os d now min_interval max_age io j socket u =
    let step = resend_step now min_interval max_age in
    let expired = λ (s : Session). is_expire (step s) in
    rw
      (
        socket,
        find-erase_all (keys_where expired d.sessions) j (touch_all now step d.sessions)
            (touch_all-UniqueKeys now step d.sessions u),
        find-touch_all now step j d.sessions,
        listed-keys_where expired j d.sessions u,
      )
      (joined now step (find j d.sessions))

pub prune_pending-UniqueKeys :
    (d : DirectMessageService) (now max_age : ℕ) (io : Io)
    → UniqueKeys d.sessions
    → UniqueKeys (prune_pending d now max_age io).0.sessions
unfolding prune_pending
prune_pending-UniqueKeys d now max_age io u =
    erase_all-UniqueKeys (keys_where (is_stale now max_age) d.sessions) d.sessions u

pub resend_outgoing_pending-UniqueKeys :
    (os : Os) (d : DirectMessageService) (now min_interval max_age : ℕ) (io : Io)
    → UniqueKeys d.sessions
    → UniqueKeys (resend_outgoing_pending os d now min_interval max_age io).0.sessions
unfolding resend_outgoing_pending
resend_outgoing_pending-UniqueKeys os d now min_interval max_age io u = elim (Bool-cases d.socket) [
  | inr e ↦ rw e u
  | inl e ↦ rw e (
      erase_all-UniqueKeys
        (keys_where (λ s. is_expire (resend_step now min_interval max_age s)) d.sessions) _
        (touch_all-UniqueKeys now (resend_step now min_interval max_age) d.sessions u))
]

-- Without a socket nothing is done.
pub resend_unbound :
    (os : Os) (d : DirectMessageService) (now min_interval max_age : ℕ) (io : Io)
    → d.socket ≡ false
    → resend_outgoing_pending os d now min_interval max_age io ≡ (d, io)
unfolding resend_outgoing_pending
resend_unbound os d now min_interval max_age io e = rw e
