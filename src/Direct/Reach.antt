-- ===== src/Direct/Reach.antt =====
-- DirectMessageService over any sequence of calls.
use nettverk.Prelude.{
  ◌≡◌, ◌∙◌, Option, some, List, [], ◌∷◌, Bytes, find, UniqueKeys, arith, insert-UniqueKeys,
  erase-UniqueKeys, inl, inr, Bool-cases,
}
use nettverk.Net.{Os}
use nettverk.Io.{Io}
use nettverk.Direct.State.{
  Session, DirectMessageService, active, is_outgoing, make_session_id, make_unicast_dest,
}
use nettverk.Net.{udp_port}
use nettverk.Direct.Receive.{deliver}
use nettverk.Trim.{trim_in_place}
use nettverk.Direct.Cases.{
  accept_cases, decline_cases, invite_at_cases, invite_user_cases, on_invite_cases,
  on_room_chat_cases,
}
use nettverk.Direct.Expiry.{prune_pending-UniqueKeys, resend_outgoing_pending-UniqueKeys}
use nettverk.Direct.Steps.{
  Event, invites, accepts, declines, sends, invite_arrives, chat_arrives, prunes, resends, step,
  run, Move, stays, invited, notified, accepted, confirmed, resent, removed,
}
use nettverk.Direct.Moves.{step-Move}

-- No call stores a session under a name that another one has.
pub step-UniqueKeys :
    (os : Os) (d : DirectMessageService) (io : Io) (e : Event)
    → UniqueKeys d.sessions
    → UniqueKeys (step os (d, io) e).0.sessions
unfolding step
step-UniqueKeys os d io (invites users target random now) u =
    elim (invite_user_cases os users d target random now io) [
      | inl e ↦ rw e u
      | inr (addr, _, e) ↦
          rw e
            (elim (invite_at_cases os d (make_session_id random) (trim_in_place target)
              (make_unicast_dest os addr udp_port) now io) [
                | inl e' ↦ rw e' u
                | inr (_, e') ↦ rw e' (insert-UniqueKeys _ _ d.sessions u)
              ])
    ]
step-UniqueKeys os d io (accepts room now) u = elim (accept_cases d room now io) [
  | inl e ↦ rw e u
  | inr (s, _, _, e) ↦ rw e (insert-UniqueKeys _ _ d.sessions u)
]
step-UniqueKeys os d io (declines room reason) u = elim (decline_cases d room reason io) [
  | inl e ↦ rw e u
  | inr (s, _, _, e) ↦ rw e (erase-UniqueKeys _ d.sessions u)
]
step-UniqueKeys os d io (sends sid text) u = u
step-UniqueKeys os d io (invite_arrives msg from c t) u =
    elim (on_invite_cases os d msg from c t io) [
      | inl e ↦ rw e u
      | inr (_, _, e) ↦ rw e (insert-UniqueKeys _ _ d.sessions u)
    ]
step-UniqueKeys os d io (chat_arrives msg from now) u =
    elim (on_room_chat_cases os d msg from now io) [
      | inl e ↦ rw e u
      | inr (s, _, _, e) ↦ rw e (
          unfold deliver in
          elim (Bool-cases (is_outgoing s.state)) [
            | inl g ↦ rw g (insert-UniqueKeys _ _ d.sessions u)
            | inr g ↦ ground arith
          ])
    ]
step-UniqueKeys os d io (prunes now max_age) u = prune_pending-UniqueKeys d now max_age io u
step-UniqueKeys os d io (resends now min_interval max_age) u =
    resend_outgoing_pending-UniqueKeys os d now min_interval max_age io u

-- A move from an active session goes nowhere.
Move-active :
    {os : Os} {e : Event} {j : Bytes} {old new : Option Session} (s : Session)
    → old ≡ some s
    → s.state ≡ active
    → Move os e j old new
    → new ≡ some s
Move-active s o a (stays e) = e ∙ o
Move-active s o a (invited t e _ _) = cc
Move-active s o a (notified t e _ _) = cc
Move-active s o a (accepted t r e p _ _ _ _) = ground arith
Move-active s o a (confirmed t r e p _ _ _ _) = ground arith
Move-active s o a (resent t r e p _ _ _) = ground arith
Move-active s o a (removed t e p _) = ground arith

-- On sessions under distinct names, an active session is never changed or dropped, whatever calls
-- follow.
pub active_stays :
    (os : Os) (es : List Event) (d : DirectMessageService) (io : Io) (j : Bytes) (s : Session)
    → UniqueKeys d.sessions
    → find j d.sessions ≡ some s
    → s.state ≡ active
    → find j (run os (d, io) es).0.sessions ≡ some s
unfolding run
active_stays os [] d io j s u f a = f
active_stays os (e ∷ es) d io j s u f a =
    let (d', io') = step os (d, io) e in
    active_stays os es d' io' j s (step-UniqueKeys os d io e u)
      (Move-active s f a (step-Move os d io e j u)) a
