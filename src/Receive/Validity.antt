-- ===== src/Receive/Validity.antt =====
-- The receive loop keeps every service well formed, and takes part in no room.
use nettverk.Prelude.{
  ℕ, List, Bytes, UniqueKeys, Bool-cases, Option-cases, inl, inr, ◌||◌, is_empty, ltb, length,
}
use nettverk.Net.{SockAddr, Os}
use nettverk.Secp.{SecpType, presence, room_announce, invite, chat, unknown}
use nettverk.Users.{UserDirectory}
use nettverk.Users.Laws
use nettverk.Users.Laws.{upsert-IsValid, prune_stale-IsValid}
use nettverk.Discovery.{on_presence, prune_stale_peers, is_mismatch}
use nettverk.Groups.Membership
use nettverk.Groups.Reach.{announced-IsValid, swap-IsValid}
use nettverk.Direct.Reach.{step-UniqueKeys}
use nettverk.Direct.Steps.{step, invite_arrives, chat_arrives}
use nettverk.Receive.Keeps.{Keeps, loop_keeps}
use nettverk.Receive.{Services, dispatch_chat, dispatch, Polled, run_receive_multiplex_loop}

-- Each service is well formed.
pub record IsValid (s : Services) : Type 0 where
  pub users : Laws.IsValid s.users
  pub groups : Membership.IsValid s.groups
  pub direct : UniqueKeys s.direct.sessions

on_presence-IsValid :
    (os : Os) (d : UserDirectory) (now : ℕ) (u p : Bytes) (from : SockAddr)
    → Laws.IsValid d
    → Laws.IsValid (on_presence os d now u p from)
unfolding on_presence
on_presence-IsValid os d now u p from v = elim (Bool-cases (is_empty u || ltb 32 (length u))) [
  | inl h ↦ rw h v
  | inr h ↦ elim (Option-cases (os.inet_ntop from.ip)) [
    | inl e ↦ rw (h, e) v
    | inr (ip, e) ↦ elim (Bool-cases (is_mismatch p ip)) [
      | inl m ↦ rw (h, e, on_presence, m) v
      | inr m ↦ rw (h, e, on_presence, m) (upsert-IsValid d now u from v)
    ]
  ]
]

typed-IsValid :
    (os : Os) (s : Services) (t : SecpType) (r u p : Bytes) (from : SockAddr) (now later : ℕ)
    → IsValid s
    → IsValid
        (dispatch os s (record { type = t; room = r; username = u; payload = p }) from now later)
unfolding dispatch dispatch_chat
typed-IsValid os s presence r u p from now later v = record {
  users =
      unfold prune_stale_peers in
      prune_stale-IsValid _ later 18 (on_presence-IsValid os s.users now u p from v.users);
  groups = v.groups;
  direct = v.direct;
}
typed-IsValid os s room_announce r u p from now later v = record {
  users = v.users;
  groups = announced-IsValid s.groups _ now later v.groups;
  direct = v.direct;
}
typed-IsValid os s invite r u p from now later v = record {
  users = v.users;
  groups = v.groups;
  direct =
      unfold step in step-UniqueKeys os s.direct s.io (invite_arrives _ from now later) v.direct;
}
typed-IsValid os s chat r u p from now later v = record {
  users = v.users;
  groups = v.groups;
  direct = unfold step in step-UniqueKeys os s.direct _ (chat_arrives _ from now) v.direct;
}
typed-IsValid os s unknown r u p from now later v = v

IsValid-Keeps : (os : Os) → Keeps os IsValid
IsValid-Keeps os = record {
  logs = λ s l v. record { users = v.users; groups = v.groups; direct = v.direct };
  calls = λ s udp f v. record { users = v.users; groups = v.groups; direct = v.direct };
  takes = λ s sk sk' held v. record {
    users = v.users;
    groups = swap-IsValid s.groups sk sk' held v.groups;
    direct = v.direct;
  };
  handles = λ s msg from now later v.
      typed-IsValid os s msg.type msg.room msg.username msg.payload from now later v;
}

-- In any number of rounds, whatever is polled and received, the loop leaves a well-formed state well
-- formed: the directory, the coordinator of open rooms, and the private sessions.
pub loop-IsValid :
    (os : Os) (ps : List Polled) (s : Services)
    → IsValid s
    → IsValid (run_receive_multiplex_loop os ps s)
loop-IsValid os ps s v = loop_keeps os (IsValid-Keeps os) ps s v
