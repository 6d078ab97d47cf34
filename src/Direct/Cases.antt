-- ===== src/Direct/Cases.antt =====
-- What each call on DirectMessageService can come to: it changes no session, or it passes every
-- guard and writes one.
use nettverk.Prelude.{
  ℕ, ◌≡◌, subst, true, false, not, none, some, [], ◌∷◌, ◌++◌, Bytes, Dict, find, insert, erase,
  contains, bytes_eq, bytes_eq_iff, Bool-cases, Option-cases, inl, inr, arith, is_empty, ◌⊎◌, ◌||◌,
  ltb, length,
}
use nettverk.Net.{SockAddr, Os, udp_port}
use nettverk.Io.{Io}
use nettverk.Secp.{SecpMessage}
use nettverk.Trim.{trim_in_place}
use nettverk.Users.{UserDirectory, find_address}
use nettverk.Direct.State.{
  incoming_pending, active, is_incoming, Session, make_session_id, make_unicast_dest, closed_to,
  DirectMessageService,
}
use nettverk.Direct.Commands.{
  invite_at, invite_user, is_bad_target, accept_invite, decline_invite, outgoing_session,
}
use nettverk.Direct.Receive.{
  on_invite, on_room_chat, deliver, strip_prefix, is_incomplete, is_invite, is_chat, is_from_peer,
  incoming_session,
}

-- The cases of `accept_invite`: it refuses and changes nothing, or it activates the session.
pub accept_cases :
    (d : DirectMessageService) (room : Bytes) (now : ℕ) (io : Io)
    → ((accept_invite d room now io).0 ≡ d)
      ⊎ ((s : Session) × (find (trim_in_place room) d.sessions ≡ some s)
          × (s.state ≡ incoming_pending)
          × ((accept_invite d room now io).0 ≡ record d {
            sessions =
                insert
                  (trim_in_place room)
                  (record s { state = active; last_update = now })
                  d.sessions;
          }))
unfolding accept_invite
accept_cases d room now io = elim (Option-cases (find (trim_in_place room) d.sessions)) [
  | inl e ↦ inl (ground arith)
  | inr (s, e) ↦ elim (Bool-cases (is_incoming s.state)) [
    | inl p ↦
        elim (Bool-cases (is_empty (trim_in_place room) || ltb 32 (length (trim_in_place room)))) [
          | inl g ↦ inl (rw g)
          | inr g ↦ inr (s, e, ground arith, rw (g, e, accept_invite, p))
        ]
    | inr p ↦ inl (ground arith)
  ]
]

pub decline_cases :
    (d : DirectMessageService) (room reason : Bytes) (io : Io)
    → ((decline_invite d room reason io).0 ≡ d)
      ⊎ ((s : Session) × (find (trim_in_place room) d.sessions ≡ some s)
          × (s.state ≡ incoming_pending)
          × ((decline_invite d room reason io).0
              ≡ record d { sessions = erase (trim_in_place room) d.sessions }))
unfolding decline_invite
decline_cases d room reason io = elim (Option-cases (find (trim_in_place room) d.sessions)) [
  | inl e ↦ inl (ground arith)
  | inr (s, e) ↦ elim (Bool-cases (is_incoming s.state)) [
    | inl p ↦
        elim (Bool-cases (is_empty (trim_in_place room) || ltb 32 (length (trim_in_place room)))) [
          | inl g ↦ inl (rw g)
          | inr g ↦ inr (s, e, ground arith, rw (g, e, decline_invite, p))
        ]
    | inr p ↦ inl (ground arith)
  ]
]

absent_of_contains : (k : Bytes) (m : Dict Session) → contains k m ≡ false → find k m ≡ none
unfolding contains
absent_of_contains k m h = elim (Option-cases (find k m)) [ inl e ↦ e | inr (s, e) ↦ ground arith ]

-- `invite_at` refuses a name that is taken, and otherwise stores the session, whatever follows.
pub invite_at_cases :
    (os : Os) (d : DirectMessageService) (sid target : Bytes) (dest : SockAddr) (now : ℕ) (io : Io)
    → ((invite_at os d sid target dest now io).0 ≡ d)
      ⊎ ((find sid d.sessions ≡ none)
          × ((invite_at os d sid target dest now io).0 ≡ record d {
            sessions = insert sid (outgoing_session sid target dest now) d.sessions;
          }))
unfolding invite_at
invite_at_cases os d sid target dest now io = elim (Bool-cases (contains sid d.sessions)) [
  | inl e ↦ inl (rw e)
  | inr e ↦ inr (absent_of_contains sid d.sessions e, rw e)
]

-- `invite_user` changes nothing or goes on to `invite_at`.
pub invite_user_cases :
    (os : Os) (users : UserDirectory) (d : DirectMessageService) (target : Bytes) (random now : ℕ)
    (io : Io)
    → ((invite_user os users d target random now io).0 ≡ d)
      ⊎ ((addr : SockAddr) × (find_address users (trim_in_place target) ≡ some addr)
          × (invite_user os users d target random now io
              ≡ invite_at os d
                  (make_session_id random)
                  (trim_in_place target)
                  (make_unicast_dest os addr udp_port)
                  now
                  io))
unfolding invite_user
invite_user_cases os users d target random now io =
    elim (Option-cases (find_address users (trim_in_place target))) [
      | inl e ↦ inl (ground arith)
      | inr (addr, e) ↦ elim (Bool-cases (not d.socket || not d.users)) [
        | inl g ↦ inl (rw g)
        | inr g ↦ elim (Bool-cases (is_bad_target d (trim_in_place target))) [
          | inl h ↦ inl (rw (g, h))
          | inr h ↦ inr (addr, e, rw (g, h, e, invite_user))
        ]
      ]
    ]

strip_prefix_lem : (p s r : Bytes) → strip_prefix p s ≡ some r → s ≡ p ++ r
unfolding strip_prefix
strip_prefix_lem [] s r h = ground arith
strip_prefix_lem (c ∷ p) [] r h = absurd (cc)
strip_prefix_lem (c ∷ p) (x ∷ s) r h = ground (arith, strip_prefix_lem p s r)

-- The cases of `on_invite`.
pub on_invite_cases :
    (os : Os) (d : DirectMessageService) (msg : SecpMessage) (from : SockAddr) (c u : ℕ) (io : Io)
    → (on_invite os d msg from c u io ≡ (d, io))
      ⊎ ((find msg.room d.sessions ≡ none)
          × (msg.payload ≡ closed_to ++ d.self_username)
          × ((on_invite os d msg from c u io).0 ≡ record d {
            sessions =
                insert msg.room
                  (incoming_session msg (make_unicast_dest os from udp_port) c u)
                  d.sessions;
          }))
unfolding on_invite
on_invite_cases os d msg from c u io = elim (Option-cases (strip_prefix closed_to msg.payload)) [
  | inl e ↦ inl (ground arith)
  | inr (to, e) ↦ elim (Bool-cases (is_invite msg.type)) [
    | inr g ↦ inl (rw g)
    | inl g ↦ elim (Bool-cases (is_incomplete msg)) [
      | inl h ↦ inl (rw (g, h))
      | inr h ↦ elim (Bool-cases (bytes_eq to d.self_username)) [
        | inr m ↦ inl (rw (g, h, e, on_invite, m))
        | inl m ↦ elim (Bool-cases (contains msg.room d.sessions)) [
          | inl t ↦ inl (rw (g, h, e, on_invite, m, t))
          | inr t ↦ inr (
            absent_of_contains msg.room d.sessions t,
            subst (λ n. msg.payload ≡ closed_to ++ n) ((bytes_eq_iff to d.self_username).0 m)
                (strip_prefix_lem closed_to msg.payload to e),
            rw (g, h, e, on_invite, m, t),
          )
        ]
      ]
    ]
  ]
]

-- The cases of `on_room_chat`.
pub on_room_chat_cases :
    (os : Os) (d : DirectMessageService) (msg : SecpMessage) (from : SockAddr) (now : ℕ) (io : Io)
    → (on_room_chat os d msg from now io ≡ (d, io))
      ⊎ ((s : Session) × (find msg.room d.sessions ≡ some s)
          × (is_from_peer os s msg from ≡ true)
          × (on_room_chat os d msg from now io ≡ deliver d msg s now io))
unfolding on_room_chat
on_room_chat_cases os d msg from now io = elim (Option-cases (find msg.room d.sessions)) [
  | inl e ↦ inl (ground arith)
  | inr (s, e) ↦ elim (Bool-cases (is_chat msg.type)) [
    | inr g ↦ inl (rw g)
    | inl g ↦ elim (Bool-cases (is_incomplete msg)) [
      | inl h ↦ inl (rw (g, h))
      | inr h ↦ elim (Bool-cases (is_from_peer os s msg from)) [
        | inr m ↦ inl (rw (g, h, e, on_room_chat, m))
        | inl m ↦ inr (s, e, m, rw (g, h, e, on_room_chat, m))
      ]
    ]
  ]
]
