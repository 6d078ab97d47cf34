-- ===== src/Groups/Membership.antt =====
-- Which rooms a GroupRoomCoordinator can be in: the invariant that its fields keep, over every
-- sequence of calls.
use nettverk.Prelude.{
  ℕ, ◌≡◌, ◌⊎◌, refl, ap, ◌∙◌, Bool, true, false, not, ◌||◌, Option, none, some, [], Bytes, bytes_eq,
  is_empty, length, contains, ltb, UniqueKeys, Bool-cases, Option-cases, inl, inr, arith,
  if◌then◌else◌,
}
use nettverk.Net.{Os, udp_port}
use nettverk.UdpSocket.{UdpSocket}
use nettverk.Io.{Io}
use nettverk.Trim.{trim_in_place}
use nettverk.Groups.State.{
  GroupRoomCoordinator, prune_registry_unlocked, is_held, open_room_multicast_group,
}
use nettverk.Groups.Channel.{
  Setup, opened, broken, set_up, take_up, leave_multicast_membership_unlocked,
  bind_multicast_channel,
}
use nettverk.Groups.Rooms.{own_room, create_room, owns_other, enter_room, join_listed, join_room}

-- A membership comes with its socket and with the name of its room; a room of one's own is the one
-- that is active; no room is listed twice.
pub record IsValid (g : GroupRoomCoordinator) : Type 0 where
  pub member : g.joined_membership ≡ is_held g.mcast_sock
  pub named : is_held g.mcast_sock ≡ true → is_empty g.active_room_name ≡ false
  pub own_active : (o : Bytes) → g.owned ≡ some o → g.active_room_name ≡ o
  pub unique : UniqueKeys g.registry

-- The state once the socket is let go.
abbrev pub let_out : GroupRoomCoordinator → GroupRoomCoordinator
let_out g = record g { joined_membership = false; joined_port = 0; mcast_sock = none }

pub leave-let_out :
    (os : Os) (g : GroupRoomCoordinator) (io : Io)
    → (leave_multicast_membership_unlocked os g io).0 ≡ let_out g
unfolding leave_multicast_membership_unlocked
leave-let_out os g io = refl

-- The state behind a socket that was set up.
abbrev pub let_in : GroupRoomCoordinator → UdpSocket → ℕ → GroupRoomCoordinator
let_in g sk group = record g {
  mcast_sock = some sk;
  joined_group = group;
  joined_port = udp_port;
  joined_membership = true;
}

take_up_cases :
    (os : Os) (g : GroupRoomCoordinator) (group : ℕ) (su : Setup)
    → let r = take_up os g group udp_port su in
      ((sk : UdpSocket) × (r.0 ≡ let_in g sk group) × (r.2 ≡ none))
      ⊎ ((e : Bytes) × (r.0 ≡ g) × (r.2 ≡ some e))
unfolding take_up
take_up_cases os g group (opened sk io) = inl (sk, refl, refl)
take_up_cases os g group (broken sk io e) = inr (e, refl, refl)

-- `bind_multicast_channel` ends with a socket, or with none and an error.
pub bind_cases :
    (os : Os) (g : GroupRoomCoordinator) (group : ℕ) (io : Io)
    → let r = bind_multicast_channel os g group udp_port io in
      ((sk : UdpSocket) × (r.0 ≡ let_in (let_out g) sk group) × (r.2 ≡ none))
      ⊎ ((e : Bytes) × (r.0 ≡ let_out g) × (r.2 ≡ some e))
unfolding bind_multicast_channel leave_multicast_membership_unlocked
bind_cases os g group io =
    take_up_cases os (let_out g) group
      (set_up os g.local_if group udp_port (leave_multicast_membership_unlocked os g io).1)

-- The early return of `create_room` and `join_room`.
abbrev pub is_bad_name : Bytes → Bool
is_bad_name name = is_empty name || ltb 32 (length name)

own_room_in :
    (os : Os) (name : Bytes) (r : GroupRoomCoordinator × Io × Option Bytes)
    → r.2 ≡ none
    → ((own_room os name r).0 ≡ record r.0 { owned = some name; active_room_name = name })
      × ((own_room os name r).2 ≡ true)
unfolding own_room
own_room_in os name (g, io, none) h = (refl, refl)
own_room_in os name (g, io, some e) h = absurd (cc)

own_room_out :
    (os : Os) (name e : Bytes) (r : GroupRoomCoordinator × Io × Option Bytes)
    → r.2 ≡ some e
    → ((own_room os name r).0 ≡ r.0) × ((own_room os name r).2 ≡ false)
unfolding own_room
own_room_out os name e (g, io, none) h = absurd (cc)
own_room_out os name e (g, io, some e') h = (refl, refl)

enter_room_in :
    (name : Bytes) (r : GroupRoomCoordinator × Io × Option Bytes)
    → r.2 ≡ none
    → ((enter_room name r).0 ≡ record r.0 { active_room_name = name })
      × ((enter_room name r).2 ≡ true)
unfolding enter_room
enter_room_in name (g, io, none) h = (refl, refl)
enter_room_in name (g, io, some e) h = absurd (cc)

enter_room_out :
    (name e : Bytes) (r : GroupRoomCoordinator × Io × Option Bytes)
    → r.2 ≡ some e
    → ((enter_room name r).0 ≡ r.0) × ((enter_room name r).2 ≡ false)
unfolding enter_room
enter_room_out name e (g, io, none) h = absurd (cc)
enter_room_out name e (g, io, some e') h = (refl, refl)

-- What `leave_multicast_membership_unlocked` has done, and what `bind_multicast_channel` then makes.
abbrev left : Os → GroupRoomCoordinator → Io → Io
left os g io = (leave_multicast_membership_unlocked os g io).1

abbrev channel : Os → GroupRoomCoordinator → ℕ → Io → GroupRoomCoordinator × Io × Option Bytes
channel os g group io = bind_multicast_channel os g group udp_port io

-- In no room, and with none of its own.
abbrev pub gone : GroupRoomCoordinator → GroupRoomCoordinator
gone g = record (let_out g) { active_room_name = []; owned = none }

create-own_room :
    (os : Os) (g : GroupRoomCoordinator) (display : Bytes) (group : ℕ) (io : Io)
    → is_bad_name (trim_in_place display) ≡ false
    → os.inet_pton open_room_multicast_group ≡ some group
    → create_room os g display io
      ≡ own_room os (trim_in_place display) (channel os (gone g) group (left os g io))
unfolding create_room leave_multicast_membership_unlocked
create-own_room os g display group io h e = rw (h, e)

-- `create_room` refuses the name and changes nothing, or leaves every room and fails, or is in its
-- own room.
pub create_cases :
    (os : Os) (g : GroupRoomCoordinator) (display : Bytes) (io : Io)
    → let name = trim_in_place display in
      let r = create_room os g display io in
      (r ≡ (g, io, false))
      ⊎ ((r.0 ≡ gone g) × (r.2 ≡ false))
      ⊎ ((sk : UdpSocket) × (group : ℕ) × (is_bad_name name ≡ false)
          × (r.0 ≡ record (let_in (gone g) sk group) { owned = some name; active_room_name = name })
          × (r.2 ≡ true))
unfolding create_room
create_cases os g display io = elim (Bool-cases (is_bad_name (trim_in_place display))) [
  | inl h ↦ inl (rw h)
  | inr h ↦ elim (Option-cases (os.inet_pton open_room_multicast_group)) [
    | inl e ↦ inl (rw (h, e))
    | inr (group, e) ↦ inr (elim (bind_cases os (gone g) group (left os g io)) [
      | inl (sk, same, n) ↦
          let (state, answer) =
            own_room_in os (trim_in_place display) (channel os (gone g) group (left os g io)) n in
          inr (
            sk,
            group,
            h,
            rw (create-own_room os g display group io h e) (state ∙ rw same),
            rw (create-own_room os g display group io h e) answer,
          )
      | inr (err, same, n) ↦
          let (state, answer) =
            own_room_out os (trim_in_place display) err (channel os (gone g) group (left os g io))
              n in
          inl (
            rw (create-own_room os g display group io h e) (state ∙ same),
            rw (create-own_room os g display group io h e) answer,
          )
    ])
  ]
]

-- The room of one's own is given up for another.
abbrev pub disown : GroupRoomCoordinator → Bytes → GroupRoomCoordinator
disown g room = if owns_other g.owned room then record g { owned = none } else g

join_listed-enter_room :
    (os : Os) (g : GroupRoomCoordinator) (room : Bytes) (group : ℕ) (io : Io)
    → join_listed os g room group io
      ≡ enter_room room (channel os (let_out (disown g room)) group (left os (disown g room) io))
unfolding join_listed leave_multicast_membership_unlocked
join_listed-enter_room os g room group io = refl

pub join_listed_cases :
    (os : Os) (g : GroupRoomCoordinator) (room : Bytes) (group : ℕ) (io : Io)
    → let r = join_listed os g room group io in
      ((r.0 ≡ let_out (disown g room)) × (r.2 ≡ false))
      ⊎ ((sk : UdpSocket) × (r.0
            ≡ record (let_in (let_out (disown g room)) sk group) { active_room_name = room })
          × (r.2 ≡ true))
join_listed_cases os g room group io =
    let r = channel os (let_out (disown g room)) group (left os (disown g room) io) in
    elim (bind_cases os (let_out (disown g room)) group (left os (disown g room) io)) [
      | inl (sk, same, n) ↦
          let (state, answer) = enter_room_in room r n in
          inr (
            sk,
            rw (join_listed-enter_room os g room group io) (state ∙ rw same),
            rw (join_listed-enter_room os g room group io) answer,
          )
      | inr (err, same, n) ↦
          let (state, answer) = enter_room_out room err r n in
          inl (
            rw (join_listed-enter_room os g room group io) (state ∙ same),
            rw (join_listed-enter_room os g room group io) answer,
          )
    ]

-- The tests of `join_room` before it leaves the room it is in, on the pruned registry.
abbrev pub is_refused : GroupRoomCoordinator → Bytes → Bool
is_refused g room =
    is_bad_name room || bytes_eq g.active_room_name room || not (contains room g.registry)

pub join_room-join_listed :
    (os : Os) (g : GroupRoomCoordinator) (room : Bytes) (now group : ℕ) (io : Io)
    → is_refused (prune_registry_unlocked g now) room ≡ false
    → os.inet_pton open_room_multicast_group ≡ some group
    → join_room os g room now io ≡ join_listed os (prune_registry_unlocked g now) room group io
unfolding join_room
join_room-join_listed os g room now group io h e = ground arith

-- `join_room` changes nothing but the registry, which it may prune, or leaves the room it was in and
-- fails, or is in the room.
pub join_cases :
    (os : Os) (g : GroupRoomCoordinator) (room : Bytes) (now : ℕ) (io : Io)
    → let pruned = prune_registry_unlocked g now in
      let r = join_room os g room now io in
      (((r.0 ≡ g) ⊎ (r.0 ≡ pruned)) × (r.2 ≡ false))
      ⊎ ((is_refused pruned room ≡ false) × (r.0 ≡ let_out (disown pruned room)) × (r.2 ≡ false))
      ⊎ ((sk : UdpSocket) × (group : ℕ) × (is_refused pruned room ≡ false)
          × (r.0
              ≡ record (let_in (let_out (disown pruned room)) sk group) { active_room_name = room })
          × (r.2 ≡ true))
join_cases os g room now io = elim (Bool-cases (is_refused (prune_registry_unlocked g now) room)) [
  | inl h ↦ inl (unfold join_room in ground arith)
  | inr h ↦ elim (Option-cases (os.inet_pton open_room_multicast_group)) [
    | inl e ↦ inl (unfold join_room in ground arith)
    | inr (group, e) ↦
        inr (elim (join_listed_cases os (prune_registry_unlocked g now) room group io) [
          | inl (state, answer) ↦ inl (
            h,
            ap (λ r. r.0) (join_room-join_listed os g room now group io h e) ∙ state,
            ap (λ r. r.2) (join_room-join_listed os g room now group io h e) ∙ answer,
          )
          | inr (sk, state, answer) ↦ inr (
            sk,
            group,
            h,
            ap (λ r. r.0) (join_room-join_listed os g room now group io h e) ∙ state,
            ap (λ r. r.2) (join_room-join_listed os g room now group io h e) ∙ answer,
          )
        ])
  ]
]
