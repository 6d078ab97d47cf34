-- ===== src/Groups/Entry.antt =====
-- What the user's commands of GroupRoomCoordinator achieve: create, join and leave a room, and what
-- a join that fails leaves behind.
use nettverk.Prelude.{
  ℕ, ◌≡◌, refl, ap, ◌∙◌, true, false, none, some, Bytes, bytes_eq, bytes_eq_refl, is_empty,
  contains, Option-cases, inl, inr, arith,
}
use nettverk.Net.{Os}
use nettverk.Io.{Io}
use nettverk.Trim.{trim_in_place}
use nettverk.Groups.State.{
  GroupRoomCoordinator, prune_registry_unlocked, has_active_membership, active_room_id,
  open_room_multicast_group,
}
use nettverk.Groups.Rooms.{create_room, join_room, leave_room}
use nettverk.Groups.Messages.{send_group_chat}
use nettverk.Groups.Membership.{
  IsValid, let_out, disown, is_bad_name, is_refused, leave-let_out, create_cases, join_cases,
  join_listed_cases, join_room-join_listed,
}
use nettverk.Groups.Reach.{disown-owned, prune-IsValid, bad_name-filled}

-- `create_room` that answers true is in the room of the trimmed name and owns it; that name is neither
-- empty nor longer than 32 bytes.
pub create_room_enters :
    (os : Os) (g : GroupRoomCoordinator) (display : Bytes) (io : Io)
    → (create_room os g display io).2 ≡ true
    → let g' = (create_room os g display io).0 in
      (has_active_membership g' ≡ true)
      × (active_room_id g' ≡ some (trim_in_place display))
      × (g'.owned ≡ some (trim_in_place display))
      × (is_bad_name (trim_in_place display) ≡ false)
unfolding has_active_membership active_room_id
create_room_enters os g display io h = elim (create_cases os g display io) [
  | inl e ↦ absurd (ground (arith, ap (λ r. r.2) e))
  | inr (inl (e, n)) ↦ absurd (ground arith)
  | inr (inr (sk, group, ok, e, n)) ↦
      let filled = bad_name-filled (trim_in_place display) ok in
      (rw (e, filled), rw (e, filled), rw e, ok)
]

-- `join_room` that answers true, from a well-formed state, is in the room; that room is listed once
-- stale ones are pruned and was not the active one, and no room is owned any more.
pub join_room_enters :
    (os : Os) (g : GroupRoomCoordinator) (room : Bytes) (now : ℕ) (io : Io)
    → IsValid g
    → (join_room os g room now io).2 ≡ true
    → let g' = (join_room os g room now io).0 in
      (has_active_membership g' ≡ true)
      × (active_room_id g' ≡ some room)
      × (g'.owned ≡ none)
      × (contains room (prune_registry_unlocked g now).registry ≡ true)
      × (bytes_eq g.active_room_name room ≡ false)
unfolding has_active_membership active_room_id
join_room_enters os g room now io v h = elim (join_cases os g room now io) [
  | inl (e, n) ↦ absurd (ground arith)
  | inr (inl (_, e, n)) ↦ absurd (ground arith)
  | inr (inr (sk, group, ok, e, n)) ↦
      let filled : is_empty room ≡ false = ground arith in
      (
        rw (e, filled),
        rw (e, filled),
        rw e (disown-owned (prune_registry_unlocked g now) room (prune-IsValid g now v) ok),
        ground arith,
        unfold prune_registry_unlocked in ground arith,
      )
]

-- After `leave_room`, from a well-formed state, no room is active or owned, there is no membership,
-- and the rooms that were listed still are.
pub leave_room_leaves :
    (os : Os) (g : GroupRoomCoordinator) (io : Io)
    → IsValid g
    → let g' = (leave_room os g io).0 in
      (has_active_membership g' ≡ false)
      × (active_room_id g' ≡ none)
      × (g'.owned ≡ none)
      × (g'.registry ≡ g.registry)
unfolding leave_room has_active_membership active_room_id
leave_room_leaves os g io v = rw (leave-let_out os g io) (
  ground arith,
  ground arith,
  elim (Option-cases g.owned) [
    | inl e ↦ ground arith
    | inr (o, e) ↦ ground (arith, v.own_active o e, bytes_eq_refl o)
  ],
  ground arith,
)

disown-active :
    (g : GroupRoomCoordinator) (room : Bytes)
    → (disown g room).active_room_name ≡ g.active_room_name
disown-active g room = ground arith

-- The state behind a join that failed after the tests.
failed_join_state :
    (os : Os) (g : GroupRoomCoordinator) (room : Bytes) (now group : ℕ) (io : Io)
    → is_refused (prune_registry_unlocked g now) room ≡ false
    → os.inet_pton open_room_multicast_group ≡ some group
    → (join_room os g room now io).2 ≡ false
    → (join_room os g room now io).0 ≡ let_out (disown (prune_registry_unlocked g now) room)
failed_join_state os g room now group io h e f =
    let pruned = prune_registry_unlocked g now in
    let same = join_room-join_listed os g room now group io h e in
    elim (join_listed_cases os pruned room group io) [
      | inl (state, n) ↦ ap (λ r. r.0) same ∙ state
      | inr (sk, state, n) ↦ absurd (ground (arith, ap (λ r. r.2) same))
    ]

-- Neither a chat message nor a second join of the active room works without a socket.
without_socket :
    (os : Os) (g : GroupRoomCoordinator) (text room : Bytes) (now : ℕ) (io : Io)
    → g.mcast_sock ≡ none
    → g.active_room_name ≡ room
    → (has_active_membership g ≡ false)
      × ((send_group_chat os g text io).2 ≡ false)
      × ((join_room os g room now io).2 ≡ false)
      × (has_active_membership (join_room os g room now io).0 ≡ false)
without_socket os g text room now io e r = (
  unfold has_active_membership in ground arith,
  unfold send_group_chat in ground arith,
  unfold join_room prune_registry_unlocked in ground (arith, bytes_eq_refl room),
  unfold join_room prune_registry_unlocked has_active_membership in
      ground (arith, bytes_eq_refl room),
)

-- A join that passes every test and then fails to set up its socket keeps the name of the room that
-- was active while its membership is gone. From then on, whatever the system answers, nothing can be
-- said in that room, and joining it again fails and gives no membership.
pub failed_join_blocks :
    (os os' : Os) (g : GroupRoomCoordinator) (room text : Bytes) (now group later : ℕ) (io io' : Io)
    → is_refused (prune_registry_unlocked g now) room ≡ false
    → os.inet_pton open_room_multicast_group ≡ some group
    → (join_room os g room now io).2 ≡ false
    → let g' = (join_room os g room now io).0 in
      (g'.active_room_name ≡ g.active_room_name)
      × (has_active_membership g' ≡ false)
      × ((send_group_chat os' g' text io').2 ≡ false)
      × ((join_room os' g' g.active_room_name later io').2 ≡ false)
      × (has_active_membership (join_room os' g' g.active_room_name later io').0 ≡ false)
failed_join_blocks os os' g room text now group later io io' h e f =
    let pruned = prune_registry_unlocked g now in
    let state = failed_join_state os g room now group io h e f in
    let name : (let_out (disown pruned room)).active_room_name ≡ g.active_room_name =
      disown-active pruned room ∙ (unfold prune_registry_unlocked in refl) in
    let (a, b, c, d) =
      without_socket os' (let_out (disown pruned room)) text g.active_room_name later io' refl
        name in
    rw state (name, a, b, c, d)
