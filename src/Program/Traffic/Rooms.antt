-- ===== src/Program/Traffic/Rooms.antt =====
-- What GroupRoomCoordinator says: its calls add nothing to the traffic but lines under its own name.
use nettverk.Prelude.{
  ℕ, ◌≡◌, refl, ◌∙◌, Bool, false, not, ◌||◌, Option, none, some, [], Bytes, arith, if_holds,
  option_holds, Bool-cases, Option-cases, contains, inl, inr, is_empty, ltb, length, bytes_eq,
}
use nettverk.Net.{Os}
use nettverk.UdpSocket.{UdpSocket}
use nettverk.Io.{Io, LogCall, Effect, send_udp}
use nettverk.Groups.State.{GroupRoomCoordinator, prune_registry_unlocked, open_room_multicast_group}
use nettverk.Groups.Channel.{
  drop_membership, let_go, leave_multicast_membership_unlocked, Setup, opened, broken, attempt,
  note, set_up, take_up, bind_multicast_channel,
}
use nettverk.Groups.Rooms.{
  own_room, create_room, enter_room, join_listed, join_room, leave_room, owns_other,
}
use nettverk.Groups.Messages.{broadcast_owned_advert, send_group_line, send_group_chat, text_open}
use nettverk.Groups.Membership.{let_out}
use nettverk.Secp.{
  max_room_name_bytes, max_chat_message_bytes, build_secp_line, chat, room_announce,
}
use nettverk.Trim.{trim_in_place}
use nettverk.Program.Traffic.{traffic, Voice, Admits, Admits-same, speaks}

let_go_silent :
    (os : Os) (g : GroupRoomCoordinator) (io : Io) → traffic (let_go os g io).out ≡ traffic io.out
unfolding let_go drop_membership traffic
let_go_silent os g io = ground arith

-- The output of a socket under construction.
abbrev setup_out : Setup → Io
setup_out (opened sk io) = io
setup_out (broken sk io e) = io

attempt_silent :
    (s : Setup) (op : ℕ → UdpSocket → UdpSocket × Bool) (err : Bytes)
    → traffic (setup_out (attempt s op err)).out ≡ traffic (setup_out s).out
unfolding attempt
attempt_silent (opened sk io) op err = ground arith
attempt_silent (broken sk io e) op err = refl

note_silent :
    (s : Setup) (l : LogCall) → traffic (setup_out (note s l)).out ≡ traffic (setup_out s).out
unfolding traffic
note_silent (opened sk io) l = refl
note_silent (broken sk io e) l = refl

set_up_silent :
    (os : Os) (local_if group port : ℕ) (io : Io)
    → traffic (setup_out (set_up os local_if group port io)).out ≡ traffic io.out
unfolding set_up
set_up_silent os local_if group port io = simp (attempt_silent, note_silent)

-- A call keeps the name and adds nothing to the traffic.
abbrev pub Mute : GroupRoomCoordinator → Io → GroupRoomCoordinator → Io → Type 0
Mute g io g' io' = (g'.username ≡ g.username) × (traffic io'.out ≡ traffic io.out)

take_up-Mute :
    (os : Os) (g : GroupRoomCoordinator) (group port : ℕ) (s : Setup)
    → let r = take_up os g group port s in Mute g (setup_out s) r.0 r.1
unfolding take_up
take_up-Mute os g group port (opened sk io) = (refl, refl)
take_up-Mute os g group port (broken sk io e) = (refl, ground arith)

bind-Mute :
    (os : Os) (g : GroupRoomCoordinator) (group port : ℕ) (io : Io)
    → let r = bind_multicast_channel os g group port io in Mute g io r.0 r.1
unfolding bind_multicast_channel leave_multicast_membership_unlocked
bind-Mute os g group port io =
    let (n, s) = take_up-Mute os _ group port (set_up os g.local_if group port (let_go os g io)) in
    (n, s ∙ set_up_silent os g.local_if group port _ ∙ let_go_silent os g io)

-- `Mute` of a result.
data Muted (g : GroupRoomCoordinator) (io : Io) (r : GroupRoomCoordinator × Io × Bool)
    : Type 0 where
  muted : Mute g io r.0 r.1 → Muted g io r

enter-Mute :
    (name : Bytes) (r : GroupRoomCoordinator × Io × Option Bytes)
    → let x = enter_room name r in Mute r.0 r.1 x.0 x.1
unfolding enter_room
enter-Mute name (g, io, none) = (refl, refl)
enter-Mute name (g, io, some err) = (refl, refl)

join_listed-Mute :
    (os : Os) (g : GroupRoomCoordinator) (name : Bytes) (group : ℕ) (io : Io)
    → let r = join_listed os g name group io in Mute g io r.0 r.1
unfolding join_listed leave_multicast_membership_unlocked
join_listed-Mute os g name group io = elim (Bool-cases (owns_other g.owned name)) [
  | inl h ↦ rw h (
      let g1 = record (let_out g) { owned = none } in
      let (n, b) = bind-Mute os g1 group 50000 (let_go os g io) in
      let (n', o) = enter-Mute name (bind_multicast_channel os g1 group 50000 (let_go os g io)) in
      (n' ∙ n, o ∙ b ∙ let_go_silent os g io))
  | inr h ↦ rw h (
      let g1 = let_out g in
      let (n, b) = bind-Mute os g1 group 50000 (let_go os g io) in
      let (n', o) = enter-Mute name (bind_multicast_channel os g1 group 50000 (let_go os g io)) in
      (n' ∙ n, o ∙ b ∙ let_go_silent os g io))
]

join-Muted :
    (os : Os) (g : GroupRoomCoordinator) (name : Bytes) (now : ℕ) (io : Io)
    → Muted g io (join_room os g name now io)
unfolding join_room prune_registry_unlocked
join-Muted os g name now io =
    let g1 = prune_registry_unlocked g now in
    if_holds (Muted g io) (is_empty name) {x = (g, io, false)} (muted (refl, refl)) (
      if_holds (Muted g io) (ltb max_room_name_bytes (length name)) {x = (g, io, false)}
        (muted (refl, refl))
        (if_holds (Muted g io) (bytes_eq g1.active_room_name name) {x = (g1, io, false)}
          (muted (refl, refl))
          (if_holds (Muted g io) (not (contains name g1.registry)) {x = (g1, io, false)}
            (muted (refl, refl))
            (option_holds (Muted g io) (os.inet_pton open_room_multicast_group)
              {x = (g1, io, false)} (muted (refl, refl))
              (λ group. muted (join_listed-Mute os g1 name group io))))))

pub join-Mute :
    (os : Os) (g : GroupRoomCoordinator) (name : Bytes) (now : ℕ) (io : Io)
    → let r = join_room os g name now io in Mute g io r.0 r.1
join-Mute os g name now io = elim (join-Muted os g name now io) [ muted h ↦ h ]

pub leave-Mute :
    (os : Os) (g : GroupRoomCoordinator) (io : Io) → let r = leave_room os g io in Mute g io r.0 r.1
unfolding leave_room leave_multicast_membership_unlocked
leave-Mute os g io = ground (arith, let_go_silent os g io)

-- The name is `u`, and the traffic is admitted.
abbrev pub Says : Bytes → (Effect → Type 0) → GroupRoomCoordinator → Io → Type 0
Says u Q g io = (g.username ≡ u) × Admits Q io.out

pub Mute-Says :
    (u : Bytes) (Q : Effect → Type 0) (g : GroupRoomCoordinator) (io : Io)
    (g' : GroupRoomCoordinator) (io' : Io)
    → Mute g io g' io'
    → Says u Q g io
    → Says u Q g' io'
Mute-Says u Q g io g' io' (n, e) (n', h) = (n ∙ n', Admits-same Q io.out io'.out e h)

-- `Says` of a result.
data Spoken (u : Bytes) (Q : Effect → Type 0) (r : GroupRoomCoordinator × Io × Bool) : Type 0 where
  spoken : Says u Q r.0 r.1 → Spoken u Q r

module _ (T : Bytes → Type 0) (u : Bytes) (Q : Effect → Type 0) (v : Voice T u Q) (os : Os) where
  pub advert-Says :
      (g : GroupRoomCoordinator) (io : Io)
      → Says u Q g io
      → Admits Q (broadcast_owned_advert os g io).out
  unfolding broadcast_owned_advert send_udp traffic
  advert-Says g io (n, h) = elim (Option-cases g.owned) [
    | inl e ↦ rw e h
    | inr (room, e) ↦
        rw e
          (elim (Bool-cases (
            is_empty (build_secp_line room_announce room g.username text_open)
            || not g.advert_sock)) [
              | inl b ↦ rw b h
              | inr b ↦ rw b (
                speaks T u Q v g.username room_announce room text_open _ _ _ n (ground arith)
                    (λ e. absurd (cc)),
                h,
              )
            ])
  ]

  own_room-Says :
      (name : Bytes) (r : GroupRoomCoordinator × Io × Option Bytes)
      → Says u Q r.0 r.1
      → let x = own_room os name r in Says u Q x.0 x.1
  unfolding own_room
  own_room-Says name (g, io, none) (n, h) = (n, advert-Says _ io (n, h))
  own_room-Says name (g, io, some err) h = h

  create-Spoken :
      (g : GroupRoomCoordinator) (name : Bytes) (io : Io)
      → Says u Q g io
      → Spoken u Q (create_room os g name io)
  unfolding create_room leave_multicast_membership_unlocked
  create-Spoken g name io h =
      if_holds (Spoken u Q)
        (is_empty (trim_in_place name) || ltb max_room_name_bytes (length (trim_in_place name)))
        {x = (g, io, false)} (spoken h)
        (option_holds (Spoken u Q) (os.inet_pton open_room_multicast_group) {x = (g, io, false)}
          (spoken h)
          (λ group.
            let g1 = record (let_out g) { active_room_name = []; owned = none } in
            let (n, b) = bind-Mute os g1 group 50000 (let_go os g io) in
            let r = bind_multicast_channel os g1 group 50000 (let_go os g io) in
            spoken (
              own_room-Says (trim_in_place name) r
                (Mute-Says u Q g io r.0 r.1 (n, b ∙ let_go_silent os g io) h))))

  pub create-Says :
      (g : GroupRoomCoordinator) (name : Bytes) (io : Io)
      → Says u Q g io
      → let r = create_room os g name io in Says u Q r.0 r.1
  create-Says g name io h = elim (create-Spoken g name io h) [ spoken k ↦ k ]

  line-Says :
      (g : GroupRoomCoordinator) (sk : UdpSocket) (text : Bytes) (io : Io)
      → Says u Q g io
      → T text
      → let r = send_group_line os g sk text io in Says u Q r.0 r.1
  unfolding send_group_line traffic
  line-Says g sk text io (n, h) typed =
      elim (Bool-cases (is_empty (build_secp_line chat g.active_room_name g.username text))) [
        | inl b ↦ rw b (n, h)
        | inr b ↦
            rw b (
              n,
              (speaks T u Q v g.username chat g.active_room_name text _ _ _ n b (λ e. typed), h),
            )
      ]

  say-Spoken :
      (g : GroupRoomCoordinator) (text : Bytes) (io : Io)
      → Says u Q g io
      → T (trim_in_place text)
      → Spoken u Q (send_group_chat os g text io)
  unfolding send_group_chat
  say-Spoken g text io h typed =
      let trimmed = trim_in_place text in
      if_holds (Spoken u Q) (is_empty trimmed || ltb max_chat_message_bytes (length trimmed))
        {x = (g, io, false)} (spoken h)
        (if_holds (Spoken u Q) (is_empty g.active_room_name) {x = (g, io, false)} (spoken h) (
          option_holds (Spoken u Q) g.mcast_sock {x = (g, io, false)} (spoken h)
            (λ sk. spoken (line-Says g sk trimmed io h typed))))

  pub say-Says :
      (g : GroupRoomCoordinator) (text : Bytes) (io : Io)
      → Says u Q g io
      → T (trim_in_place text)
      → let r = send_group_chat os g text io in Says u Q r.0 r.1
  say-Says g text io h typed = elim (say-Spoken g text io h typed) [ spoken k ↦ k ]

module _ (u : Bytes) (Q : Effect → Type 0) (os : Os) (g : GroupRoomCoordinator) (io : Io)
    (h : Says u Q g io) where
  pub join-Says : (name : Bytes) (now : ℕ) → let r = join_room os g name now io in Says u Q r.0 r.1
  join-Says name now =
      let r = join_room os g name now io in
      Mute-Says u Q g io r.0 r.1 (join-Mute os g name now io) h

  pub leave-Says : let r = leave_room os g io in Says u Q r.0 r.1
  leave-Says = let r = leave_room os g io in Mute-Says u Q g io r.0 r.1 (leave-Mute os g io) h
