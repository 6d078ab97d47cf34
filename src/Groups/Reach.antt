-- ===== src/Groups/Reach.antt =====
-- Sequences of calls on GroupRoomCoordinator, and the invariant that they keep.
use nettverk.Prelude.{
  ℕ, ◌≡◌, refl, sym, ap, ◌∙◌, subst, Bool, false, ◌||◌, none, some, Bytes, bytes_eq, bytes_eq_iff,
  bytes_eq_refl, is_empty, UniqueKeys, retain-UniqueKeys, insert-UniqueKeys, Bool-cases,
  Option-cases, inl, inr, arith,
}
use nettverk.Net.{Os}
use nettverk.UdpSocket.{UdpSocket}
use nettverk.Io.{Io}
use nettverk.Secp.{SecpMessage, chat, dash, build_secp_line}
use nettverk.Trim.{trim_in_place}
use nettverk.Groups.State.{
  GroupRoomCoordinator, new, set_on_group_message, prune_registry_unlocked, list_advertised_rooms,
  is_held,
}
use nettverk.Groups.Rooms.{create_room, join_room, leave_room}
use nettverk.Groups.Messages.{
  send_group_line, send_group_chat, on_room_announce, recv_multicast_datagram, advertised,
  text_open,
}
use nettverk.Groups.Membership.{
  IsValid, let_out, let_in, gone, disown, is_bad_name, is_refused, leave-let_out, create_cases,
  join_cases,
}

-- One call, with whatever it did outside before.
pub data Step (os : Os) : GroupRoomCoordinator → GroupRoomCoordinator → Type 0 where
  set_handler : {g : GroupRoomCoordinator} (cb : Bool) → Step os g (set_on_group_message g cb)
  create :
      {g : GroupRoomCoordinator} (name : Bytes) (io : Io) → Step os g (create_room os g name io).0
  list : {g : GroupRoomCoordinator} (now : ℕ) → Step os g (list_advertised_rooms g now).0
  join :
      {g : GroupRoomCoordinator} (name : Bytes) (now : ℕ) (io : Io)
      → Step os g (join_room os g name now io).0
  leave : {g : GroupRoomCoordinator} (io : Io) → Step os g (leave_room os g io).0
  say :
      {g : GroupRoomCoordinator} (text : Bytes) (io : Io)
      → Step os g (send_group_chat os g text io).0
  announced :
      {g : GroupRoomCoordinator} (msg : SecpMessage) (now later : ℕ)
      → Step os g (on_room_announce g msg now later)
  receive :
      {g : GroupRoomCoordinator} (size : ℕ) (io : Io)
      → Step os g (recv_multicast_datagram os g size io).0

pub prune-IsValid :
    (g : GroupRoomCoordinator) (now : ℕ) → IsValid g → IsValid (prune_registry_unlocked g now)
unfolding prune_registry_unlocked
prune-IsValid g now v = record {
  member = v.member;
  named = v.named;
  own_active = v.own_active;
  unique = retain-UniqueKeys _ g.registry v.unique;
}

-- Another socket in the place of one that is held, as after a call on it.
pub swap-IsValid :
    (g : GroupRoomCoordinator) (sk sk' : UdpSocket)
    → g.mcast_sock ≡ some sk
    → IsValid g
    → IsValid (record g { mcast_sock = some sk' })
swap-IsValid g sk sk' e v = record {
  member = v.member ∙ ap is_held e;
  named = λ h. v.named (ap is_held e);
  own_active = v.own_active;
  unique = v.unique;
}

-- A state that is in no room and owns none.
gone-IsValid : (g : GroupRoomCoordinator) → IsValid g → IsValid (gone g)
gone-IsValid g v = record {
  member = refl;
  named = λ h. absurd (cc);
  own_active = λ o h. absurd (cc);
  unique = v.unique;
}

pub bad_name-filled : (name : Bytes) → is_bad_name name ≡ false → is_empty name ≡ false
bad_name-filled name h = ground arith

pub create-IsValid :
    (os : Os) (g : GroupRoomCoordinator) (display : Bytes) (io : Io)
    → IsValid g
    → IsValid (create_room os g display io).0
create-IsValid os g display io v = elim (create_cases os g display io) [
  | inl e ↦ rw e v
  | inr (inl (e, n)) ↦ rw e (gone-IsValid g v)
  | inr (inr (sk, group, ok, e, n)) ↦ rw e (record {
    member = refl;
    named = λ h. bad_name-filled (trim_in_place display) ok;
    own_active = λ o h. cc;
    unique = v.unique;
  })
]

-- Behind the tests of `join_room`, a room of one's own is another one, so that it is given up.
pub disown-owned :
    (g : GroupRoomCoordinator) (room : Bytes)
    → IsValid g
    → is_refused g room ≡ false
    → (disown g room).owned ≡ none
disown-owned g room v h = elim (Option-cases g.owned) [
  | inl e ↦ ground arith
  | inr (o, e) ↦ ground (arith, v.own_active o e, bytes_eq_iff o room)
]

disown-registry : (g : GroupRoomCoordinator) (room : Bytes) → (disown g room).registry ≡ g.registry
disown-registry g room = ground arith

entered-IsValid :
    (g : GroupRoomCoordinator) (room : Bytes) (sk : UdpSocket) (group : ℕ)
    → IsValid g
    → is_refused g room ≡ false
    → IsValid (record (let_in (let_out (disown g room)) sk group) { active_room_name = room })
entered-IsValid g room sk group v h = record {
  member = refl;
  named = λ _. ground arith;
  own_active = λ o e. absurd (ground (arith, disown-owned g room v h));
  unique = subst UniqueKeys (sym (disown-registry g room)) v.unique;
}

-- A join that fails behind the tests has left its room, and keeps the name.
failed-IsValid :
    (g : GroupRoomCoordinator) (room : Bytes)
    → IsValid g
    → is_refused g room ≡ false
    → IsValid (let_out (disown g room))
failed-IsValid g room v h = record {
  member = refl;
  named = λ e. absurd (cc);
  own_active = λ o e. absurd (ground (arith, disown-owned g room v h));
  unique = subst UniqueKeys (sym (disown-registry g room)) v.unique;
}

pub join-IsValid :
    (os : Os) (g : GroupRoomCoordinator) (room : Bytes) (now : ℕ) (io : Io)
    → IsValid g
    → IsValid (join_room os g room now io).0
join-IsValid os g room now io v = elim (join_cases os g room now io) [
  | inl (inl e, n) ↦ rw e v
  | inl (inr e, n) ↦ rw e (prune-IsValid g now v)
  | inr (inl (h, e, n)) ↦
      rw e (failed-IsValid (prune_registry_unlocked g now) room (prune-IsValid g now v) h)
  | inr (inr (sk, group, h, e, n)) ↦
      rw e (entered-IsValid (prune_registry_unlocked g now) room sk group (prune-IsValid g now v) h)
]

pub leave-IsValid :
    (os : Os) (g : GroupRoomCoordinator) (io : Io) → IsValid g → IsValid (leave_room os g io).0
unfolding leave_room
leave-IsValid os g io v = rw (leave-let_out os g io) (record {
  member = ground arith;
  named = λ e. ground arith;
  own_active = λ o e. ground (arith, v.own_active o, bytes_eq_refl o);
  unique = ground (arith, v.unique);
})

line-IsValid :
    (os : Os) (g : GroupRoomCoordinator) (sk : UdpSocket) (text : Bytes) (io : Io)
    → g.mcast_sock ≡ some sk
    → IsValid g
    → IsValid (send_group_line os g sk text io).0
unfolding send_group_line
line-IsValid os g sk text io e v =
    elim (Bool-cases (is_empty (build_secp_line chat g.active_room_name g.username text))) [
      | inl h ↦ rw h v
      | inr h ↦ rw h (swap-IsValid g sk _ e v)
    ]

pub say-IsValid :
    (os : Os) (g : GroupRoomCoordinator) (text : Bytes) (io : Io)
    → IsValid g
    → IsValid (send_group_chat os g text io).0
unfolding send_group_chat
say-IsValid os g text io v = elim (Option-cases g.mcast_sock) [
  | inl e ↦ ground arith
  | inr (sk, e) ↦ ground (arith, line-IsValid os g sk (trim_in_place text) io e v)
]

pub announced-IsValid :
    (g : GroupRoomCoordinator) (msg : SecpMessage) (now later : ℕ)
    → IsValid g
    → IsValid (on_room_announce g msg now later)
unfolding on_room_announce
announced-IsValid g msg now later v =
    elim (Bool-cases (is_empty msg.room || bytes_eq msg.room dash || is_empty msg.username)) [
      | inl h ↦ rw h v
      | inr h ↦ elim (Bool-cases (bytes_eq msg.payload text_open)) [
        | inr k ↦ rw (h, k) v
        | inl k ↦
            rw (h, k)
              (prune-IsValid _ later (record {
                member = v.member;
                named = v.named;
                own_active = v.own_active;
                unique = insert-UniqueKeys msg.room (advertised msg.room now) g.registry v.unique;
              }))
      ]
    ]

receive-IsValid :
    (os : Os) (g : GroupRoomCoordinator) (size : ℕ) (io : Io)
    → IsValid g
    → IsValid (recv_multicast_datagram os g size io).0
unfolding recv_multicast_datagram
receive-IsValid os g size io v = elim (Option-cases g.mcast_sock) [
  | inl e ↦ ground (arith, v)
  | inr (sk, e) ↦ ground (arith, λ (sk' : UdpSocket). swap-IsValid g sk sk' e v)
]

pub Step-IsValid : (os : Os) (g h : GroupRoomCoordinator) → Step os g h → IsValid g → IsValid h
Step-IsValid os g _ (set_handler cb) v =
    unfold set_on_group_message in
    record { member = v.member; named = v.named; own_active = v.own_active; unique = v.unique }
Step-IsValid os g _ (create name io) v = create-IsValid os g name io v
Step-IsValid os g _ (list now) v = unfold list_advertised_rooms in prune-IsValid g now v
Step-IsValid os g _ (join name now io) v = join-IsValid os g name now io v
Step-IsValid os g _ (leave io) v = leave-IsValid os g io v
Step-IsValid os g _ (say text io) v = say-IsValid os g text io v
Step-IsValid os g _ (announced msg now later) v = announced-IsValid g msg now later v
Step-IsValid os g _ (receive size io) v = receive-IsValid os g size io v

-- What calls can make of a coordinator that was just constructed.
pub data Reachable (os : Os) : GroupRoomCoordinator → Type 0 where
  start : (local_if : ℕ) (username : Bytes) → Reachable os (new local_if username)
  after : {g h : GroupRoomCoordinator} → Reachable os g → Step os g h → Reachable os h

-- Whatever calls were made: there is a membership exactly while a socket is held, and then a room is
-- active; a room that is owned is the active one; no room is listed twice.
pub Reachable-IsValid : (os : Os) (g : GroupRoomCoordinator) → Reachable os g → IsValid g
Reachable-IsValid os _ (start local_if username) =
    unfold new in
    record { member = refl; named = λ h. absurd (cc); own_active = λ o h. absurd (cc); unique = tt }
Reachable-IsValid os _ (after {g} {h} r s) = Step-IsValid os g h s (Reachable-IsValid os g r)
