-- ===== src/Groups/Closes.antt =====
-- Which descriptors GroupRoomCoordinator closes when it lets its multicast socket go and takes up
-- another one.
use nettverk.Prelude.{
  ℕ, ◌≡◌, ◌⊎◌, refl, ap, subst, ◌∙◌, not, Option, none, some, List, [], ◌∷◌, ◌++◌, Bytes, ascii, ℤ,
  is_negative, arith, if◌then◌else◌, inl, inr, Bool, Bool-cases,
}
use nettverk.Net.{Os, SockOption}
use nettverk.Io.{Io, LogCall}
use nettverk.UdpSocket.{
  UdpSocket, new, open_udp, close, destroy, set_reuse_address, multicast_add_membership,
  set_multicast_ttl, set_multicast_loop, set_multicast_outbound_interface,
}
use nettverk.UdpSocket.Descriptor.{bind-fd, set_option-fd}
use nettverk.Groups.State.{GroupRoomCoordinator}
use nettverk.Groups.Channel.{
  drop_socket, drop_membership, let_go, leave_multicast_membership_unlocked, Setup, opened, broken,
  attempt, note, set_up, take_up, bind_multicast_channel,
}

-- A descriptor, where it is one.
abbrev pub valid : ℤ → List ℤ
valid fd = if not (is_negative fd) then fd ∷ [] else []

-- The descriptor of a socket that is held.
abbrev pub held : Option UdpSocket → List ℤ
held none = []
held (some sk) = valid sk.fd

destroy-valid : (os : Os) (call : ℕ) (sk : UdpSocket) → destroy os call sk ≡ valid sk.fd
unfolding destroy close
destroy-valid os call sk = ground arith

membership_closes :
    (os : Os) (g : GroupRoomCoordinator) (sk : UdpSocket) (io : Io)
    → (drop_membership os g sk io).closed ≡ io.closed
unfolding drop_membership
membership_closes os g sk io = ground arith

drop_closes :
    (os : Os) (sk : UdpSocket) (io : Io) → (drop_socket os sk io).closed ≡ valid sk.fd ++ io.closed
unfolding drop_socket
drop_closes os sk io = ap (λ fds. fds ++ io.closed) (destroy-valid os io.calls sk)

held_closes :
    (os : Os) (g : GroupRoomCoordinator) (o : Option UdpSocket) (io : Io)
    → g.mcast_sock ≡ o
    → (let_go os g io).closed ≡ held o ++ io.closed
unfolding let_go
held_closes os g none io e = rw e refl
held_closes os g (some sk) io e = rw e (
    drop_closes os sk (drop_membership os g sk io)
    ∙ ap (λ fds. valid sk.fd ++ fds) (membership_closes os g sk io))

-- The socket under construction has the descriptor `fd`, and `fds` are closed.
abbrev Holds : ℤ → List ℤ → Setup → Type 0
Holds fd fds (opened sk io) = (sk.fd ≡ fd) × (io.closed ≡ fds)
Holds fd fds (broken sk io err) = (sk.fd ≡ fd) × (io.closed ≡ fds)

attempt-Holds :
    (fd : ℤ) (fds : List ℤ) (s : Setup) (op : ℕ → UdpSocket → UdpSocket × Bool) (err : Bytes)
    → ((call : ℕ) (sk : UdpSocket) → (op call sk).0.fd ≡ sk.fd)
    → Holds fd fds s
    → Holds fd fds (attempt s op err)
unfolding attempt
attempt-Holds fd fds (opened sk io) op err keeps (e, c) = elim (Bool-cases (op io.calls sk).1) [
  | inl ok ↦ rw ok (keeps io.calls sk ∙ e, c)
  | inr failed ↦ rw failed (keeps io.calls sk ∙ e, c)
]
attempt-Holds fd fds (broken sk io e) op err keeps h = h

note-Holds :
    (fd : ℤ) (fds : List ℤ) (s : Setup) (l : LogCall) → Holds fd fds s → Holds fd fds (note s l)
note-Holds fd fds (opened sk io) l h = h
note-Holds fd fds (broken sk io e) l h = h

open-Holds :
    (os : Os) (io : Io)
    → Holds
        (os.open_socket io.calls).result
        io.closed
        (attempt (opened new io) (open_udp os) (ascii "socket"))
unfolding attempt open_udp
open-Holds os io = ground arith

set_up-Holds :
    (os : Os) (local_if group port : ℕ) (io : Io)
    → Holds (os.open_socket io.calls).result io.closed (set_up os local_if group port io)
unfolding set_up set_reuse_address set_multicast_outbound_interface multicast_add_membership
    set_multicast_ttl set_multicast_loop
set_up-Holds os local_if group port io =
    let fd = (os.open_socket io.calls).result in
    let fds = io.closed in
    let kept = λ (c : ℕ) (sk : UdpSocket) (o : SockOption). set_option-fd os c sk o in
    attempt-Holds fd fds _ _ _ (λ c sk. kept c sk _)
      (attempt-Holds fd fds _ _ _ (λ c sk. kept c sk _)
        (note-Holds fd fds _ _ (
          attempt-Holds fd fds _ _ _ (λ c sk. kept c sk _)
            (attempt-Holds fd fds _ _ _ (λ c sk. kept c sk _)
              (attempt-Holds fd fds _ _ _ (λ c sk. bind-fd os c sk port)
                (attempt-Holds fd fds _ _ _ (λ c sk. kept c sk _) (open-Holds os io)))))))

-- The new socket is held, and only the old one is closed; or none is held, and both are closed.
abbrev pub Replaced : ℤ → Option UdpSocket → Io → GroupRoomCoordinator × Io × Option Bytes → Type 0
Replaced fd old io r =
    ((r.2 ≡ none)
      × ((sk : UdpSocket) × (r.0.mcast_sock ≡ some sk) × (sk.fd ≡ fd))
      × (r.1.closed ≡ held old ++ io.closed))
    ⊎ (((err : Bytes) × (r.2 ≡ some err))
        × (r.0.mcast_sock ≡ none)
        × (r.1.closed ≡ valid fd ++ (held old ++ io.closed)))

take_up-Replaced :
    (os : Os) (g : GroupRoomCoordinator) (group port : ℕ) (fd : ℤ) (old : Option UdpSocket)
    (io : Io) (s : Setup)
    → g.mcast_sock ≡ none
    → Holds fd (held old ++ io.closed) s
    → Replaced fd old io (take_up os g group port s)
unfolding take_up
take_up-Replaced os g group port fd old io (opened sk io') e (f, c) = inl (refl, (sk, refl, f), c)
take_up-Replaced os g group port fd old io (broken sk io' err) e (f, c) =
    inr ((err, refl), e, drop_closes os sk io' ∙ cc)

-- `bind_multicast_channel` closes the socket that was held, if there was one. The new one is held
-- where nothing fails; where a step of its set-up fails, no socket is held, and the new one, if the
-- system gave one, is closed as well. Nothing else is closed.
pub bind_multicast_channel_closes :
    (os : Os) (g : GroupRoomCoordinator) (group port : ℕ) (io : Io)
    → Replaced
        (os.open_socket (let_go os g io).calls).result
        g.mcast_sock
        io
        (bind_multicast_channel os g group port io)
unfolding bind_multicast_channel leave_multicast_membership_unlocked
bind_multicast_channel_closes os g group port io =
    let io' = let_go os g io in
    let e = held_closes os g g.mcast_sock io refl in
    let fd = (os.open_socket io'.calls).result in
    take_up-Replaced os (leave_multicast_membership_unlocked os g io).0 group port fd g.mcast_sock
      io _ refl
      (subst (λ fds. Holds fd fds (set_up os g.local_if group port io')) e
        (set_up-Holds os g.local_if group port io'))
