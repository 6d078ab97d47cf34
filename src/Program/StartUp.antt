-- ===== src/Program/StartUp.antt =====
-- How the start-up ends: with a complaint and no socket, or logged in with the socket open.
use nettverk.Prelude.{
  ℕ, ◌≡◌, refl, ap, ◌∙◌, Bool, true, false, Option, none, some, List, [], ◌∷◌, Bytes, ascii, arith,
  Bool-cases, inl, inr, ◌⊎◌, is_empty, is_negative,
}
use nettverk.Net.{Os, udp_port}
use nettverk.Io.{Io, Effect, print_error}
use nettverk.Trim.{trim_in_place}
use nettverk.UdpSocket.{UdpSocket, send_to, open_udp, set_reuse_address, set_broadcast, bind, close}
use nettverk.LocalEndpoint.{get_local_ipv4, ask_route, ask_name}
use nettverk.Receive.{Services}
use nettverk.Receive.Silence.{sends}
use nettverk.Discovery.{send_presence_broadcast}
use nettverk.Io.{send_udp}
use nettverk.Program.{
  Started, exited, logged_in, read_username, or_no_address, own_address, attempt, make_ready,
  release, services, greet, first_presence, with_socket, with_address, with_username, start_up,
  fresh,
}

-- The last thing done was a complaint.
abbrev pub Complained : Io → Type 0
Complained io = (text : Bytes) × (rest : List Effect) × (io.out ≡ print_error text ∷ rest)

address_socket : (os : Os) (io : Io) → (own_address os io).0.udp ≡ io.udp
unfolding own_address get_local_ipv4 ask_route ask_name
address_socket os io = ground arith

or_no_address_complains :
    (r : Io × Option ℕ) → (or_no_address r).1 ≡ none → Complained (or_no_address r).0
or_no_address_complains (io, none) h = (_, io.out, refl)
or_no_address_complains (io, some ip) h = absurd (cc)

address_complains :
    (os : Os) (io : Io) → (own_address os io).1 ≡ none → Complained (own_address os io).0
unfolding own_address
address_complains os io h = or_no_address_complains (get_local_ipv4 os io) h

-- What a sequence of calls on the socket leaves: where one has failed, a complaint.
data Tried (r : Io × Bool) : Type 0 where
  tried : (r.1 ≡ false → Complained r.0) → Tried r

attempt-Tried :
    (os : Os) (what : Bytes) (call : ℕ → UdpSocket → UdpSocket × Bool) (r : Io × Bool)
    → Tried r
    → Tried (attempt os what call r)
unfolding attempt
attempt-Tried os what call (io, false) t = t
attempt-Tried os what call (io, true) t = elim (Bool-cases (call io.calls io.udp).1) [
  | inl e ↦ tried (λ h. absurd (ground (arith, e, h)))
  | inr e ↦ tried (λ h. rw (attempt, e) (_, io.out, refl))
]

-- The calls before `bind`.
abbrev before_bind : Os → Io → Io × Bool
before_bind os io =
    attempt os (ascii "setsockopt(SO_BROADCAST udp)") (λ n s. set_broadcast os n s true)
      (attempt os (ascii "setsockopt(SO_REUSEADDR udp)") (λ n s. set_reuse_address os n s true)
        (attempt os (ascii "socket(udp)") (λ n s. open_udp os n s) (io, true)))

before_bind-Tried : (os : Os) (io : Io) → Tried (before_bind os io)
before_bind-Tried os io =
    attempt-Tried os (ascii "setsockopt(SO_BROADCAST udp)") (λ n s. set_broadcast os n s true) _
      (attempt-Tried os (ascii "setsockopt(SO_REUSEADDR udp)")
        (λ n s. set_reuse_address os n s true) _
        (attempt-Tried os (ascii "socket(udp)") (λ n s. open_udp os n s) (io, true)
          (tried (λ (h : true ≡ false). absurd (cc)))))

ready-Tried : (os : Os) (io : Io) → Tried (make_ready os io)
unfolding make_ready
ready-Tried os io =
    attempt-Tried os (ascii "bind(udp)") (λ n s. bind os n s udp_port) (before_bind os io)
      (before_bind-Tried os io)

-- A socket that `bind` answered true for is open.
data Bound (r : Io × Bool) : Type 0 where
  bound : (r.1 ≡ true → is_negative r.0.udp.fd ≡ false) → Bound r

bind-Bound :
    (os : Os) (what : Bytes) (port : ℕ) (r : Io × Bool)
    → Bound (attempt os what (λ n s. bind os n s port) r)
unfolding attempt bind
bind-Bound os what port (io, false) = bound (λ (h : false ≡ true). absurd (cc))
bind-Bound os what port (io, true) = bound (λ h. ground (arith, h))

ready-Bound : (os : Os) (io : Io) → Bound (make_ready os io)
unfolding make_ready
ready-Bound os io = bind-Bound os (ascii "bind(udp)") udp_port (before_bind os io)

pub release_closed : (os : Os) (io : Io) → is_negative (release os io).udp.fd ≡ true
unfolding release close
release_closed os io = ground arith

presence_fd : (os : Os) (s : Services) → (first_presence os s).io.udp.fd ≡ s.io.udp.fd
unfolding first_presence send_presence_broadcast send_udp send_to
presence_fd os s = ground arith

address_silent : (os : Os) (io : Io) → sends (own_address os io).0.out ≡ sends io.out
unfolding own_address get_local_ipv4 ask_route ask_name sends
address_silent os io = ground arith

attempt_silent :
    (os : Os) (what : Bytes) (call : ℕ → UdpSocket → UdpSocket × Bool) (r : Io × Bool)
    → sends (attempt os what call r).0.out ≡ sends r.0.out
unfolding attempt sends
attempt_silent os what call (io, false) = refl
attempt_silent os what call (io, true) = ground arith

ready_silent : (os : Os) (io : Io) → sends (make_ready os io).0.out ≡ sends io.out
unfolding make_ready
ready_silent os io = simp (attempt_silent)

-- A start-up that exits, and one that logs in under the name `u`.
abbrev pub Exits : Started → Type 0
Exits x =
    (io : Io) × (x ≡ exited io)
    × Complained io
    × (sends io.out ≡ [])
    × (is_negative io.udp.fd ≡ true)

abbrev pub LogsIn : Bytes → Started → Type 0
LogsIn u x =
    (s : Services) × (x ≡ logged_in u s)
    × (is_negative s.io.udp.fd ≡ false)
    × (s.users.self_username ≡ u)
    × (s.discovery.username ≡ u)
    × (s.groups.username ≡ u)
    × (s.direct.self_username ≡ u)

with_socket_cases :
    (os : Os) (u : Bytes) (ip : ℕ) (r : Io × Bool)
    → Tried r
    → Bound r
    → sends r.0.out ≡ []
    → Exits (with_socket os u ip r) ⊎ LogsIn u (with_socket os u ip r)
unfolding with_socket release services greet
with_socket_cases os u ip (io, false) (tried c) o e =
    inl (release os io, refl, c refl, e, release_closed os io)
with_socket_cases os u ip (io, true) c (bound o) e =
    let s = services os u ip io in
    let s' : Services = record s { io = greet os u ip s.io } in
    inr (
      first_presence os s',
      refl,
      ap is_negative (presence_fd os s') ∙ o refl,
      refl,
      refl,
      refl,
      refl,
    )

with_address_cases :
    (os : Os) (u : Bytes) (r : Io × Option ℕ)
    → (r.1 ≡ none → Complained r.0)
    → sends r.0.out ≡ []
    → is_negative r.0.udp.fd ≡ true
    → Exits (with_address os u r) ⊎ LogsIn u (with_address os u r)
unfolding with_address
with_address_cases os u (io, none) c e n = inl (io, refl, c refl, e, n)
with_address_cases os u (io, some ip) c e n =
    with_socket_cases os u ip (make_ready os io) (ready-Tried os io) (ready-Bound os io)
      (ready_silent os io ∙ e)

-- The start-up exits: the newest of its effects is a complaint, nothing was sent and the shared socket
-- is not open. Or a user name is on the command line and is not empty without the blanks around it,
-- and the program goes on under it: the socket is open, and the directory, the discovery, the open
-- rooms and the private sessions carry that name.
pub start_up_cases :
    (os : Os) (argv : List Bytes)
    → Exits (start_up os argv)
      ⊎ ((p : Bytes) × (arg : Bytes) × (rest : List Bytes) × (argv ≡ p ∷ arg ∷ rest)
          × (is_empty (trim_in_place arg) ≡ false)
          × LogsIn (trim_in_place arg) (start_up os argv))
unfolding start_up read_username with_username sends
start_up_cases os [] = inl (_, refl, (_, [], refl), refl, refl)
start_up_cases os (p ∷ []) = inl (_, refl, (_, [], refl), refl, refl)
start_up_cases os (p ∷ arg ∷ rest) = elim (Bool-cases (is_empty (trim_in_place arg))) [
  | inl e ↦ inl (rw e (_, refl, (_, [], refl), refl, refl))
  | inr e ↦
      elim (with_address_cases os (trim_in_place arg) (own_address os fresh)
        (address_complains os fresh) (address_silent os fresh)
        (ap (λ (s : UdpSocket). is_negative s.fd) (address_socket os fresh))) [
          | inl x ↦ inl (rw e x)
          | inr l ↦ inr (p, arg, rest, refl, e, rw e l)
        ]
]
