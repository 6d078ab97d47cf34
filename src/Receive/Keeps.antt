-- ===== src/Receive/Keeps.antt =====
-- What every part of the receive loop keeps, the loop keeps.
use nettverk.Prelude.{
  ℕ, ◌+◌, ◌≡◌, true, false, none, some, List, [], ◌∷◌, Bytes, ℤ, arith, subst, sym, Bool-cases,
  Option-cases, length, ltb, ◌==◌, ◌||◌, ◌&&◌, not, inl, inr,
}
use nettverk.Net.{SockAddr, Os}
use nettverk.UdpSocket.{UdpSocket, Datagram, recv_from}
use nettverk.UdpSocket.Descriptor.{recv_from-fd}
use nettverk.Io.{LogCall, log, emit}
use nettverk.Secp.{SecpMessage, parse_secp_line, max_packet_bytes}
use nettverk.Groups.State.{multicast_fd}
use nettverk.Groups.Messages.{recv_multicast_datagram}
use nettverk.Receive.{
  Services, same_fd, dispatch, handle_datagram, read_udp, take_udp, take_multicast, read_multicast,
  read_fd, Ready, Polled, interrupted, failed, ready, visit_fd, visit, poll_fds,
  run_receive_multiplex_loop,
}

-- The shared socket after a call.
abbrev pub with_udp : Services → UdpSocket → Services
with_udp s udp = record s { io = record s.io { udp = udp; calls = s.io.calls + 1 } }

-- The multicast socket after a call.
abbrev pub with_multicast : Services → UdpSocket → Services
with_multicast s sk = record s {
  groups = record s.groups { mcast_sock = some sk };
  io = record s.io { calls = s.io.calls + 1 };
}

abbrev pub logged : Services → LogCall → Services
logged s l = record s { io = emit (log l) s.io }

-- The steps that the loop is made of keep `P`.
pub record Keeps (os : Os) (P : Services → Type 0) : Type 0 where
  pub logs : (s : Services) (l : LogCall) → P s → P (logged s l)
  pub calls : (s : Services) (udp : UdpSocket) → udp.fd ≡ s.io.udp.fd → P s → P (with_udp s udp)
  pub takes :
      (s : Services) (sk sk' : UdpSocket)
      → s.groups.mcast_sock ≡ some sk
      → P s
      → P (with_multicast s sk')
  pub handles :
      (s : Services) (msg : SecpMessage) (from : SockAddr) (now later : ℕ)
      → P s
      → P (dispatch os s msg from now later)

module _ (os : Os) {P : Services → Type 0} (k : Keeps os P) where
  handle_datagram_keeps :
      (label : Bytes) (s : Services) (line : Bytes) (from : SockAddr) (now later : ℕ)
      → P s
      → P (handle_datagram os label s line from now later)
  unfolding handle_datagram
  handle_datagram_keeps label s line from now later p =
      elim (Bool-cases ((length line == 0) || ltb max_packet_bytes (length line))) [
        | inl h ↦ rw h p
        | inr h ↦ rw h (elim (Option-cases (parse_secp_line line)) [
          | inl e ↦ rw e (k.logs _ _ (k.logs s _ p))
          | inr (msg, e) ↦ rw e (k.handles _ msg from now later (k.logs s _ p))
        ])
      ]

  take_udp_keeps :
      (s : Services) (r : UdpSocket × Datagram) (now later : ℕ)
      → r.0.fd ≡ s.io.udp.fd
      → P s
      → P (take_udp os s r now later)
  unfolding take_udp
  take_udp_keeps s (udp, none) now later f p = elim (Bool-cases (udp.last_errno == 0)) [
    | inl h ↦ rw h (k.calls s udp f p)
    | inr h ↦ rw h (k.logs _ _ (k.calls s udp f p))
  ]
  take_udp_keeps s (udp, some (line, from)) now later f p =
      handle_datagram_keeps _ _ line from now later (k.calls s udp f p)

  read_udp_keeps : (s : Services) (now later : ℕ) → P s → P (read_udp os s now later)
  unfolding read_udp
  read_udp_keeps s now later p =
      take_udp_keeps s (recv_from os s.io.calls s.io.udp max_packet_bytes) now later
        (recv_from-fd os s.io.calls s.io.udp max_packet_bytes) p

  -- Behind a socket that is held.
  take_multicast_keeps :
      (s : Services) (sk sk' : UdpSocket) (d : Datagram) (now later : ℕ)
      → s.groups.mcast_sock ≡ some sk
      → P s
      → P (
          take_multicast os s
            (record s.groups { mcast_sock = some sk' }, record s.io { calls = s.io.calls + 1 }, d)
            now
            later)
  unfolding take_multicast
  take_multicast_keeps s sk sk' none now later e p = k.takes s sk sk' e p
  take_multicast_keeps s sk sk' (some (line, from)) now later e p =
      handle_datagram_keeps _ _ line from now later (k.takes s sk sk' e p)

  -- Without a socket nothing is read.
  no_multicast :
      (s : Services)
      → s.groups.mcast_sock ≡ none
      → recv_multicast_datagram os s.groups max_packet_bytes s.io ≡ (s.groups, s.io, none)
  unfolding recv_multicast_datagram
  no_multicast s e = ground arith

  held_multicast :
      (s : Services) (sk : UdpSocket)
      → s.groups.mcast_sock ≡ some sk
      → let r = recv_from os s.io.calls sk max_packet_bytes in
        recv_multicast_datagram os s.groups max_packet_bytes s.io
        ≡ (record s.groups { mcast_sock = some r.0 }, record s.io { calls = s.io.calls + 1 }, r.1)
  unfolding recv_multicast_datagram
  held_multicast s sk e = ground arith

  read_multicast_keeps : (s : Services) (now later : ℕ) → P s → P (read_multicast os s now later)
  unfolding read_multicast
  read_multicast_keeps s now later p = elim (Option-cases s.groups.mcast_sock) [
    | inl e ↦
        subst (λ r. P (take_multicast os s r now later)) (sym (no_multicast s e))
          (unfold take_multicast in p)
    | inr (sk, e) ↦
        subst (λ r. P (take_multicast os s r now later)) (sym (held_multicast s sk e))
          (take_multicast_keeps s sk _ _ now later e p)
  ]

  read_fd_keeps : (s : Services) (mfd fd : ℤ) (r : Ready) → P s → P (read_fd os s mfd fd r)
  unfolding read_fd
  read_fd_keeps s mfd fd r p = elim (Bool-cases (same_fd fd s.io.udp.fd)) [
    | inl e ↦ rw e (read_udp_keeps s r.now r.later p)
    | inr e ↦ rw e (elim (Bool-cases (same_fd fd mfd)) [
      | inl e' ↦ rw e' (read_multicast_keeps s r.now r.later p)
      | inr e' ↦ rw e' p
    ])
  ]

  visit_fd_keeps : (mfd fd : ℤ) (r : Ready) (s : Services) → P s → P (visit_fd os mfd fd r s)
  unfolding visit_fd
  visit_fd_keeps mfd fd r s p = elim (Bool-cases r.error) [
    | inl h ↦ rw h p
    | inr h ↦ rw h (elim (Bool-cases r.readable) [
      | inl h' ↦ rw h' (read_fd_keeps s mfd fd r p)
      | inr h' ↦ rw h' p
    ])
  ]

  visit_keeps :
      (mfd : ℤ) (fds : List ℤ) (rs : List Ready) (s : Services) → P s → P (visit os mfd fds rs s)
  unfolding visit
  visit_keeps mfd [] rs s p = p
  visit_keeps mfd (fd ∷ fds) [] s p = p
  visit_keeps mfd (fd ∷ fds) (r ∷ rs) s p =
      let rest = visit_keeps mfd fds rs (visit_fd os mfd fd r s) (visit_fd_keeps mfd fd r s p) in
      elim (r.error && not r.running)
        as (λ b. P (elim b [ true ↦ s | false ↦ visit os mfd fds rs (visit_fd os mfd fd r s) ])) [
          | true ↦ p
          | false ↦ rest
        ]

  pub loop_keeps : (ps : List Polled) (s : Services) → P s → P (run_receive_multiplex_loop os ps s)
  unfolding run_receive_multiplex_loop
  loop_keeps [] s p = p
  loop_keeps (interrupted ∷ ps) s p = loop_keeps ps s p
  loop_keeps (failed e ∷ ps) s p = k.logs s _ p
  loop_keeps (ready rs ∷ ps) s p =
      loop_keeps ps _ (visit_keeps (multicast_fd s.groups) (poll_fds s) rs s p)
