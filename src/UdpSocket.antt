-- ===== src/UdpSocket.antt =====
-- oblig1_chattsystem/src/net/udp_socket.cpp and include/chat/net/udp_socket.hpp.
pub mod Descriptor
pub mod Ownership
use nettverk.Prelude.{
  ℕ, Bool, true, false, not, Option, none, some, List, [], ◌∷◌, Bytes, ℤ, pos, negsuc, is_negative,
  length, ltb, ◌==◌, if◌then◌else◌,
}
use nettverk.Net.{
  SockAddr, SendAnswer, RecvAnswer, SockOption, so_broadcast, so_reuseaddr, ip_add_membership,
  ip_drop_membership, ip_multicast_ttl, ip_multicast_loop, ip_multicast_if, Os, af_inet, inaddr_any,
  ebadf, emsgsize, eafnosupport,
}

pub record UdpSocket : Type 0 where
  pub fd : ℤ
  pub last_errno : ℕ

-- `UdpSocket() = default`
abbrev pub new : UdpSocket
new = record { fd = negsuc 0; last_errno = 0 }

-- Sets `last_errno_` and returns false.
abbrev pub refuse : UdpSocket → ℕ → UdpSocket × Bool
refuse s e = (record s { last_errno = e }, false)

abbrev pub succeed : UdpSocket → UdpSocket × Bool
succeed s = (record s { last_errno = 0 }, true)

-- `open`, with what its calls of `::socket` have returned.
unfoldable pub open_taking : Os → ℕ → UdpSocket → UdpSocket × Bool × List ℤ
open_taking os call s =
    if not (is_negative s.fd)
    then (s, true, [])
    else let a = os.open_socket call in
      if is_negative a.result
      then (record { fd = a.result; last_errno = a.errno }, false, a.result ∷ [])
      else (record { fd = a.result; last_errno = 0 }, true, a.result ∷ [])

unfoldable pub open_udp : Os → ℕ → UdpSocket → UdpSocket × Bool
unfolding open_taking
open_udp os call s = let (s', ok, taken) = open_taking os call s in (s', ok)

abbrev is_zero : ℤ → Bool
is_zero (pos n) = n == 0
is_zero (negsuc n) = false

-- `close`, with the descriptors that it calls `::close` on.
unfoldable pub close : Os → ℕ → UdpSocket → UdpSocket × List ℤ
close os call s =
    if not (is_negative s.fd)
    then (let a = os.close_socket call s.fd in
        (
          record {
            fd = negsuc 0;
            last_errno = if not (is_zero a.result) then a.errno else s.last_errno;
          },
          s.fd ∷ [],
        ))
    else (s, [])

-- `~UdpSocket()`: the descriptors that it calls `::close` on.
unfoldable pub destroy : Os → ℕ → UdpSocket → List ℤ
unfolding close
destroy os call s = (close os call s).1

unfoldable pub bind : Os → ℕ → UdpSocket → ℕ → UdpSocket × Bool
bind os call s port =
    if is_negative s.fd
    then refuse s ebadf
    else let addr : SockAddr = record { family = af_inet; port = os.htons port; ip = inaddr_any } in
      let a = os.bind_socket call s.fd addr in
      if is_negative a.result then refuse s a.errno else succeed s

-- The body that every `setsockopt` method shares.
unfoldable pub set_option : Os → ℕ → UdpSocket → SockOption → UdpSocket × Bool
set_option os call s option =
    if is_negative s.fd
    then refuse s ebadf
    else let a = os.setsockopt call s.fd option in
      if not (is_zero a.result) then refuse s a.errno else succeed s

abbrev flag : Bool → ℕ
flag enable = if enable then 1 else 0

unfoldable pub set_broadcast : Os → ℕ → UdpSocket → Bool → UdpSocket × Bool
unfolding set_option
set_broadcast os call s enable = set_option os call s (so_broadcast (flag enable))

unfoldable pub set_reuse_address : Os → ℕ → UdpSocket → Bool → UdpSocket × Bool
unfolding set_option
set_reuse_address os call s enable = set_option os call s (so_reuseaddr (flag enable))

-- The loop `do r = sendto(…); while (r < 0 && errno == EINTR)`, to its last result.
unfoldable pub send_loop : SendAnswer → ℤ × ℕ
send_loop (SendAnswer.interrupted a) = send_loop a
send_loop (SendAnswer.sent n) = (pos n, 0)
send_loop (SendAnswer.failed e) = (negsuc 0, e)

-- `std::numeric_limits<ssize_t>::max()`
abbrev pub ssize_max : ℕ
ssize_max = 9223372036854775807

-- What follows the loop.
unfoldable pub after_send : UdpSocket → ℕ → ℤ × ℕ → UdpSocket × Bool
after_send s n (pos r, e) = (record s { last_errno = 0 }, r == n)
after_send s n (negsuc r, e) = refuse s e

unfoldable pub send_to : Os → ℕ → UdpSocket → Bytes → SockAddr → UdpSocket × Bool
unfolding send_loop after_send
send_to os call s bytes dest =
    if is_negative s.fd
    then refuse s ebadf
    else if ltb ssize_max (length bytes)
    then refuse s emsgsize
    else after_send s (length bytes) (send_loop (os.sendto call s.fd bytes dest))

-- What `recv_from` leaves in the buffer and in `from`: nothing where it returns false.
abbrev pub Datagram : Type 0
Datagram = Option (Bytes × SockAddr)

unfoldable pub after_recv : UdpSocket → RecvAnswer → UdpSocket × Datagram
after_recv s (RecvAnswer.interrupted a) = after_recv s a
after_recv s (RecvAnswer.failed e) = (record s { last_errno = e }, none)
after_recv s (RecvAnswer.received bytes from) =
    if not (from.family == af_inet)
    then (record s { last_errno = eafnosupport }, none)
    else (record s { last_errno = 0 }, some (bytes, from))

unfoldable pub recv_from : Os → ℕ → UdpSocket → ℕ → UdpSocket × Datagram
unfolding after_recv
recv_from os call s size =
    if is_negative s.fd
    then (record s { last_errno = ebadf }, none)
    else after_recv s (os.recvfrom call s.fd size)

unfoldable pub multicast_add_membership : Os → ℕ → UdpSocket → ℕ → ℕ → UdpSocket × Bool
unfolding set_option
multicast_add_membership os call s group interface =
    set_option os call s (ip_add_membership group interface)

unfoldable pub multicast_drop_membership : Os → ℕ → UdpSocket → ℕ → ℕ → UdpSocket × Bool
unfolding set_option
multicast_drop_membership os call s group interface =
    set_option os call s (ip_drop_membership group interface)

-- The TTL is a `uint8_t`.
unfoldable pub set_multicast_ttl : Os → ℕ → UdpSocket → ℕ → UdpSocket × Bool
unfolding set_option
set_multicast_ttl os call s ttl = set_option os call s (ip_multicast_ttl ttl)

unfoldable pub set_multicast_loop : Os → ℕ → UdpSocket → Bool → UdpSocket × Bool
unfolding set_option
set_multicast_loop os call s enable = set_option os call s (ip_multicast_loop (flag enable))

unfoldable pub set_multicast_outbound_interface : Os → ℕ → UdpSocket → ℕ → UdpSocket × Bool
unfolding set_option
set_multicast_outbound_interface os call s interface =
    set_option os call s (ip_multicast_if interface)

-- `UdpSocket(UdpSocket&& other)`: the new socket, and what is left of the other.
unfoldable pub move : UdpSocket → UdpSocket × UdpSocket
move other = (record { fd = other.fd; last_errno = 0 }, record other { fd = negsuc 0 })

-- `operator=(UdpSocket&& other)` where `other` is another object: both, and the descriptors that
-- `::close` was called on.
unfoldable pub move_assign : Os → ℕ → UdpSocket → UdpSocket → UdpSocket × UdpSocket × List ℤ
unfolding close
move_assign os call s other =
    let (s', closed) = close os call s in
    (record s' { fd = other.fd }, record other { fd = negsuc 0 }, closed)
