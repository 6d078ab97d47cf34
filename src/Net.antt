-- ===== src/Net.antt =====
-- Addresses and the system calls that the program relies on. The calls are parameters of the model:
-- `Os` holds what the system answers. oblig1_chattsystem/include/chat/protocol/ports.hpp.
use nettverk.Prelude.{ℕ, ◌*◌, Bytes, Option, ℤ}

-- `sockaddr_in`: the port and the address as they stand in memory, in network byte order.
pub record SockAddr : Type 0 where
  pub family : ℕ
  pub port : ℕ
  pub ip : ℕ

-- What the calls of `sendto` in one loop over `EINTR` return: interruptions, finitely many, and
-- then a number of bytes or an error that is not `EINTR`.
pub data SendAnswer : Type 0 where
  interrupted : SendAnswer → SendAnswer
  sent : ℕ → SendAnswer
  failed : ℕ → SendAnswer

-- The same for `recvfrom`: the bytes received and the sender.
pub data RecvAnswer : Type 0 where
  interrupted : RecvAnswer → RecvAnswer
  received : Bytes → SockAddr → RecvAnswer
  failed : ℕ → RecvAnswer

-- A call that returns a descriptor, or a negative number with `errno`.
pub record SysAnswer : Type 0 where
  pub result : ℤ
  pub errno : ℕ

-- The calls `setsockopt` that the program makes, by the option that they set.
pub data SockOption : Type 0 where
  so_broadcast : ℕ → SockOption
  so_reuseaddr : ℕ → SockOption
  ip_add_membership : ℕ → ℕ → SockOption
  ip_drop_membership : ℕ → ℕ → SockOption
  ip_multicast_ttl : ℕ → SockOption
  ip_multicast_loop : ℕ → SockOption
  ip_multicast_if : ℕ → SockOption

-- The system. The first argument of a call is its number in the program's run, so that two equal
-- calls may be answered differently.
pub record Os : Type 0 where
  pub htons : ℕ → ℕ
  pub ntohs : ℕ → ℕ
  pub inet_ntop : ℕ → Option Bytes
  pub inet_pton : Bytes → Option ℕ
  pub open_socket : ℕ → SysAnswer
  pub close_socket : ℕ → ℤ → SysAnswer
  pub bind_socket : ℕ → ℤ → SockAddr → SysAnswer
  pub setsockopt : ℕ → ℤ → SockOption → SysAnswer
  pub connect_socket : ℕ → ℤ → SockAddr → SysAnswer
  pub getsockname : ℕ → ℤ → SysAnswer × SockAddr
  pub strerror : ℕ → Option Bytes
  pub sendto : ℕ → ℤ → Bytes → SockAddr → SendAnswer
  pub recvfrom : ℕ → ℤ → ℕ → RecvAnswer

abbrev pub udp_port : ℕ
udp_port = 50000

abbrev pub tcp_port : ℕ
tcp_port = 50001

abbrev pub af_inet : ℕ
af_inet = 2

-- `htonl(INADDR_BROADCAST)` and `htonl(INADDR_ANY)`: the same in both byte orders.
abbrev pub inaddr_broadcast : ℕ
inaddr_broadcast = 0xFFFFFFFF

abbrev pub inaddr_any : ℕ
inaddr_any = 0

abbrev pub ebadf : ℕ
ebadf = 9

abbrev pub emsgsize : ℕ
emsgsize = 90

abbrev pub eafnosupport : ℕ
eafnosupport = 97

-- Points and spans of the steady clock, in nanoseconds.
abbrev pub seconds : ℕ → ℕ
seconds n = n * 1000000000

abbrev pub milliseconds : ℕ → ℕ
milliseconds n = n * 1000000
