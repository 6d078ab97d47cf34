-- ===== src/Io.antt =====
-- What the services share: the UDP socket, the number of system calls made so far, and what the
-- program has done that can be seen from outside. The methods of Logger that the services call
-- (oblig1_chattsystem/src/log/logger.cpp) stand here as values.
use nettverk.Prelude.{ℕ, ◌+◌, Bool, List, ◌∷◌, Bytes, ℤ}
use nettverk.Net.{SockAddr, Os}
use nettverk.UdpSocket.{UdpSocket, send_to}

-- One constructor for each method of `Logger` that writes a line.
pub data LogCall : Type 0 where
  info warn error : Bytes → LogCall
  sent_broadcast : Bytes → ℕ → ℕ → LogCall
  recv_broadcast : Bytes → SockAddr → ℕ → LogCall
  sent_multicast : Bytes → Bytes → ℕ → ℕ → LogCall
  recv_multicast : Bytes → SockAddr → ℕ → LogCall
  sent_unicast : Bytes → SockAddr → ℕ → LogCall
  recv_unicast : Bytes → SockAddr → ℕ → LogCall
  join_group : Bytes → ℕ → LogCall
  leave_group : Bytes → ℕ → LogCall
  parsing_error : Bytes → LogCall
  socket_error : Bytes → ℕ → LogCall

-- A call of `send_to` with its result, a call of the logger, a call of a callback, or a text written
-- to `std::cout` or to `std::cerr`.
pub data Effect : Type 0 where
  send : ℤ → Bytes → SockAddr → Bool → Effect
  log : LogCall → Effect
  status : Bytes → Effect
  private_message : Bytes → Bytes → Bytes → Effect
  group_message : Bytes → Bytes → Bytes → Effect
  lobby_message : Bytes → Bytes → Effect
  print print_error : Bytes → Effect

-- The newest effect stands first, and so does the newest descriptor that `::close` was called on.
pub record Io : Type 0 where
  pub udp : UdpSocket
  pub calls : ℕ
  pub out : List Effect
  pub closed : List ℤ

abbrev pub emit : Effect → Io → Io
emit e io = record io { out = e ∷ io.out }

-- `socket_->send_to(bytes, dest)` on the shared socket.
unfoldable pub send_udp : Os → Io → Bytes → SockAddr → Io × Bool
send_udp os io bytes dest =
    let (s, sent) = send_to os io.calls io.udp bytes dest in
    (
      record io { udp = s; calls = io.calls + 1; out = send io.udp.fd bytes dest sent ∷ io.out },
      sent,
    )
