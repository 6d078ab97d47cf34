-- ===== src/Examples.antt =====
-- The theorems at concrete inputs, and the inputs that they share.
mod Lines
mod Sessions
mod Rooms
mod Traffic
mod Copies
mod Menus
mod Crowd
mod Sockets
use nettverk.Prelude.{ℕ, some, [], Bytes, ascii, length, pos, negsuc}
use nettverk.Net.{SockAddr, Os, SendAnswer, RecvAnswer, af_inet}
use nettverk.Io.{Io}

abbrev pub kari : Bytes
kari = ascii "kari"

abbrev pub ola : Bytes
ola = ascii "ola"

abbrev pub hei : Bytes
hei = ascii "hei"

abbrev pub fjell : Bytes
fjell = ascii "fjell"

abbrev pub host : ℕ → SockAddr
host ip = record { family = af_inet; port = 50000; ip = ip }

-- A system where every call succeeds.
abbrev pub good_os : Os
good_os = record {
  htons = λ p. p;
  ntohs = λ p. p;
  inet_ntop = λ ip. some (ascii "10.0.0.1");
  inet_pton = λ text. some 7;
  open_socket = λ c. record { result = pos 5; errno = 0 };
  close_socket = λ c fd. record { result = pos 0; errno = 0 };
  bind_socket = λ c fd a. record { result = pos 0; errno = 0 };
  setsockopt = λ c fd o. record { result = pos 0; errno = 0 };
  connect_socket = λ c fd a. record { result = pos 0; errno = 0 };
  getsockname = λ c fd. (record { result = pos 0; errno = 0 }, host 1);
  strerror = λ e. some (ascii "error");
  sendto = λ c fd bytes a. SendAnswer.interrupted (SendAnswer.sent (length bytes));
  recvfrom = λ c fd size. RecvAnswer.failed 11;
}

-- A system that has no descriptor left.
abbrev pub full_os : Os
full_os = record good_os { open_socket = λ c. record { result = negsuc 0; errno = 24 } }

abbrev pub start_io : Io
start_io = record { udp = record { fd = pos 3; last_errno = 0 }; calls = 4; out = []; closed = [] }
