-- ===== src/Logger.antt =====
-- oblig1_chattsystem/src/log/logger.cpp and its header, with include/chat/net/errno_util.hpp: which
-- text each call writes to `std::clog`. The local time is an argument, `strerror` a parameter.
pub mod Reading
pub mod Levels
use nettverk.Prelude.{
  ℕ, Option, none, some, [], ◌∷◌, ◌++◌, Bytes, utf8, ascii, to_string, ltb, if◌then◌else◌,
}
use nettverk.Net.{SockAddr, Os}
use nettverk.Io.{LogCall}

pub data LogLevel : Type 0 where
  info warn error : LogLevel

-- The number of a level in the enumeration.
abbrev pub severity : LogLevel → ℕ
severity LogLevel.info = 0
severity LogLevel.warn = 1
severity LogLevel.error = 2

pub record Logger : Type 0 where
  pub level : LogLevel

-- The logger as it is constructed.
abbrev pub new : Logger
new = record { level = LogLevel.info }

unfoldable pub set_level : Logger → LogLevel → Logger
set_level g lvl = record g { level = lvl }

-- `tm_hour`, `tm_min` and `tm_sec` of the local time.
pub record Tm : Type 0 where
  pub hour : ℕ
  pub min : ℕ
  pub sec : ℕ

unfoldable pub ipv4_port_string : Os → SockAddr → Bytes
ipv4_port_string os a =
    elim (os.inet_ntop a.ip) [ none ↦ ascii "?" | some ip ↦ ip ]
    ++ ascii ":"
    ++ to_string (os.ntohs a.port)

unfoldable pub level_name : LogLevel → Bytes
level_name LogLevel.info = ascii "INFO"
level_name LogLevel.warn = ascii "WARN"
level_name LogLevel.error = ascii "ERROR"

-- `std::setfill('0') << std::setw(2)` before a number.
unfoldable pub two_digits : ℕ → Bytes
two_digits n = if ltb n 10 then b'0' ∷ to_string n else to_string n

unfoldable pub timestamp_hhmmss : Tm → Bytes
unfolding two_digits
timestamp_hhmmss tm =
    two_digits tm.hour ++ ascii ":" ++ two_digits tm.min ++ ascii ":" ++ two_digits tm.sec

-- The method `log`: what it writes, where it writes.
unfoldable pub write : Logger → Tm → LogLevel → Bytes → Option Bytes
unfolding timestamp_hhmmss level_name
write g tm lvl msg =
    if ltb (severity lvl) (severity g.level)
    then none
    else some (
        ascii "["
        ++ timestamp_hhmmss tm
        ++ ascii "] ["
        ++ level_name lvl
        ++ ascii "] "
        ++ msg
        ++ ascii "\n")

unfoldable pub errno_string : Os → ℕ → Bytes
errno_string os e = elim (os.strerror e) [ none ↦ [] | some text ↦ text ]

unfoldable pub errno_message : Os → Bytes → ℕ → Bytes
unfolding errno_string
errno_message os what e =
    what ++ ascii ": errno=" ++ to_string e ++ ascii " (" ++ errno_string os e ++ ascii ")"

-- The level and the text that each method hands to `log`.
unfoldable pub entry : Os → LogCall → LogLevel × Bytes
unfolding ipv4_port_string errno_string
entry os (LogCall.info msg) = (LogLevel.info, msg)
entry os (LogCall.warn msg) = (LogLevel.warn, msg)
entry os (LogCall.error msg) = (LogLevel.error, msg)
entry os (LogCall.sent_broadcast what port bytes) = (
  LogLevel.info,
  ascii "send broadcast: "
      ++ what
      ++ ascii " port="
      ++ to_string port
      ++ ascii " bytes="
      ++ to_string bytes,
)
entry os (LogCall.sent_multicast what group_ip port bytes) = (
  LogLevel.info,
  ascii "send multicast: "
      ++ what
      ++ ascii " to="
      ++ group_ip
      ++ ascii ":"
      ++ to_string port
      ++ ascii " bytes="
      ++ to_string bytes,
)
entry os (LogCall.recv_broadcast what from bytes) = (
  LogLevel.info,
  ascii "recv broadcast: "
      ++ what
      ++ ascii " from="
      ++ ipv4_port_string os from
      ++ ascii " bytes="
      ++ to_string bytes,
)
entry os (LogCall.recv_multicast what from bytes) = (
  LogLevel.info,
  ascii "recv multicast: "
      ++ what
      ++ ascii " from="
      ++ ipv4_port_string os from
      ++ ascii " bytes="
      ++ to_string bytes,
)
entry os (LogCall.sent_unicast what to bytes) = (
  LogLevel.info,
  ascii "send unicast: "
      ++ what
      ++ ascii " to="
      ++ ipv4_port_string os to
      ++ ascii " bytes="
      ++ to_string bytes,
)
entry os (LogCall.recv_unicast what from bytes) = (
  LogLevel.info,
  ascii "recv unicast: "
      ++ what
      ++ ascii " from="
      ++ ipv4_port_string os from
      ++ ascii " bytes="
      ++ to_string bytes,
)
entry os (LogCall.join_group group_ip port) =
    (LogLevel.info, ascii "multicast join: " ++ group_ip ++ ascii ":" ++ to_string port)
entry os (LogCall.leave_group group_ip port) =
    (LogLevel.info, ascii "multicast leave: " ++ group_ip ++ ascii ":" ++ to_string port)
entry os (LogCall.parsing_error context) = (LogLevel.warn, ascii "parsing error: " ++ context)
entry os (LogCall.socket_error context e) = (
  LogLevel.error,
  ascii "socket error: "
      ++ context
      ++ utf8 " — errno="
      ++ to_string e
      ++ ascii " ("
      ++ errno_string os e
      ++ ascii ")",
)

unfoldable pub perform : Os → Logger → Tm → LogCall → Option Bytes
unfolding entry write
perform os g tm call = let (lvl, msg) = entry os call in write g tm lvl msg
