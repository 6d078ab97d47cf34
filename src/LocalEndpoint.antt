-- ===== src/LocalEndpoint.antt =====
-- oblig1_chattsystem/src/net/local_endpoint.cpp: the machine's own address, and the text of an
-- address.
pub mod Outcome
use nettverk.Prelude.{
  ℕ, ◌+◌, Option, none, some, [], ◌∷◌, ◌++◌, Bytes, ascii, ℤ, is_negative, if◌then◌else◌,
}
use nettverk.Net.{Os, af_inet}
use nettverk.Io.{Io, print_error, emit}
use nettverk.Logger.{errno_message}

unfoldable pub format_ipv4 : Os → ℕ → Bytes
format_ipv4 os ip = elim (os.inet_ntop ip) [ none ↦ [] | some text ↦ text ]

-- `std::cerr << errno_message(what) << "\n"`
abbrev complain : Os → Bytes → ℕ → Io → Io
complain os what e io = emit (print_error (errno_message os what e ++ ascii "\n")) io

-- A system call more.
abbrev called : Io → Io
called io = record io { calls = io.calls + 1 }

-- `::close(s)`, whose answer is not read.
abbrev closed : ℤ → Io → Io
closed s io = record (called io) { closed = s ∷ io.closed }

-- `getsockname` on the connected socket, and the close that follows on both paths.
unfoldable pub ask_name : Os → ℤ → Io → Io × Option ℕ
ask_name os s io =
    let (a, name) = os.getsockname io.calls s in
    if is_negative a.result
    then (closed s (complain os (ascii "getsockname(get_local_ipv4)") a.errno (called io)), none)
    else (closed s (called io), some name.ip)

-- `connect` to the address that was read.
unfoldable pub ask_route : Os → ℤ → ℕ → Io → Io × Option ℕ
unfolding ask_name
ask_route os s ip io =
    let a =
      os.connect_socket io.calls s (record { family = af_inet; port = os.htons 53; ip = ip }) in
    if is_negative a.result
    then (closed s (complain os (ascii "connect(get_local_ipv4)") a.errno (called io)), none)
    else ask_name os s (called io)

-- The result is `none` where the function returns false.
unfoldable pub get_local_ipv4 : Os → Io → Io × Option ℕ
unfolding ask_route
get_local_ipv4 os io =
    let a = os.open_socket io.calls in
    if is_negative a.result
    then (complain os (ascii "socket(get_local_ipv4)") a.errno (called io), none)
    else elim (os.inet_pton (ascii "8.8.8.8")) [
      | none ↦ (
        closed a.result
            (emit (print_error (ascii "inet_pton(get_local_ipv4) feilet.\n")) (called io)),
        none,
      )
      | some ip ↦ ask_route os a.result ip (called io)
    ]
