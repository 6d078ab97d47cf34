-- ===== src/Program/Traffic/Signed.antt =====
-- Datagrams whose lines were built under one name: of all effects, only the datagrams matter.
use nettverk.Prelude.{◌≡◌, refl, sym, ap, ◌∙◌, some, List, [], ◌∷◌, Bytes, All, is_empty}
use nettverk.Io.{
  Effect, send, log, status, private_message, group_message, lobby_message, print, print_error,
}
use nettverk.Secp.{SecpMessage, parse_secp_line}
use nettverk.Secp.RoundTrip.{parse-build, build-filled_iff}
use nettverk.Receive.Silence.{sends}
use nettverk.Program.Traffic.{traffic, Signed, Voice}

abbrev pub Anything : Bytes → Type 0
Anything text = Unit

-- A datagram has a line that was built under the name `u`.
abbrev pub IsSigned : Bytes → Effect → Type 0
IsSigned u (send fd line dest ok) = Signed Anything u line
IsSigned u _ = Unit

pub IsSigned-voice : (u : Bytes) → Voice Anything u (IsSigned u)
IsSigned-voice u fd line dest ok s = s

-- Only the datagrams matter.
pub IsSigned-sends :
    (u : Bytes) (es : List Effect) → All (IsSigned u) (traffic es) → All (IsSigned u) (sends es)
unfolding traffic sends
IsSigned-sends u [] h = tt
IsSigned-sends u (send fd line dest ok ∷ es) h = (h.0, IsSigned-sends u es h.1)
IsSigned-sends u (log l ∷ es) h = IsSigned-sends u es h
IsSigned-sends u (status m ∷ es) h = IsSigned-sends u es h
IsSigned-sends u (private_message r n t ∷ es) h = IsSigned-sends u es h.1
IsSigned-sends u (group_message r n t ∷ es) h = IsSigned-sends u es h.1
IsSigned-sends u (lobby_message n t ∷ es) h = IsSigned-sends u es h.1
IsSigned-sends u (print t ∷ es) h = IsSigned-sends u es h
IsSigned-sends u (print_error t ∷ es) h = IsSigned-sends u es h

pub IsSigned-traffic :
    (u : Bytes) (es : List Effect) → All (IsSigned u) (sends es) → All (IsSigned u) (traffic es)
unfolding traffic sends
IsSigned-traffic u [] h = tt
IsSigned-traffic u (send fd line dest ok ∷ es) h = (h.0, IsSigned-traffic u es h.1)
IsSigned-traffic u (log l ∷ es) h = IsSigned-traffic u es h
IsSigned-traffic u (status m ∷ es) h = IsSigned-traffic u es h
IsSigned-traffic u (private_message r n t ∷ es) h = (tt, IsSigned-traffic u es h)
IsSigned-traffic u (group_message r n t ∷ es) h = (tt, IsSigned-traffic u es h)
IsSigned-traffic u (lobby_message n t ∷ es) h = (tt, IsSigned-traffic u es h)
IsSigned-traffic u (print t ∷ es) h = IsSigned-traffic u es h
IsSigned-traffic u (print_error t ∷ es) h = IsSigned-traffic u es h

-- A datagram whose line reads back as a message of the user `u`.
abbrev pub IsFrom : Bytes → Effect → Type 0
IsFrom u (send fd line dest ok) =
    (msg : SecpMessage) × (parse_secp_line line ≡ some msg) × (msg.username ≡ u)
IsFrom u _ = Unit

pub signed-IsFrom :
    (u : Bytes) (es : List Effect) → All (IsSigned u) (sends es) → All (IsFrom u) (sends es)
unfolding sends
signed-IsFrom u [] h = tt
signed-IsFrom u (send fd line dest ok ∷ es) ((t, r, p, e, f, x), h) =
    let (known, fields) = (build-filled_iff t r u p).0 (ap is_empty (sym e) ∙ f) in
    (
      (
        record { type = t; room = r; username = u; payload = p },
        ap parse_secp_line e ∙ (parse-build t r u p known fields).1,
        refl,
      ),
      signed-IsFrom u es h,
    )
signed-IsFrom u (log l ∷ es) h = signed-IsFrom u es h
signed-IsFrom u (status m ∷ es) h = signed-IsFrom u es h
signed-IsFrom u (private_message r n t ∷ es) h = signed-IsFrom u es h
signed-IsFrom u (group_message r n t ∷ es) h = signed-IsFrom u es h
signed-IsFrom u (lobby_message n t ∷ es) h = signed-IsFrom u es h
signed-IsFrom u (print t ∷ es) h = signed-IsFrom u es h
signed-IsFrom u (print_error t ∷ es) h = signed-IsFrom u es h
