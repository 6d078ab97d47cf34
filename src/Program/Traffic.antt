-- ===== src/Program/Traffic.antt =====
-- What a copy of the program says to others: the datagrams that it sends, and what it shows of theirs.
pub mod Rooms
pub mod Sessions
pub mod Threads
pub mod Typed
pub mod Signed
pub mod Whole
use nettverk.Prelude.{◌≡◌, ap, Bool, false, List, [], ◌∷◌, Bytes, ℤ, All, is_empty, subst, sym}
use nettverk.Net.{SockAddr}
use nettverk.Io.{
  Effect, send, log, status, private_message, group_message, lobby_message, print, print_error,
}
use nettverk.Secp.{SecpType, chat, build_secp_line}

-- The datagrams sent and the messages shown, without the log, the program's own texts and the reports
-- of a session's state.
unfoldable pub traffic : List Effect → List Effect
traffic [] = []
traffic (send fd line dest ok ∷ es) = send fd line dest ok ∷ traffic es
traffic (log l ∷ es) = traffic es
traffic (status m ∷ es) = traffic es
traffic (private_message r u t ∷ es) = private_message r u t ∷ traffic es
traffic (group_message r u t ∷ es) = group_message r u t ∷ traffic es
traffic (lobby_message u t ∷ es) = lobby_message u t ∷ traffic es
traffic (print t ∷ es) = traffic es
traffic (print_error t ∷ es) = traffic es

-- The line was built under the name `u`; the text of a chat message is one of `T`.
abbrev pub Signed : (Bytes → Type 0) → Bytes → Bytes → Type 0
Signed T u line =
    (t : SecpType) × (room : Bytes) × (payload : Bytes) × (line ≡ build_secp_line t room u payload)
    × (is_empty line ≡ false)
    × (t ≡ chat → T payload)

-- `Q` admits the datagrams whose lines are `Signed`.
abbrev pub Voice : (Bytes → Type 0) → Bytes → (Effect → Type 0) → Type 0
Voice T u Q =
    (fd : ℤ) (line : Bytes) (dest : SockAddr) (ok : Bool)
    → Signed T u line
    → Q (send fd line dest ok)

-- All that the traffic consists of is admitted.
abbrev pub Admits : (Effect → Type 0) → List Effect → Type 0
Admits Q es = All Q (traffic es)

pub Admits-same :
    (Q : Effect → Type 0) (es es' : List Effect)
    → traffic es' ≡ traffic es
    → Admits Q es
    → Admits Q es'
Admits-same Q es es' e h = subst (All Q) (sym e) h

-- A datagram under a name that is `u`.
pub speaks :
    (T : Bytes → Type 0) (u : Bytes) (Q : Effect → Type 0) (v : Voice T u Q) (name : Bytes)
    (t : SecpType) (r p : Bytes) (fd : ℤ) (dest : SockAddr) (ok : Bool)
    → name ≡ u
    → is_empty (build_secp_line t r name p) ≡ false
    → (t ≡ chat → T p)
    → Q (send fd (build_secp_line t r name p) dest ok)
speaks T u Q v name t r p fd dest ok e h typed =
    v fd _ dest ok (t, r, p, ap (λ n. build_secp_line t r n p) e, h, typed)
