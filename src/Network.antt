-- ===== src/Network.antt =====
-- Several copies of the program on one network: what each does by itself, and the lines that reach it.
-- A copy is what oblig1_chattsystem/src/main.cpp constructs; the calls are those of
-- oblig1_chattsystem/src/app/text_menu.cpp and of the threads, in any order.
pub mod Acts
pub mod Hears
pub mod Integrity
pub mod Tracks
pub mod Agreement
use nettverk.Prelude.{ℕ, ◌≡◌, List, [], ◌∷◌, ◌++◌, Bytes, In, ◌==◌, if◌then◌else◌}
use nettverk.Net.{SockAddr, Os}
use nettverk.Io.{
  Effect, send, log, status, private_message, group_message, lobby_message, print, print_error,
}
use nettverk.Trim.{trim_in_place}
use nettverk.Lobby.{send_chat}
use nettverk.Groups.State.{list_advertised_rooms}
use nettverk.Groups.Rooms.{create_room, join_room, leave_room}
use nettverk.Groups.Messages.{send_group_chat}
use nettverk.Direct.Commands.{invite_user, accept_invite, decline_invite, send_private_chat}
use nettverk.Receive.{Services, handle_datagram}
use nettverk.Program.{first_presence}
use nettverk.Program.Threads.{Turn, heartbeat, group_advert}
use nettverk.Program.Traffic.{traffic}
use nettverk.Program.Traffic.Threads.{Named}

-- A call that the menu makes, the first presence, or a turn of a thread that does not receive. The
-- clock and the random numbers are arguments.
pub data Call : Type 0 where
  says_first : Call
  says_lobby : Bytes → Call
  lists_rooms : ℕ → Call
  creates_room : Bytes → Call
  joins_room : Bytes → ℕ → Call
  leaves_room : Call
  says_group : Bytes → Call
  invites : Bytes → ℕ → ℕ → Call
  accepts : Bytes → ℕ → Call
  declines : Bytes → Bytes → Call
  says_private : Bytes → Bytes → Call
  beats : Turn → Call
  announces : Turn → Call

-- The call, by the user of the name.
unfoldable pub act : Os → Bytes → Services → Call → Services
unfolding first_presence send_chat list_advertised_rooms create_room join_room leave_room
    send_group_chat invite_user accept_invite decline_invite send_private_chat heartbeat
    group_advert
act os u s says_first = first_presence os s
act os u s (says_lobby text) = record s { io = (send_chat os s.lobby u text s.io).0 }
act os u s (lists_rooms now) = record s { groups = (list_advertised_rooms s.groups now).0 }
act os u s (creates_room name) =
    let (groups, io, ok) = create_room os s.groups name s.io in
    record s { groups = groups; io = io }
act os u s (joins_room name now) =
    let (groups, io, ok) = join_room os s.groups name now s.io in
    record s { groups = groups; io = io }
act os u s leaves_room =
    let (groups, io) = leave_room os s.groups s.io in record s { groups = groups; io = io }
act os u s (says_group text) =
    let (groups, io, ok) = send_group_chat os s.groups text s.io in
    record s { groups = groups; io = io }
act os u s (invites who random now) =
    let (direct, io, sid) = invite_user os s.users s.direct who random now s.io in
    record s { direct = direct; io = io }
act os u s (accepts sid now) =
    let (direct, io, ok) = accept_invite s.direct sid now s.io in
    record s { direct = direct; io = io }
act os u s (declines sid reason) =
    let (direct, io, ok) = decline_invite s.direct sid reason s.io in
    record s { direct = direct; io = io }
act os u s (says_private sid text) = record s {
  io = (send_private_chat os s.direct sid text s.io).0;
}
act os u s (beats t) = heartbeat os t s
act os u s (announces t) = group_advert os t s

-- The lines of all that copy `i` has sent, whether `sendto` failed or not, each with its number.
unfoldable pub lines_sent : ℕ → List Effect → List (ℕ × Bytes)
lines_sent i [] = []
lines_sent i (send fd line dest ok ∷ es) = (i, line) ∷ lines_sent i es
lines_sent i (log l ∷ es) = lines_sent i es
lines_sent i (status m ∷ es) = lines_sent i es
lines_sent i (private_message r u t ∷ es) = lines_sent i es
lines_sent i (group_message r u t ∷ es) = lines_sent i es
lines_sent i (lobby_message u t ∷ es) = lines_sent i es
lines_sent i (print t ∷ es) = lines_sent i es
lines_sent i (print_error t ∷ es) = lines_sent i es

-- The text of a chat message that the call may send: what was typed, without the blanks around it.
abbrev pub Texts : Call → Bytes → Type 0
Texts (says_lobby text) payload = payload ≡ trim_in_place text
Texts (says_group text) payload = payload ≡ trim_in_place text
Texts (says_private sid text) payload = payload ≡ trim_in_place text
Texts _ payload = ⊥

-- The copies by number, every line that was ever sent, with the number of its sender, and every call,
-- with the number of the copy that made it.
pub record Network : Type 0 where
  pub copies : ℕ → Services
  pub wires : List (ℕ × Bytes)
  pub made : List (ℕ × Call)

abbrev pub update : (ℕ → Services) → ℕ → Services → ℕ → Services
update f i s j = if i == j then s else f j

-- A copy makes a call, and what it has sent is on the wires.
unfoldable pub after_act : Os → Bytes → Network → ℕ → Call → Network
unfolding act lines_sent
after_act os u net i c =
    let s = act os u (net.copies i) c in
    record {
      copies = update net.copies i s;
      wires = net.wires ++ lines_sent i s.io.out;
      made = (i, c) ∷ net.made;
    }

-- A copy gets a line.
unfoldable pub after_hearing : Os → Network → ℕ → Bytes → Bytes → SockAddr → ℕ → ℕ → Network
unfolding handle_datagram
after_hearing os net i label line from now later = record net {
  copies = update net.copies i (handle_datagram os label (net.copies i) line from now later);
}

-- The system under each copy, and the user name of each.
module _ (os : ℕ → Os) (names : ℕ → Bytes) where
  -- A line from the wires may be lost, arrive late, several times, at any copy and from any address.
  pub data Step (net : Network) : Network → Type 0 where
    acts : (i : ℕ) (c : Call) → Step net (after_act (os i) (names i) net i c)
    hears :
        (i sender : ℕ) (label line : Bytes) (from : SockAddr) (now later : ℕ)
        → In (sender, line) net.wires
        → Step net (after_hearing (os i) net i label line from now later)

  -- No copy has sent or shown anything or has a session yet, and each carries its user's name.
  pub record IsFresh (net : Network) : Type 0 where
    pub named : (i : ℕ) → Named (names i) (net.copies i)
    pub quiet : (i : ℕ) → traffic (net.copies i).io.out ≡ []
    pub alone : (i : ℕ) → (net.copies i).direct.sessions ≡ []
    pub clear : net.wires ≡ []
    -- `main` trims the name.
    pub trimmed : (i : ℕ) → trim_in_place (names i) ≡ names i

  pub data Reach (start : Network) : Network → Type 0 where
    here : Reach start start
    next : {net net' : Network} → Reach start net → Step net net' → Reach start net'
