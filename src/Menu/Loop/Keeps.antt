-- ===== src/Menu/Loop/Keeps.antt =====
-- What every call of the menu on the services, every print and every wait for a line keep, the menu
-- keeps.
pub mod Rooms
pub mod Sessions
use nettverk.Prelude.{ℕ, Bytes}
use nettverk.Net.{Os}
use nettverk.Io.{Io, print, print_error}
use nettverk.Lobby.{send_chat}
use nettverk.Groups.State.{GroupRoomCoordinator, list_advertised_rooms}
use nettverk.Groups.Rooms.{create_room, join_room, leave_room}
use nettverk.Groups.Messages.{send_group_chat}
use nettverk.Direct.State.{DirectMessageService}
use nettverk.Direct.Commands.{invite_user, accept_invite, decline_invite, send_private_chat}
use nettverk.Menu.Console.{
  World, Menu, put, print_line, print_error_line, get_line, get_trimmed, read_trimmed_line,
}
use nettverk.Menu.Loop.{Round, again, returned}

-- The menu with other services, rooms, private sessions or effects.
abbrev pub with_rooms : Menu → GroupRoomCoordinator → Io → Menu
with_rooms m groups io = record m { services = record m.services { groups = groups; io = io } }

abbrev pub with_direct : Menu → DirectMessageService → Io → Menu
with_direct m direct io = record m { services = record m.services { direct = direct; io = io } }

abbrev pub with_effects : Menu → Io → Menu
with_effects m io = record m { services = record m.services { io = io } }

-- The steps that the menu is made of keep `P`.
pub record Keeps (os : Os) (w : World) (username : Bytes) (P : Menu → Type 0) : Type 0 where
  pub puts : (m : Menu) (text : Bytes) → P m → P (put (print text) m)
  pub complains : (m : Menu) (text : Bytes) → P m → P (put (print_error text) m)
  pub reads : (m : Menu) → P m → P (get_line w m).0
  pub chats :
      (m : Menu) (msg : Bytes)
      → P m
      → P (with_effects m (send_chat os m.services.lobby username msg m.services.io).0)
  pub lists :
      (m : Menu) (now : ℕ)
      → P m
      → P (with_rooms m (list_advertised_rooms m.services.groups now).0 m.services.io)
  pub creates :
      (m : Menu) (name : Bytes)
      → P m
      → let r = create_room os m.services.groups name m.services.io in P (with_rooms m r.0 r.1)
  pub joins :
      (m : Menu) (name : Bytes) (now : ℕ)
      → P m
      → let r = join_room os m.services.groups name now m.services.io in P (with_rooms m r.0 r.1)
  pub leaves :
      (m : Menu)
      → P m
      → let r = leave_room os m.services.groups m.services.io in P (with_rooms m r.0 r.1)
  pub group_chats :
      (m : Menu) (msg : Bytes)
      → P m
      → let r = send_group_chat os m.services.groups msg m.services.io in P (with_rooms m r.0 r.1)
  pub invites :
      (m : Menu) (who : Bytes) (random now : ℕ)
      → P m
      → let r = invite_user os m.services.users m.services.direct who random now m.services.io in
        P (with_direct m r.0 r.1)
  pub accepts :
      (m : Menu) (sid : Bytes) (now : ℕ)
      → P m
      → let r = accept_invite m.services.direct sid now m.services.io in P (with_direct m r.0 r.1)
  pub declines :
      (m : Menu) (sid reason : Bytes)
      → P m
      → let r = decline_invite m.services.direct sid reason m.services.io in
        P (with_direct m r.0 r.1)
  pub private_chats :
      (m : Menu) (sid msg : Bytes)
      → P m
      → P (with_effects m (send_private_chat os m.services.direct sid msg m.services.io).0)

-- `P` of what is left behind an answer.
pub data Kept (P : Menu → Type 0) {B : Type 0} (r : Menu × B) : Type 0 where
  kept : P r.0 → Kept P r

-- What a round leaves.
abbrev pub left : Round → Menu
left (again m) = m
left (returned m ok) = m

module _ (os : Os) (w : World) (username : Bytes) {P : Menu → Type 0}
    (k : Keeps os w username P) where
  pub line_keeps : (msg : Bytes) (m : Menu) → P m → P (print_line msg m)
  unfolding print_line
  line_keeps msg m p = k.puts m _ p

  pub error_keeps : (msg : Bytes) (m : Menu) → P m → P (print_error_line msg m)
  unfolding print_error_line
  error_keeps msg m p = k.complains m _ p

  pub trimmed_keeps : (m : Menu) → P m → Kept P (get_trimmed w m)
  unfolding get_trimmed
  trimmed_keeps m p = kept (k.reads m p)

  pub read_keeps : (prompt : Bytes) (m : Menu) → P m → Kept P (read_trimmed_line w prompt m)
  unfolding read_trimmed_line
  read_keeps prompt m p = trimmed_keeps (put (print prompt) m) (k.puts m _ p)
