-- ===== src/Menu/Loop/Keeps/Rooms.antt =====
-- The choices of the menu for the lobby and the open rooms keep what their steps keep.
use nettverk.Prelude.{not, Option, none, some, Bytes, is_empty, ltb, if_holds, option_holds}
use nettverk.Net.{Os}
use nettverk.Groups.State.{active_room_id}
use nettverk.Menu.Console.{World, Menu}
use nettverk.Menu.Listings.{print_advertised_rooms}
use nettverk.Menu.Rooms.{
  say_to_lobby, lobby_answer, prompt_lobby_message, create_named, create_answer,
  prompt_create_group, join_named, join_answer, prompt_join_group, say_to_group, group_answer,
  prompt_group_chat, leave_group,
}
use nettverk.Menu.Loop.Keeps.{Keeps, Kept, kept}
use nettverk.Menu.Loop.Keeps.{error_keeps, line_keeps, read_keeps}

module _ (os : Os) (w : World) (username : Bytes) {P : Menu → Type 0}
    (k : Keeps os w username P) where
  pub say_to_lobby_keeps : (msg : Bytes) (m : Menu) → P m → P (say_to_lobby os username msg m)
  unfolding say_to_lobby
  say_to_lobby_keeps msg m p =
      if_holds P (not _) (error_keeps os w username k _ _ (k.chats m msg p))
        (k.puts _ _ (k.chats m msg p))

  pub lobby_keeps : (r : Menu × Option Bytes) → Kept P r → Kept P (lobby_answer os username r)
  unfolding lobby_answer
  lobby_keeps (m, none) (kept p) = kept p
  lobby_keeps (m, some msg) (kept p) = kept (
      if_holds P (is_empty msg) (line_keeps os w username k _ m p)
        (if_holds P (ltb _ _) (error_keeps os w username k _ m p) (say_to_lobby_keeps msg m p)))

  pub create_named_keeps : (name : Bytes) (m : Menu) → P m → P (create_named os name m)
  unfolding create_named
  create_named_keeps name m p =
      if_holds P (not _) (error_keeps os w username k _ _ (k.creates m name p)) (
        option_holds P (active_room_id _) (k.creates m name p)
          (λ id. line_keeps os w username k _ _ (k.creates m name p)))

  pub create_answer_keeps : (r : Menu × Option Bytes) → Kept P r → Kept P (create_answer os r)
  unfolding create_answer
  create_answer_keeps (m, none) (kept p) = kept p
  create_answer_keeps (m, some name) (kept p) = kept (
      if_holds P (is_empty name) (error_keeps os w username k _ m p)
        (if_holds P (ltb _ _) (error_keeps os w username k _ m p) (create_named_keeps name m p)))

  pub join_named_keeps : (name : Bytes) (m : Menu) → P m → P (join_named os w name m)
  unfolding join_named
  join_named_keeps name m p =
      if_holds P (not _) (error_keeps os w username k _ _ (k.joins m name _ p))
        (line_keeps os w username k _ _ (k.joins m name _ p))

  pub join_answer_keeps : (r : Menu × Option Bytes) → Kept P r → Kept P (join_answer os w r)
  unfolding join_answer
  join_answer_keeps (m, none) (kept p) = kept p
  join_answer_keeps (m, some name) (kept p) = kept (
      if_holds P (is_empty name) (error_keeps os w username k _ m p)
        (if_holds P (ltb _ _) (error_keeps os w username k _ m p) (join_named_keeps name m p)))

  pub say_to_group_keeps : (id msg : Bytes) (m : Menu) → P m → P (say_to_group os username id msg m)
  unfolding say_to_group
  say_to_group_keeps id msg m p =
      if_holds P (not _) (error_keeps os w username k _ _ (k.group_chats m msg p))
        (k.puts _ _ (k.group_chats m msg p))

  pub group_answer_keeps :
      (r : Menu × Option Bytes) → Kept P r → Kept P (group_answer os username r)
  unfolding group_answer
  group_answer_keeps (m, none) (kept p) = kept p
  group_answer_keeps (m, some msg) (kept p) = kept (
      if_holds P (is_empty msg) (line_keeps os w username k _ m p) (
        if_holds P (ltb _ _) (error_keeps os w username k _ m p) (
          option_holds P (active_room_id _) (error_keeps os w username k _ m p)
            (λ id. say_to_group_keeps id msg m p))))

  pub group_keeps : (m : Menu) → P m → Kept P (prompt_group_chat os w username m)
  unfolding prompt_group_chat
  group_keeps m p =
      if_holds (Kept P) (not _) (kept (error_keeps os w username k _ m p))
        (group_answer_keeps _ (read_keeps os w username k _ m p))

  pub leave_keeps : (m : Menu) → P m → P (leave_group os m)
  unfolding leave_group
  leave_keeps m p =
      if_holds P (not _) (error_keeps os w username k _ m p)
        (line_keeps os w username k _ _ (k.leaves m p))

  pub lobby_prompt_keeps : (m : Menu) → P m → Kept P (prompt_lobby_message os w username m)
  unfolding prompt_lobby_message
  lobby_prompt_keeps m p = lobby_keeps _ (read_keeps os w username k _ m p)

  pub create_keeps : (m : Menu) → P m → Kept P (prompt_create_group os w m)
  unfolding prompt_create_group
  create_keeps m p = create_answer_keeps _ (read_keeps os w username k _ m p)

  pub join_keeps : (m : Menu) → P m → Kept P (prompt_join_group os w m)
  unfolding prompt_join_group
  join_keeps m p = join_answer_keeps _ (read_keeps os w username k _ m p)

  pub listing_keeps : (m : Menu) → P m → P (print_advertised_rooms w m)
  unfolding print_advertised_rooms
  listing_keeps m p = k.puts _ _ (k.lists m _ p)
