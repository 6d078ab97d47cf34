-- ===== src/Menu/Loop/Answers.antt =====
-- What the menu's prompts answer at the end of the input.
use nettverk.Prelude.{
  ℕ, ◌≡◌, refl, Bool, true, false, not, Option, none, some, [], Bytes, ascii, is_empty, if_holds,
  option_holds, arith, ltb, length, bytes_eq, ◌||◌, ◌==◌,
}
use nettverk.Net.{Os}
use nettverk.Io.{print}
use nettverk.Groups.State.{has_active_membership}
use nettverk.Direct.Upkeep.{snapshot_pending_invites, snapshot_active_sessions}
use nettverk.Menu.Choice.{parse_menu_choice}
use nettverk.Menu.Console.{
  World, Menu, put, get_line, get_trimmed, read_trimmed_line, print_error_line,
}
use nettverk.Menu.Rooms.{
  lobby_answer, prompt_lobby_message, create_answer, prompt_create_group, join_answer,
  prompt_join_group, group_answer, prompt_group_chat,
}
use nettverk.Menu.Sessions.{
  invite_answer, prompt_invite, decline_reason, reply_answer, reply_session, prompt_reply,
  private_text, private_session, prompt_private,
}
use nettverk.Menu.Loop.{Round, again, returned, unless_ended, choose, read_choice, round}
use nettverk.Menu.Listings.{print_menu}

-- No line is left where none was read.
data Read (r : Menu × Option Bytes) : Type 0 where
  taken : (r.1 ≡ none → r.0.input ≡ []) → Read r

-- No line is left where the answer is false.
data Answered (r : Menu × Bool) : Type 0 where
  answered : (r.1 ≡ false → r.0.input ≡ []) → Answered r

get_trimmed-Read : (w : World) (m : Menu) → Read (get_trimmed w m)
unfolding get_trimmed get_line
get_trimmed-Read w m = taken (λ h. ground (arith, h))

read_trimmed_line-Read :
    (w : World) (prompt : Bytes) (m : Menu) → Read (read_trimmed_line w prompt m)
unfolding read_trimmed_line
read_trimmed_line-Read w prompt m = get_trimmed-Read w (put (print prompt) m)

yes-Answered : {m : Menu} → Answered (m, true)
yes-Answered = answered (λ (h : true ≡ false). absurd (cc))

lobby-Answered :
    (os : Os) (u : Bytes) (r : Menu × Option Bytes) → Read r → Answered (lobby_answer os u r)
unfolding lobby_answer
lobby-Answered os u (m, none) (taken e) = answered (λ h. e refl)
lobby-Answered os u (m, some msg) t = yes-Answered

create-Answered : (os : Os) (r : Menu × Option Bytes) → Read r → Answered (create_answer os r)
unfolding create_answer
create-Answered os (m, none) (taken e) = answered (λ h. e refl)
create-Answered os (m, some name) t = yes-Answered

join-Answered :
    (os : Os) (w : World) (r : Menu × Option Bytes) → Read r → Answered (join_answer os w r)
unfolding join_answer
join-Answered os w (m, none) (taken e) = answered (λ h. e refl)
join-Answered os w (m, some name) t = yes-Answered

group-Answered :
    (os : Os) (u : Bytes) (r : Menu × Option Bytes) → Read r → Answered (group_answer os u r)
unfolding group_answer
group-Answered os u (m, none) (taken e) = answered (λ h. e refl)
group-Answered os u (m, some msg) t = yes-Answered

invite-Answered :
    (os : Os) (w : World) (r : Menu × Option Bytes) → Read r → Answered (invite_answer os w r)
unfolding invite_answer
invite-Answered os w (m, none) (taken e) = answered (λ h. e refl)
invite-Answered os w (m, some who) t = yes-Answered

reason-Answered : (sid : Bytes) (r : Menu × Option Bytes) → Read r → Answered (decline_reason sid r)
unfolding decline_reason
reason-Answered sid (m, none) (taken e) = answered (λ h. e refl)
reason-Answered sid (m, some reason) t = yes-Answered

reply_answer-Answered :
    (w : World) (sid : Bytes) (r : Menu × Option Bytes) → Read r → Answered (reply_answer w sid r)
unfolding reply_answer
reply_answer-Answered w sid (m, none) (taken e) = answered (λ h. e refl)
reply_answer-Answered w sid (m, some ans) t =
    if_holds Answered (bytes_eq ans (ascii "a") || bytes_eq ans (ascii "A")) yes-Answered (
      if_holds Answered (bytes_eq ans (ascii "d") || bytes_eq ans (ascii "D"))
        (reason-Answered sid _ (read_trimmed_line-Read w _ m)) yes-Answered)

reply_session-Answered :
    (w : World) (r : Menu × Option Bytes) → Read r → Answered (reply_session w r)
unfolding reply_session
reply_session-Answered w (m, none) (taken e) = answered (λ h. e refl)
reply_session-Answered w (m, some sid) t = if_holds Answered (is_empty sid) yes-Answered (
    if_holds Answered (ltb 32 (length sid)) yes-Answered
      (reply_answer-Answered w sid _ (read_trimmed_line-Read w _ m)))

private_text-Answered :
    (os : Os) (u sid : Bytes) (r : Menu × Option Bytes)
    → Read r
    → Answered (private_text os u sid r)
unfolding private_text
private_text-Answered os u sid (m, none) (taken e) = answered (λ h. e refl)
private_text-Answered os u sid (m, some msg) t = yes-Answered

private_session-Answered :
    (os : Os) (w : World) (u : Bytes) (r : Menu × Option Bytes)
    → Read r
    → Answered (private_session os w u r)
unfolding private_session
private_session-Answered os w u (m, none) (taken e) = answered (λ h. e refl)
private_session-Answered os w u (m, some sid) t = if_holds Answered (is_empty sid) yes-Answered (
    if_holds Answered (ltb 32 (length sid)) yes-Answered
      (private_text-Answered os u sid _ (read_trimmed_line-Read w _ m)))

-- A round that returns false has come to the end of the input.
data Final (x : Round) : Type 0 where
  final : ((m : Menu) → x ≡ returned m false → m.input ≡ []) → Final x

again-Final : {m : Menu} → Final (again m)
again-Final = final (λ m' h. absurd (cc))

quit-Final : {m : Menu} → Final (returned m true)
quit-Final = final (λ m' h. absurd (cc))

unless-Final : (r : Menu × Bool) → Answered r → Final (unless_ended r)
unless-Final (m, true) t = again-Final
unless-Final (m, false) (answered e) = final (λ m' h. cc (e refl, h))

group-prompt-Answered :
    (os : Os) (w : World) (u : Bytes) (m : Menu) → Answered (prompt_group_chat os w u m)
unfolding prompt_group_chat
group-prompt-Answered os w u m =
    if_holds Answered (not (has_active_membership m.services.groups)) yes-Answered
      (group-Answered os u _ (read_trimmed_line-Read w _ m))

reply-Answered : (w : World) (m : Menu) → Answered (prompt_reply w m)
unfolding prompt_reply
reply-Answered w m =
    if_holds Answered (is_empty (snapshot_pending_invites m.services.direct)) yes-Answered
      (reply_session-Answered w _ (read_trimmed_line-Read w _ _))

private-Answered : (os : Os) (w : World) (u : Bytes) (m : Menu) → Answered (prompt_private os w u m)
unfolding prompt_private
private-Answered os w u m =
    if_holds Answered (is_empty (snapshot_active_sessions os m.services.direct)) yes-Answered
      (private_session-Answered os w u _ (read_trimmed_line-Read w _ _))

module _ (os : Os) (w : World) (u : Bytes) (m : Menu) where
  choose-Final : (choice : ℕ) → Final (choose os w u choice m)
  unfolding choose prompt_lobby_message prompt_create_group prompt_join_group prompt_invite
  choose-Final choice = if_holds Final (choice == 1) again-Final (
      if_holds Final (choice == 2)
        (unless-Final _ (lobby-Answered os u _ (read_trimmed_line-Read w _ m)))
        (if_holds Final (choice == 3)
          (unless-Final _ (create-Answered os _ (read_trimmed_line-Read w _ m)))
          (if_holds Final (choice == 4) again-Final (
            if_holds Final (choice == 5)
              (unless-Final _ (join-Answered os w _ (read_trimmed_line-Read w _ m)))
              (if_holds Final (choice == 6) (unless-Final _ (group-prompt-Answered os w u m)) (
                if_holds Final (choice == 7) again-Final (
                  if_holds Final (choice == 8)
                    (unless-Final _ (invite-Answered os w _ (read_trimmed_line-Read w _ m)))
                    (if_holds Final (choice == 9) (unless-Final _ (reply-Answered w m)) (
                      if_holds Final (choice == 10) (unless-Final _ (private-Answered os w u m)) (
                        if_holds Final (choice == 11) again-Final
                          (if_holds Final (choice == 12) quit-Final again-Final)))))))))))

read_choice-Final :
    (os : Os) (w : World) (u : Bytes) (r : Menu × Option Bytes)
    → Read r
    → Final (read_choice os w u r)
unfolding read_choice print_error_line put
read_choice-Final os w u (m, none) (taken e) = final (λ m' h. cc (e refl, h))
read_choice-Final os w u (m, some line) t =
    option_holds Final (parse_menu_choice line) again-Final (λ choice. choose-Final os w u m choice)

round-Final : (os : Os) (w : World) (u : Bytes) (m : Menu) → Final (round os w u m)
unfolding round
round-Final os w u m = read_choice-Final os w u _ (get_trimmed-Read w (print_menu m))

-- A round that returns false leaves no line of the input.
pub round-false :
    (os : Os) (w : World) (u : Bytes) (m m' : Menu)
    → round os w u m ≡ returned m' false
    → m'.input ≡ []
round-false os w u m m' h = elim (round-Final os w u m) [ final f ↦ f m' h ]
