-- ===== src/Menu/Loop/Keeps/Sessions.antt =====
-- The choices of the menu for private sessions keep what their steps keep.
use nettverk.Prelude.{not, Option, none, some, Bytes, is_empty, ltb, if_holds, option_holds}
use nettverk.Net.{Os}
use nettverk.Menu.Console.{World, Menu}
use nettverk.Menu.Sessions.{
  invite_named, invite_answer, prompt_invite, accept_named, decline_named, decline_reason,
  reply_answer, reply_session, prompt_reply, say_privately, private_text, private_session,
  prompt_private,
}
use nettverk.Menu.Loop.Keeps.{Keeps, Kept, kept}
use nettverk.Menu.Loop.Keeps.{error_keeps, line_keeps, read_keeps}

module _ (os : Os) (w : World) (username : Bytes) {P : Menu → Type 0}
    (k : Keeps os w username P) where
  pub invite_named_keeps : (who : Bytes) (m : Menu) → P m → P (invite_named os w who m)
  unfolding invite_named
  invite_named_keeps who m p =
      option_holds P _ (error_keeps os w username k _ _ (k.invites m who _ _ p))
        (λ id. line_keeps os w username k _ _ (k.invites m who _ _ p))

  pub invite_answer_keeps : (r : Menu × Option Bytes) → Kept P r → Kept P (invite_answer os w r)
  unfolding invite_answer
  invite_answer_keeps (m, none) (kept p) = kept p
  invite_answer_keeps (m, some who) (kept p) = kept (
      if_holds P (is_empty who) (error_keeps os w username k _ m p)
        (if_holds P (ltb _ _) (error_keeps os w username k _ m p) (invite_named_keeps who m p)))

  pub accept_keeps : (sid : Bytes) (m : Menu) → P m → P (accept_named w sid m)
  unfolding accept_named
  accept_keeps sid m p =
      if_holds P (not _) (error_keeps os w username k _ _ (k.accepts m sid _ p))
        (k.accepts m sid _ p)

  pub decline_keeps : (sid reason : Bytes) (m : Menu) → P m → P (decline_named sid reason m)
  unfolding decline_named
  decline_keeps sid reason m p =
      if_holds P (not _) (error_keeps os w username k _ _ (k.declines m sid reason p))
        (k.declines m sid reason p)

  pub reason_keeps :
      (sid : Bytes) (r : Menu × Option Bytes) → Kept P r → Kept P (decline_reason sid r)
  unfolding decline_reason
  reason_keeps sid (m, none) (kept p) = kept p
  reason_keeps sid (m, some reason) (kept p) = kept (decline_keeps sid reason m p)

  pub reply_answer_keeps :
      (sid : Bytes) (r : Menu × Option Bytes) → Kept P r → Kept P (reply_answer w sid r)
  unfolding reply_answer
  reply_answer_keeps sid (m, none) (kept p) = kept p
  reply_answer_keeps sid (m, some ans) (kept p) =
      if_holds (Kept P) _ (kept (accept_keeps sid m p)) (
        if_holds (Kept P) _ (reason_keeps sid _ (read_keeps os w username k _ m p))
          (kept (error_keeps os w username k _ m p)))

  pub reply_session_keeps : (r : Menu × Option Bytes) → Kept P r → Kept P (reply_session w r)
  unfolding reply_session
  reply_session_keeps (m, none) (kept p) = kept p
  reply_session_keeps (m, some sid) (kept p) = if_holds (Kept P) (is_empty sid) (kept p) (
      if_holds (Kept P) (ltb _ _) (kept (error_keeps os w username k _ m p))
        (reply_answer_keeps sid _ (read_keeps os w username k _ m p)))

  pub reply_keeps : (m : Menu) → P m → Kept P (prompt_reply w m)
  unfolding prompt_reply
  reply_keeps m p =
      if_holds (Kept P) (is_empty _) (kept (k.puts m _ p))
        (reply_session_keeps _ (read_keeps os w username k _ _ (k.puts m _ p)))

  pub say_privately_keeps :
      (sid msg : Bytes) (m : Menu) → P m → P (say_privately os username sid msg m)
  unfolding say_privately
  say_privately_keeps sid msg m p =
      if_holds P (not _) (error_keeps os w username k _ _ (k.private_chats m sid msg p))
        (line_keeps os w username k _ _ (k.private_chats m sid msg p))

  pub private_text_keeps :
      (sid : Bytes) (r : Menu × Option Bytes) → Kept P r → Kept P (private_text os username sid r)
  unfolding private_text
  private_text_keeps sid (m, none) (kept p) = kept p
  private_text_keeps sid (m, some msg) (kept p) = kept (
      if_holds P (is_empty msg) p (
        if_holds P (ltb _ _) (error_keeps os w username k _ m p) (say_privately_keeps sid msg m p)))

  pub private_session_keeps :
      (r : Menu × Option Bytes) → Kept P r → Kept P (private_session os w username r)
  unfolding private_session
  private_session_keeps (m, none) (kept p) = kept p
  private_session_keeps (m, some sid) (kept p) = if_holds (Kept P) (is_empty sid) (kept p) (
      if_holds (Kept P) (ltb _ _) (kept (error_keeps os w username k _ m p))
        (private_text_keeps sid _ (read_keeps os w username k _ m p)))

  pub private_keeps : (m : Menu) → P m → Kept P (prompt_private os w username m)
  unfolding prompt_private
  private_keeps m p =
      if_holds (Kept P) (is_empty _) (kept (k.puts m _ p))
        (private_session_keeps _ (read_keeps os w username k _ _ (k.puts m _ p)))

  pub invite_keeps : (m : Menu) → P m → Kept P (prompt_invite os w m)
  unfolding prompt_invite
  invite_keeps m p = invite_answer_keeps _ (read_keeps os w username k _ m p)
