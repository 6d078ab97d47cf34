-- ===== src/Direct/Stored.antt =====
-- An invitation whose line is refused leaves its session behind.
use nettverk.Prelude.{
  ℕ, ◌≡◌, ◌∙◌, true, false, none, some, Bytes, find, find-insert, bytes_eq_refl, contains, is_empty,
  Bool-cases, inl, inr, arith, ◌++◌,
}
use nettverk.Net.{SockAddr, Os}
use nettverk.Io.{Io}
use nettverk.Secp.{invite, build_secp_line, is_username_ok, fields_ok}
use nettverk.Secp.RoundTrip.{build-filled_iff}
use nettverk.Direct.State.{DirectMessageService, closed_to}
use nettverk.Direct.Commands.{outgoing_session, send_invite, invite_at}

-- A name that the protocol does not accept makes the line empty.
refused_line :
    (sid self target : Bytes)
    → is_username_ok self ≡ false
    → is_empty (build_secp_line invite sid self (closed_to ++ target)) ≡ true
refused_line sid self target h =
    elim (Bool-cases (is_empty (build_secp_line invite sid self (closed_to ++ target)))) [
      | inl e ↦ e
      | inr e ↦
          let (known, ok) = (build-filled_iff invite sid self (closed_to ++ target)).0 e in
          absurd (unfold fields_ok in ground arith)
    ]

-- A user whose own name the protocol does not accept invites under a session id that is free: the
-- call has no result and does nothing that can be seen, and yet a session that waits for the answer
-- is stored under that id.
pub failed_invite_stays :
    (os : Os) (d : DirectMessageService) (sid target : Bytes) (dest : SockAddr) (now : ℕ) (io : Io)
    → is_username_ok d.self_username ≡ false
    → contains sid d.sessions ≡ false
    → let r = invite_at os d sid target dest now io in
      (r.2 ≡ none)
      × (r.1 ≡ io)
      × (find sid r.0.sessions ≡ some (outgoing_session sid target dest now))
unfolding invite_at send_invite
failed_invite_stays os d sid target dest now io h free =
    let e = refused_line sid d.self_username target h in
    (
      rw (free, e),
      rw (free, e),
      rw free (find-insert sid sid _ d.sessions ∙ rw (bytes_eq_refl sid)),
    )
