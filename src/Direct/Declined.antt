-- ===== src/Direct/Declined.antt =====
-- DirectMessageService::decline_invite on the invited side, and the invitation that
-- resend_outgoing_pending of the inviter sends again.
use nettverk.Prelude.{
  ℕ, ◌≡◌, ◌∙◌, refl, true, false, none, some, ◌++◌, Bytes, find, find-erase, bytes_eq_refl,
  is_empty, length, ltb, UniqueKeys, arith,
}
use nettverk.Net.{SockAddr, Os, udp_port}
use nettverk.Io.{Io}
use nettverk.Secp.{invite, build_secp_line, parse_secp_line, is_username_ok}
use nettverk.Secp.Fields.{username_ok}
use nettverk.Trim.{trim_in_place}
use nettverk.Direct.State.{
  Session, DirectMessageService, is_incoming, make_unicast_dest, make_session_id, closed_to, report,
}
use nettverk.Direct.Commands.{decline_invite}
use nettverk.Direct.Receive.{on_invite, incoming_session}
use nettverk.Direct.Handshake.{
  invitation, parse-invitation, invitation_stored, filled-incomplete, session_id_filled,
  session_id_short,
}
use nettverk.Receive.Silence.{sends}

-- The user's refusal removes the session, keeps the name and sends nothing.
decline_removes :
    (d : DirectMessageService) (room sid reason : Bytes) (io : Io) (s : Session)
    → UniqueKeys d.sessions
    → trim_in_place room ≡ sid
    → is_empty sid ≡ false
    → ltb 32 (length sid) ≡ false
    → find sid d.sessions ≡ some s
    → is_incoming s.state ≡ true
    → let r = decline_invite d room reason io in
      (r.2 ≡ true)
      × (find sid r.0.sessions ≡ none)
      × (r.0.self_username ≡ d.self_username)
      × (sends r.1.out ≡ sends io.out)
unfolding decline_invite report sends
decline_removes d room sid reason io s keys typed h k e i =
    ground (arith, typed, h, k, e, i, find-erase sid sid d.sessions keys, bytes_eq_refl sid)

-- The invited user has a pending session of a drawn name, and declines what trims to that name, in
-- a table that lists no name twice. The command succeeds, the session is gone and no datagram has
-- been sent. Where the protocol accepts both names, the line of the inviter's invitation reads back
-- as the invitation, and once it is received again, a pending session with the inviter is stored
-- again under the declined name.
pub declined_comes_back :
    (os : Os) (db : DirectMessageService) (a b room reason : Bytes) (from_a : SockAddr)
    (s : Session) (r received updated : ℕ) (io io' : Io)
    → is_username_ok a ≡ true
    → is_username_ok b ≡ true
    → UniqueKeys db.sessions
    → db.self_username ≡ b
    → trim_in_place room ≡ make_session_id r
    → find (make_session_id r) db.sessions ≡ some s
    → is_incoming s.state ≡ true
    → let sid = make_session_id r in
      let declined = decline_invite db room reason io in
      let later = on_invite os declined.0 (invitation sid a b) from_a received updated io' in
      (declined.2 ≡ true)
      × (find sid declined.0.sessions ≡ none)
      × (sends declined.1.out ≡ sends io.out)
      × (parse_secp_line (build_secp_line invite sid a (closed_to ++ b))
          ≡ some (invitation sid a b))
      × (find sid later.0.sessions
          ≡ some (
              incoming_session
                (invitation sid a b)
                (make_unicast_dest os from_a udp_port)
                received
                updated))
declined_comes_back os db a b room reason from_a s r received updated io io' ok_a ok_b keys self
      typed e i =
    let sid = make_session_id r in
    let gone =
      decline_removes db room sid reason io s keys typed (session_id_filled r) (session_id_short r)
        e i in
    (
      gone.0,
      gone.1,
      gone.3,
      parse-invitation r a b ok_a ok_b,
      invitation_stored os (decline_invite db room reason io).0 sid a b from_a received updated io'
          (filled-incomplete invite r a (closed_to ++ b) (username_ok a ok_a).2 refl)
          (gone.2 ∙ self) gone.1,
    )
