-- ===== src/Direct/Upkeep.antt =====
-- The upkeep of DirectMessageService: snapshots for the menu, and the expiry and the repetition of
-- invitations that the heartbeat thread calls. `now - t > d` on signed spans is `t + d < now`.
use nettverk.Prelude.{
  ℕ, ◌+◌, Bool, true, false, not, ◌&&◌, ◌||◌, List, [], ◌∷◌, ◌++◌, Bytes, utf8, ascii, is_empty,
  length, Dict, erase, ltb, ◌==◌, if◌then◌else◌,
}
use nettverk.Net.{SockAddr, Os, seconds, milliseconds}
use nettverk.Io.{Io, log, sent_unicast, socket_error, parsing_error, emit, send_udp}
use nettverk.Secp.{invite, build_secp_line}
use nettverk.Direct.State.{
  is_outgoing, is_incoming, is_active, Session, DirectMessageService, PendingInviteInfo,
  ActiveDirectSessionInfo, report, sockaddr_ipv4_string, closed_to,
}

unfoldable pub collect_pending : Bytes → Dict Session → List PendingInviteInfo
collect_pending self [] = []
collect_pending self ((sid, s) ∷ m) =
    if is_incoming s.state
    then record { session_id = sid; from_username = s.peer_username; to_username = self }
      ∷ collect_pending self m
    else collect_pending self m

unfoldable pub snapshot_pending_invites : DirectMessageService → List PendingInviteInfo
unfolding collect_pending
snapshot_pending_invites d = collect_pending d.self_username d.sessions

unfoldable pub collect_active : Os → Dict Session → List ActiveDirectSessionInfo
unfolding sockaddr_ipv4_string
collect_active os [] = []
collect_active os ((sid, s) ∷ m) =
    if is_active s.state
    then record {
      session_id = sid;
      peer_username = s.peer_username;
      peer_ip = sockaddr_ipv4_string os s.peer_addr;
    }
      ∷ collect_active os m
    else collect_active os m

unfoldable pub snapshot_active_sessions : Os → DirectMessageService → List ActiveDirectSessionInfo
unfolding collect_active
snapshot_active_sessions os d = collect_active os d.sessions

-- The test of `prune_pending`: a pending session that nothing has touched for longer than `max_age`.
abbrev pub is_stale : ℕ → ℕ → Session → Bool
is_stale now max_age s =
    (is_incoming s.state || is_outgoing s.state) && ltb (s.last_update + seconds max_age) now

-- The keys that a loop pushes on `expired`.
unfoldable pub keys_where : (Session → Bool) → Dict Session → List Bytes
keys_where test [] = []
keys_where test ((sid, s) ∷ m) = if test s then sid ∷ keys_where test m else keys_where test m

-- `for (const auto& sid : expired) sessions_.erase(sid);`
unfoldable pub erase_all : List Bytes → Dict Session → Dict Session
erase_all [] m = m
erase_all (sid ∷ sids) m = erase_all sids (erase sid m)

-- The loop that reports each expired session with one text.
unfoldable pub report_all : DirectMessageService → Bytes → List Bytes → Io → Io
unfolding report
report_all d text [] io = io
report_all d text (sid ∷ sids) io = report_all d text sids (report d (text ++ sid) io)

unfoldable pub prune_pending : DirectMessageService → ℕ → ℕ → Io → DirectMessageService × Io
unfolding keys_where erase_all report_all
prune_pending d now max_age io =
    let expired = keys_where (is_stale now max_age) d.sessions in
    let d' = record d { sessions = erase_all expired d.sessions } in
    (d', report_all d' (utf8 "Session utløpt (ingen svar): ") expired io)

pub record ToSend : Type 0 where
  pub session_id : Bytes
  pub peer_username : Bytes
  pub dest : SockAddr

-- The branches of the first loop of `resend_outgoing_pending` at one session, in their order.
pub data ResendStep : Type 0 where
  skip expire wait again : ResendStep

unfoldable pub resend_step : ℕ → ℕ → ℕ → Session → ResendStep
resend_step now min_interval max_age s =
    if not (is_outgoing s.state)
    then skip
    else if not (s.created_at == 0) && ltb (s.created_at + seconds max_age) now
    then expire
    else if not (s.last_sent == 0) && ltb now (s.last_sent + milliseconds min_interval)
    then wait
    else again

abbrev pub is_again : ResendStep → Bool
is_again again = true
is_again _ = false

abbrev pub is_expire : ResendStep → Bool
is_expire expire = true
is_expire _ = false

-- What the loop writes into a session.
abbrev pub touched : ℕ → ResendStep → Session → Session
touched now step s = if is_again step then record s { last_sent = now; last_update = now } else s

unfoldable pub touch_all : ℕ → (Session → ResendStep) → Dict Session → Dict Session
touch_all now step [] = []
touch_all now step ((sid, s) ∷ m) = (sid, touched now (step s) s) ∷ touch_all now step m

unfoldable pub to_resend : (Session → ResendStep) → Dict Session → List ToSend
to_resend step [] = []
to_resend step ((sid, s) ∷ m) =
    if is_again (step s)
    then record { session_id = sid; peer_username = s.peer_username; dest = s.peer_addr }
      ∷ to_resend step m
    else to_resend step m

-- The second loop: one invitation.
unfoldable pub resend_one : Os → DirectMessageService → ToSend → Io → Io
resend_one os d t io =
    let line = build_secp_line invite t.session_id d.self_username (closed_to ++ t.peer_username) in
    if is_empty line
    then emit (log (parsing_error (ascii "build INVITE (resend)"))) io
    else let (io', ok) = send_udp os io line t.dest in
      emit
        (log (
          if not ok
          then socket_error (ascii "resend INVITE unicast") io'.udp.last_errno
          else sent_unicast (ascii "INVITE(resend)") t.dest (length line)))
        io'

unfoldable pub resend_all : Os → DirectMessageService → List ToSend → Io → Io
unfolding resend_one
resend_all os d [] io = io
resend_all os d (t ∷ ts) io = resend_all os d ts (resend_one os d t io)

unfoldable pub resend_outgoing_pending :
    Os → DirectMessageService → ℕ → ℕ → ℕ → Io → DirectMessageService × Io
unfolding resend_step touch_all keys_where to_resend erase_all resend_all report_all
resend_outgoing_pending os d now min_interval max_age io =
    if not d.socket
    then (d, io)
    else let step = resend_step now min_interval max_age in
      let expired = keys_where (λ s. is_expire (step s)) d.sessions in
      let d' = record d { sessions = erase_all expired (touch_all now step d.sessions) } in
      (
        d',
        report_all d' (utf8 "Invitasjon utløpt (ingen svar): ") expired
            (resend_all os d' (to_resend step d.sessions) io),
      )
