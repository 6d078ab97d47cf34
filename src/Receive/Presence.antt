-- ===== src/Receive/Presence.antt =====
-- The presence line of one copy of the program in the receive loop of another.
use nettverk.Prelude.{
  ℕ, ◌+◌, ◌≡◌, sym, ap, ◌∙◌, Bool, true, false, not, ◌||◌, some, ◌∷◌, Bytes, ascii, bytes_eq_refl,
  is_empty, length, ltb, Bool-cases, inl, inr, arith, if◌then◌else◌,
}
use nettverk.Net.{SockAddr, Os, udp_port, seconds}
use nettverk.Io.{Io, LogCall, log, send, sent_broadcast, socket_error, emit, send_udp}
use nettverk.Secp.{presence, dash, build_secp_line, fields_ok, is_username_ok}
use nettverk.Secp.Fields.{username_ok}
use nettverk.Secp.RoundTrip.{build-filled_iff}
use nettverk.Users.{UserDirectory, upsert, prune_stale, find_address}
use nettverk.Users.Laws.{is_ignored, heard_until}
use nettverk.Users.Laws
use nettverk.Discovery.{
  DiscoveryService, send_presence_broadcast, on_presence, prune_stale_peers, or_dash,
}
use nettverk.Receive.EndToEnd.{receive-build, sent_out}
use nettverk.Receive.{Services, dispatch, handle_datagram}

-- The line that `send_presence_broadcast` builds.
abbrev pub presence_line : Os → DiscoveryService → Bytes
presence_line os d = build_secp_line presence dash d.username (or_dash (os.inet_ntop d.ipv4))

abbrev presence_log : Bytes → Io → Bool → LogCall
presence_log line io ok =
    if ok
    then sent_broadcast (ascii "PRESENCE") udp_port (length line)
    else socket_error (ascii "send Presence broadcast") io.udp.last_errno

presence-send_udp :
    (os : Os) (d : DiscoveryService) (io : Io)
    → (not d.identity_ready || not d.socket) ≡ false
    → is_empty (presence_line os d) ≡ false
    → let r = send_udp os io (presence_line os d) d.broadcast_dest in
      send_presence_broadcast os d io
      ≡ (emit (log (presence_log (presence_line os d) r.0 r.1)) r.0, r.1)
unfolding send_presence_broadcast
presence-send_udp os d io a b = rw (a, b)

-- What `send_presence_broadcast` has checked and done where it answers true.
presence_sends :
    (os : Os) (d : DiscoveryService) (io : Io)
    → (send_presence_broadcast os d io).1 ≡ true
    → (is_empty (presence_line os d) ≡ false)
      × ((send_presence_broadcast os d io).0.out
          ≡ log (sent_broadcast (ascii "PRESENCE") udp_port (length (presence_line os d)))
            ∷ send io.udp.fd (presence_line os d) d.broadcast_dest true
            ∷ io.out)
unfolding send_presence_broadcast
presence_sends os d io h = elim (Bool-cases (not d.identity_ready || not d.socket)) [
  | inl a ↦ absurd (ground arith)
  | inr a ↦ elim (Bool-cases (is_empty (presence_line os d))) [
    | inl b ↦ absurd (ground arith)
    | inr b ↦
        let whole = presence-send_udp os d io a b in
        let sent : (send_udp os io (presence_line os d) d.broadcast_dest).1 ≡ true =
          ap (λ r. r.1) (sym whole) ∙ h in
        (
          b,
          ap (λ r. r.0.out) whole
              ∙ rw (sent, sent_out os io (presence_line os d) d.broadcast_dest sent),
        )
  ]
]

-- A sender whose address reads as the payload does is taken into the directory.
on_presence-upsert :
    (os : Os) (users : UserDirectory) (now : ℕ) (u ip : Bytes) (from : SockAddr)
    → (is_empty u || ltb 32 (length u)) ≡ false
    → os.inet_ntop from.ip ≡ some ip
    → on_presence os users now u ip from ≡ upsert users now u from
unfolding on_presence
on_presence-upsert os users now u ip from h e =
    rw (h, e, on_presence) (ground (arith, bytes_eq_refl ip))

-- The handler and the pruning behind it.
listed_soon :
    (os : Os) (users : UserDirectory) (now later : ℕ) (u ip : Bytes) (from : SockAddr)
    → (is_empty u || ltb 32 (length u)) ≡ false
    → os.inet_ntop from.ip ≡ some ip
    → Laws.IsValid users
    → is_ignored users u ≡ false
    → ltb (now + seconds 18) later ≡ false
    → find_address (prune_stale_peers (on_presence os users now u ip from) later) u ≡ some from
unfolding prune_stale_peers
listed_soon os users now later u ip from h e v named soon =
    ap (λ us. find_address (prune_stale us later 18) u)
      (on_presence-upsert os users now u ip from h e)
    ∙ heard_until users now later 18 u from v named
    ∙ rw soon

-- A presence broadcast that was answered true went out as one line. Where it arrives from an address
-- that reads as the announced one, under a name that is neither empty nor the receiver's own, and is
-- handled within 18 seconds, the sender can be looked up by its name at the address it came from.
pub presence_reaches :
    (os os' : Os) (d : DiscoveryService) (label ip : Bytes) (io : Io) (s : Services)
    (from : SockAddr) (now later : ℕ)
    → (send_presence_broadcast os d io).1 ≡ true
    → os.inet_ntop d.ipv4 ≡ some ip
    → os'.inet_ntop from.ip ≡ some ip
    → Laws.IsValid s.users
    → is_ignored s.users d.username ≡ false
    → ltb (now + seconds 18) later ≡ false
    → ((send_presence_broadcast os d io).0.out
        ≡ log (sent_broadcast (ascii "PRESENCE") udp_port (length (presence_line os d)))
          ∷ send io.udp.fd (presence_line os d) d.broadcast_dest true
          ∷ io.out)
      × (find_address
            (handle_datagram os' label s (presence_line os d) from now later).users
            d.username
          ≡ some from)
unfolding dispatch
presence_reaches os os' d label ip io s from now later h e e' v named soon =
    let (filled, out) = presence_sends os d io h in
    let (known, ok) =
      (build-filled_iff presence dash d.username (or_dash (os.inet_ntop d.ipv4))).0 filled in
    let name : is_username_ok d.username ≡ true = unfold fields_ok in ground arith in
    let (plain, short, some_name) = username_ok d.username name in
    (
      out,
      ap (λ r. find_address r.users d.username)
            (receive-build os' label s presence dash d.username (or_dash (os.inet_ntop d.ipv4)) from
              now later filled)
          ∙ ap
              (λ i.
                find_address
                  (prune_stale_peers (on_presence os' s.users now d.username (or_dash i) from)
                    later)
                  d.username)
              e
          ∙ listed_soon os' s.users now later d.username ip from (ground arith) e' v named soon,
    )
