-- ===== src/Network/Agreement.antt =====
-- Where the private sessions of the copies on one network come from.
use nettverk.Prelude.{
  ℕ, ◌≡◌, ◌⊎◌, inl, inr, refl, sym, ap, subst, ◌∙◌, false, some, List, ◌++◌, Bytes, All-In, In,
  In-append_left, Bool-cases, ==_iff, ◌==◌, find, is_empty, bytes_eq_iff, arith, true,
}
use nettverk.Net.{SockAddr, Os}
use nettverk.Secp.{SecpMessage, SecpType, invite, chat, parse_secp_line, build_secp_line}
use nettverk.Secp.RoundTrip.{parse-build, build-filled_iff}
use nettverk.Receive.{Services}
use nettverk.Direct.State.{
  DirectSessionState, outgoing_pending, incoming_pending, active, Session, closed_to,
}
use nettverk.Direct.Receive.{is_from_peer}
use nettverk.Direct.Handshake.{invitation}
use nettverk.Direct.Origin.{Origin}
use nettverk.Network.{
  Call, act, lines_sent, Network, update, after_act, after_hearing, acts, hears, IsFresh, Reach,
  here, next,
}
use nettverk.Network.Integrity.{
  Past, past, later_past, Typed, Said, Said-later_past, IsAuthored, IsSound, Reach-IsSound,
}
use nettverk.Network.Tracks.{Held, Acts, Hears, act-Held, Hears-Held}

same_message :
    (t t' : SecpType) (r u p p' : Bytes)
    → t ≡ t'
    → p ≡ p'
    → ◌≡◌ {A = SecpMessage}
        (record { type = t; room = r; username = u; payload = p })
        (record { type = t'; room = r; username = u; payload = p' })
same_message t t' r u p p' e e' = cc

module _ (names : ℕ → Bytes) where
  -- A copy whose user is `u` has sent a line that reads as an invitation of `me` by `u` to the room.
  abbrev pub Invited : Past → Bytes → Bytes → Bytes → Type 0
  Invited w room u me =
      (j : ℕ) × (line : Bytes) × In (j, line) w.wires
      × (names j ≡ u)
      × (parse_secp_line line ≡ some (invitation room u me))

  -- A copy whose user is `u` has sent a message to the room.
  abbrev pub Answered : Past → Bytes → Bytes → Type 0
  Answered w room u = (text : Bytes) × Said names w room u text

  -- What is behind a session of the user `me` with `u`.
  abbrev pub Agreed : Past → Bytes → Origin
  Agreed w me room outgoing_pending u = is_empty u ≡ false
  Agreed w me room incoming_pending u = Invited w room u me
  Agreed w me room active u = Invited w room u me ⊎ Answered w room u

  Invited-later_past :
      (w : Past) (more : List (ℕ × Bytes)) (c : ℕ × Call) (room u me : Bytes)
      → Invited w room u me
      → Invited (later_past w more c) room u me
  Invited-later_past w more c room u me (j, line, i, n, e) =
      (j, line, In-append_left _ w.wires more i, n, e)

  Agreed-later_past :
      (w : Past) (more : List (ℕ × Bytes)) (c : ℕ × Call) (me room : Bytes) (t : DirectSessionState)
      (u : Bytes)
      → Agreed w me room t u
      → Agreed (later_past w more c) me room t u
  Agreed-later_past w more c me room outgoing_pending u h = h
  Agreed-later_past w more c me room incoming_pending u h = Invited-later_past w more c room u me h
  Agreed-later_past w more c me room active u (inl h) =
      inl (Invited-later_past w more c room u me h)
  Agreed-later_past w more c me room active u (inr (text, h)) =
      inr (text, Said-later_past names w more c room u text h)

  Agreed-Acts : (w : Past) (me : Bytes) (os : Os) → Acts (Agreed w me) os
  Agreed-Acts w me os = record { invited = λ j u e. e; accepted = λ j u h. inl h }

  -- The peer of a session that is not nameless.
  peer_name :
      (os : Os) (p : Session) (msg : SecpMessage) (from : SockAddr)
      → is_from_peer os p msg from ≡ true
      → is_empty p.peer_username ≡ false
      → msg.username ≡ p.peer_username
  unfolding is_from_peer
  peer_name os p msg from h e = ground (arith, bytes_eq_iff msg.username p.peer_username)

  -- A line that a copy of user `n` has sent, at a copy of user `me`.
  sent-Hears :
      (w : Past) (os : Os) (s : Services) (me : Bytes) (sender : ℕ) (line : Bytes) (t : SecpType)
      (r p : Bytes) (from : SockAddr)
      → In (sender, line) w.wires
      → s.direct.self_username ≡ me
      → let msg : SecpMessage = record {
        type = t;
        room = r;
        username = names sender;
        payload = p;
      } in
        parse_secp_line line ≡ some msg
        → (t ≡ chat → Typed w sender p)
        → Hears (Agreed w me) os s msg from
  sent-Hears w os s me sender line t r p from sent self read typed = record {
    notified = λ k pay. (
      sender,
      line,
      sent,
      refl,
      read
          ∙ ap some
              (same_message t invite r (names sender) p _ k (pay ∙ ap (λ n. closed_to ++ n) self)),
    );
    confirmed = λ k peer matches filled.
        subst (Agreed w me r active) (peer_name os peer _ from matches filled) (
          inr (
            p,
            (
              sender,
              line,
              sent,
              refl,
              read ∙ ap some (same_message t chat r _ p p k refl),
              typed k,
            ),
          ));
  }

  pub record IsAgreed (net : Network) : Type 0 where
    pub held : (i : ℕ) → Held (Agreed (past net) (names i)) (net.copies i)

  update-Held :
      (w : Past) (f : ℕ → Services) (i : ℕ) (s : Services)
      → Held (Agreed w (names i)) s
      → ((j : ℕ) → Held (Agreed w (names j)) (f j))
      → (j : ℕ) → Held (Agreed w (names j)) (update f i s j)
  update-Held w f i s h others j = elim (Bool-cases (i == j)) [
    | inl e ↦ rw e (subst (λ k. Held (Agreed w (names k)) s) ((==_iff i j).0 e) h)
    | inr e ↦ rw e (others j)
  ]

  act-IsAgreed :
      (os : Os) (net : Network) (i : ℕ) (c : Call)
      → IsAgreed net
      → IsAgreed (after_act os (names i) net i c)
  unfolding after_act
  act-IsAgreed os net i c h =
      let s = act os (names i) (net.copies i) c in
      let more = lines_sent i s.io.out in
      let w = past net in
      let w' = later_past w more (i, c) in
      let grown : (j : ℕ) → Held (Agreed w' (names j)) (net.copies j) = λ j. record {
        unique = (h.held j).unique;
        tracks = λ room p e.
            Agreed-later_past w more (i, c) (names j) room p.state p.peer_username
              ((h.held j).tracks room p e);
      } in
      let acted =
        act-Held (Agreed w' (names i)) os (names i) (net.copies i) c (Agreed-Acts w' (names i) os)
          (grown i) in
      record { held = update-Held w' net.copies i s acted grown }

  hear-IsAgreed :
      (os : Os) (net : Network) (i sender : ℕ) (label line : Bytes) (from : SockAddr)
      (now later : ℕ)
      → In (sender, line) net.wires
      → IsSound names net
      → IsAgreed net
      → IsAgreed (after_hearing os net i label line from now later)
  unfolding after_hearing
  hear-IsAgreed os net i sender label line from now later sent sound h =
      let w = past net in
      let n = names sender in
      let (t, r, p, e, filled, typed) =
        All-In (IsAuthored names w) (sender, line) net.wires sound.authored sent in
      let built : is_empty (build_secp_line t r n p) ≡ false = ap is_empty (sym e) ∙ filled in
      let (known, fields) = (build-filled_iff t r n p).0 built in
      let read = ap parse_secp_line e ∙ (parse-build t r n p known fields).1 in
      let heard =
        Hears-Held (Agreed w (names i)) os label (net.copies i) line t r n p from now later e filled
          (sent-Hears w os (net.copies i) (names i) sender line t r p from sent
            (sound.honest i).named.direct read typed)
          (h.held i) in
      record { held = update-Held w net.copies i _ heard h.held }

  Reach-IsAgreed :
      (os : ℕ → Os) (start net : Network)
      → IsFresh os names start
      → Reach os names start net
      → IsAgreed net
  Reach-IsAgreed os start net fresh here = record {
    held = λ i.
        subst
          (λ m.
            Held (Agreed (past net) (names i))
              (record (net.copies i) { direct = record (net.copies i).direct { sessions = m } }))
          (sym (fresh.alone i))
          (record { unique = tt; tracks = λ j s e. unfold find in absurd (cc) });
  }
  Reach-IsAgreed os start net fresh (next {net = mid} r (acts i c)) =
      act-IsAgreed (os i) mid i c (Reach-IsAgreed os start mid fresh r)
  Reach-IsAgreed os start net fresh
        (next {net = mid} r (hears i sender label line from now later sent)) =
      hear-IsAgreed (os i) mid i sender label line from now later sent
        (Reach-IsSound names os start mid fresh r) (Reach-IsAgreed os start mid fresh r)

-- Copies under trimmed names start with nothing sent or shown and without sessions. Whatever calls
-- they make and in whatever order, however often and wherever the lines that they have sent arrive:
-- behind every invitation that waits for a user's answer, a copy of the user it is shown from has
-- sent an invitation of that very user to that room; and behind every active session, a copy of the
-- peer has sent either such an invitation or a message to that room, whose text was typed there.
pub session_was_agreed :
    (names : ℕ → Bytes) (os : ℕ → Os) (start net : Network)
    → IsFresh os names start
    → Reach os names start net
    → (i : ℕ) (room : Bytes) (s : Session) → find room (net.copies i).direct.sessions ≡ some s
    → Agreed names (past net) (names i) room s.state s.peer_username
session_was_agreed names os start net fresh r i =
    ((Reach-IsAgreed names os start net fresh r).held i).tracks
