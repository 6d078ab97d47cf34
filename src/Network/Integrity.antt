-- ===== src/Network/Integrity.antt =====
-- Nobody puts words into another's mouth: what the copies on one network show of one another.
use nettverk.Prelude.{
  ℕ, ◌≡◌, refl, sym, subst, some, List, [], ◌∷◌, ◌++◌, Bytes, All, All-append, All-map, All-In, In,
  In-append_left, Bool-cases, ==_iff, ◌==◌, inl, inr,
}
use nettverk.Net.{SockAddr, Os}
use nettverk.Io.{
  Effect, send, log, status, private_message, group_message, lobby_message, print, print_error,
}
use nettverk.Secp.{parse_secp_line}
use nettverk.Lobby.{usn_chat}
use nettverk.Trim.{trim_in_place}
use nettverk.Receive.{Services, handle_datagram}
use nettverk.Program.Traffic.{traffic, Signed, Admits}
use nettverk.Program.Traffic.Threads.{Speaks}
use nettverk.Network.{
  Call, act, Texts, lines_sent, Network, update, after_act, after_hearing, acts, hears, IsFresh,
  Reach, here, next,
}
use nettverk.Direct.Handshake.{chat_message}
use nettverk.Network.Acts.{act-Speaks}
use nettverk.Network.Hears.{hears-Speaks}

-- What is known of the past: the lines that were sent and the calls that were made, each with the
-- number of the copy.
pub record Past : Type 0 where
  pub wires : List (ℕ × Bytes)
  pub made : List (ℕ × Call)

abbrev pub past : Network → Past
past net = record { wires = net.wires; made = net.made }

-- Copy `j` has made a call for which this text was typed.
abbrev pub Typed : Past → ℕ → Bytes → Type 0
Typed w j text = (c : Call) × In (j, c) w.made × Texts c text

-- A copy whose user is `u` has sent a line that reads as a chat message of `u` to the room, and its
-- text was typed there.
abbrev pub Said : (ℕ → Bytes) → Past → Bytes → Bytes → Bytes → Type 0
Said names w room u text =
    (j : ℕ) × (line : Bytes) × In (j, line) w.wires
    × (names j ≡ u)
    × (parse_secp_line line ≡ some (chat_message room u text))
    × Typed w j text

-- A datagram has a line under the copy's own name, and the text of a chat message was typed there; a
-- message that is shown was said by the user that it is shown for, to the same room.
abbrev pub Honest : (ℕ → Bytes) → Past → ℕ → Effect → Type 0
Honest names w i (send fd line dest ok) = Signed (Typed w i) (names i) line
Honest names w i (private_message room u text) = Said names w room u text
Honest names w i (group_message room u text) = Said names w room u text
Honest names w i (lobby_message u text) = Said names w usn_chat u text
Honest names w i (log l) = Unit
Honest names w i (status m) = Unit
Honest names w i (print t) = Unit
Honest names w i (print_error t) = Unit

-- More lines and more calls.
abbrev pub later_past : Past → List (ℕ × Bytes) → ℕ × Call → Past
later_past w more c = record { wires = w.wires ++ more; made = c ∷ w.made }

Typed-later_past :
    (w : Past) (more : List (ℕ × Bytes)) (c : ℕ × Call) (j : ℕ) (text : Bytes)
    → Typed w j text
    → Typed (later_past w more c) j text
Typed-later_past w more c j text (c', i, t) = (c', inr i, t)

Signed-later_past :
    (w : Past) (more : List (ℕ × Bytes)) (c : ℕ × Call) (j : ℕ) (u line : Bytes)
    → Signed (Typed w j) u line
    → Signed (Typed (later_past w more c) j) u line
Signed-later_past w more c j u line (t, r, p, e, f, typed) =
    (t, r, p, e, f, λ k. Typed-later_past w more c j p (typed k))

module _ (names : ℕ → Bytes) where
  pub Said-later_past :
      (w : Past) (more : List (ℕ × Bytes)) (c : ℕ × Call) (room u text : Bytes)
      → Said names w room u text
      → Said names (later_past w more c) room u text
  Said-later_past w more c room u text (j, line, i, n, e, t) =
      (j, line, In-append_left _ w.wires more i, n, e, Typed-later_past w more c j text t)

  Honest-later_past :
      (w : Past) (more : List (ℕ × Bytes)) (c : ℕ × Call) (i : ℕ) (e : Effect)
      → Honest names w i e
      → Honest names (later_past w more c) i e
  Honest-later_past w more c i (send fd line dest ok) h =
      Signed-later_past w more c i (names i) line h
  Honest-later_past w more c i (private_message room u text) h =
      Said-later_past w more c room u text h
  Honest-later_past w more c i (group_message room u text) h =
      Said-later_past w more c room u text h
  Honest-later_past w more c i (lobby_message u text) h = Said-later_past w more c usn_chat u text h
  Honest-later_past w more c i (log l) h = tt
  Honest-later_past w more c i (status m) h = tt
  Honest-later_past w more c i (print t) h = tt
  Honest-later_past w more c i (print_error t) h = tt

  -- A line under its sender's name, with a text that was typed there.
  abbrev pub IsAuthored : Past → ℕ × Bytes → Type 0
  IsAuthored w x = Signed (Typed w x.0) (names x.0) x.1

  lines-IsAuthored :
      (w : Past) (i : ℕ) (es : List Effect)
      → Admits (Honest names w i) es
      → All (IsAuthored w) (lines_sent i es)
  unfolding traffic lines_sent
  lines-IsAuthored w i [] h = tt
  lines-IsAuthored w i (send fd line dest ok ∷ es) h = (h.0, lines-IsAuthored w i es h.1)
  lines-IsAuthored w i (log l ∷ es) h = lines-IsAuthored w i es h
  lines-IsAuthored w i (status m ∷ es) h = lines-IsAuthored w i es h
  lines-IsAuthored w i (private_message r u t ∷ es) h = lines-IsAuthored w i es h.1
  lines-IsAuthored w i (group_message r u t ∷ es) h = lines-IsAuthored w i es h.1
  lines-IsAuthored w i (lobby_message u t ∷ es) h = lines-IsAuthored w i es h.1
  lines-IsAuthored w i (print t ∷ es) h = lines-IsAuthored w i es h
  lines-IsAuthored w i (print_error t ∷ es) h = lines-IsAuthored w i es h

  -- Copy `i` is honest, as far as the past shows.
  abbrev pub IsHonest : Past → ℕ → Services → Type 0
  IsHonest w i s = Speaks (names i) (Honest names w i) s

  IsHonest-later_past :
      (w : Past) (more : List (ℕ × Bytes)) (c : ℕ × Call) (i : ℕ) (s : Services)
      → IsHonest w i s
      → IsHonest (later_past w more c) i s
  IsHonest-later_past w more c i s h = record {
    named = h.named;
    admits = All-map _ _ (traffic s.io.out) (Honest-later_past w more c i) h.admits;
  }

  pub record IsSound (net : Network) : Type 0 where
    pub honest : (i : ℕ) → IsHonest (past net) i (net.copies i)
    pub authored : All (IsAuthored (past net)) net.wires

  update-IsHonest :
      (w : Past) (f : ℕ → Services) (i : ℕ) (s : Services)
      → IsHonest w i s
      → ((j : ℕ) → IsHonest w j (f j))
      → (j : ℕ) → IsHonest w j (update f i s j)
  update-IsHonest w f i s h others j = elim (Bool-cases (i == j)) [
    | inl e ↦ rw e (subst (λ k. IsHonest w k s) ((==_iff i j).0 e) h)
    | inr e ↦ rw e (others j)
  ]

  module _ (os : ℕ → Os) (trimmed : (i : ℕ) → trim_in_place (names i) ≡ names i) where
    act-IsSound :
        (net : Network) (i : ℕ) (c : Call)
        → IsSound net
        → IsSound (after_act (os i) (names i) net i c)
    unfolding after_act
    act-IsSound net i c h =
        let w = past net in
        let s = act (os i) (names i) (net.copies i) c in
        let more = lines_sent i s.io.out in
        let w' = later_past w more (i, c) in
        let grown : (j : ℕ) → IsHonest w' j (net.copies j) =
          λ j. IsHonest-later_past w more (i, c) j (net.copies j) (h.honest j) in
        let acted : IsHonest w' i s =
          act-Speaks (Typed w' i) (names i) (Honest names w' i) (λ fd line dest ok signed. signed)
            (os i) (trimmed i) (net.copies i) c (λ p t. (c, inl refl, t)) (grown i) in
        record {
          honest = update-IsHonest w' net.copies i s acted grown;
          authored =
              All-append (IsAuthored w') net.wires more
                (All-map _ _ net.wires (λ x. Signed-later_past w more (i, c) x.0 (names x.0) x.1)
                  h.authored)
                (lines-IsAuthored w' i s.io.out acted.admits);
        }

    hear-IsSound :
        (net : Network) (i sender : ℕ) (label line : Bytes) (from : SockAddr) (now later : ℕ)
        → In (sender, line) net.wires
        → IsSound net
        → IsSound (after_hearing (os i) net i label line from now later)
    unfolding after_hearing
    hear-IsSound net i sender label line from now later sent h =
        let w = past net in
        let n = names sender in
        let heard : IsHonest w i (handle_datagram (os i) label (net.copies i) line from now later) =
          hears-Speaks (Honest names w i) (os i) (Typed w sender) (names i) label (net.copies i)
            line n from now later (All-In (IsAuthored w) (sender, line) net.wires h.authored sent)
            (λ r p t e. (
              λ lobby. subst (λ room. Said names w room n p) lobby (sender, line, sent, refl, e, t),
              (sender, line, sent, refl, e, t),
              (sender, line, sent, refl, e, t),
            ))
            (h.honest i) in
        record { honest = update-IsHonest w net.copies i _ heard h.honest; authored = h.authored }

  pub Reach-IsSound :
      (os : ℕ → Os) (start net : Network)
      → IsFresh os names start
      → Reach os names start net
      → IsSound net
  Reach-IsSound os start net fresh here = record {
    honest = λ i. record {
      named = fresh.named i;
      admits = subst (All (Honest names (past net) i)) (sym (fresh.quiet i)) tt;
    };
    authored = subst (All (IsAuthored (past net))) (sym fresh.clear) tt;
  }
  Reach-IsSound os start net fresh (next {net = mid} r (acts i c)) =
      act-IsSound os fresh.trimmed mid i c (Reach-IsSound os start mid fresh r)
  Reach-IsSound os start net fresh
        (next {net = mid} r (hears i sender label line from now later sent)) =
      hear-IsSound os fresh.trimmed mid i sender label line from now later sent
        (Reach-IsSound os start mid fresh r)

-- Copies under trimmed names start with nothing sent or shown. Whatever calls they make from then
-- on, in any order, and in whatever order, however often and wherever the lines that they have sent
-- arrive: every datagram that a copy has sent was built under its user's name, and the text of a
-- chat message in it was typed there; and every message that a copy has shown, in the lobby, in an
-- open room or in private, was sent by a copy of the user that it is shown for, as a line that
-- reads as that user's message to that room, and its text was typed there, up to the blanks around
-- it.
pub shown_was_said :
    (names : ℕ → Bytes) (os : ℕ → Os) (start net : Network)
    → IsFresh os names start
    → Reach os names start net
    → (i : ℕ) → All (Honest names (past net) i) (traffic (net.copies i).io.out)
shown_was_said names os start net fresh r i =
    ((Reach-IsSound names os start net fresh r).honest i).admits
