-- ===== src/Program/Refused/Silence.antt =====
-- The whole program under a name that the protocol refuses.
use nettverk.Prelude.{
  ℕ, ◌<◌, ◌≡◌, refl, ◌∙◌, ap, true, false, some, List, [], ◌∷◌, Bytes, All, is_empty, length,
}
use nettverk.Net.{Os}
use nettverk.Io.{
  Effect, send, log, status, private_message, group_message, lobby_message, print, print_error,
}
use nettverk.Trim.{trim_in_place}
use nettverk.Secp.{is_username_ok}
use nettverk.Receive.Silence.{sends}
use nettverk.Program.Refused.{Refused, username-Refused}
use nettverk.Program.Traffic.Signed.{IsSigned}
use nettverk.Program.Traffic.Whole.{output, ends-IsSigned}
use nettverk.Program.{Course, Ended, run_main}

-- No line is built under such a name, so that nothing at all was sent.
signed-Refused :
    (u : Bytes) (es : List Effect) → Refused u → All (IsSigned u) (sends es) → sends es ≡ []
unfolding sends
signed-Refused u [] k h = refl
signed-Refused u (send fd line dest ok ∷ es) k ((t, r, p, e, f, x), h) =
    let none_left : is_empty line ≡ true = ap is_empty (e ∙ k t r p) in cc
signed-Refused u (log l ∷ es) k h = signed-Refused u es k h
signed-Refused u (status m ∷ es) k h = signed-Refused u es k h
signed-Refused u (private_message r n t ∷ es) k h = signed-Refused u es k h
signed-Refused u (group_message r n t ∷ es) k h = signed-Refused u es k h
signed-Refused u (lobby_message n t ∷ es) k h = signed-Refused u es k h
signed-Refused u (print t ∷ es) k h = signed-Refused u es k h
signed-Refused u (print_error t ∷ es) k h = signed-Refused u es k h

-- Where the user name on the command line, without the blanks around it, is one that the protocol
-- refuses, the program ends without having sent a single datagram, whatever is typed, whatever the
-- other threads do and whatever arrives.
pub refused_name_silent :
    (os : Os) (p arg : Bytes) (rest : List Bytes) (c : Course)
    → is_username_ok (trim_in_place arg) ≡ false
    → (e : Ended) × ((fuel : ℕ)
        → length c.input < fuel
        → run_main os (p ∷ arg ∷ rest) c fuel ≡ some e)
      × (sends (output e) ≡ [])
refused_name_silent os p arg rest c h =
    let u = trim_in_place arg in
    let (e, ends, signed) = ends-IsSigned os p arg rest c in
    (e, ends, signed-Refused u (output e) (username-Refused u h) signed)
