-- ===== src/Program/LobbyChat.antt =====
-- A message to the lobby, from the line that is typed in one copy of the program to the terminal of
-- another.
use nettverk.Prelude.{
  ℕ, suc, ◌≡◌, refl, subst, ◌∙◌, ap, append-nil, true, false, none, some, List, [], ◌∷◌, ◌++◌,
  Bytes, ascii, utf8, encode, bytes_eq, find, is_empty, length, ltb, arith, if◌then◌else◌,
}
use nettverk.Net.{SockAddr, Os}
use nettverk.Io.{print}
use nettverk.Trim.{trim_in_place}
use nettverk.Trim.Laws.{trim_idem}
use nettverk.Lobby.{send_chat, usn_chat}
use nettverk.Receive.{Services, handle_datagram}
use nettverk.Receive.EndToEnd.{lobby_line, lobby_refuses, send_chat_sends}
use nettverk.Menu.Choice.{parse_menu_choice}
use nettverk.Menu.Console.{World, Menu, put, get_line, get_trimmed, read_trimmed_line}
use nettverk.Menu.Listings.{print_menu}
use nettverk.Menu.Rooms.{say_to_lobby, lobby_answer, prompt_lobby_message}
use nettverk.Menu.Loop.{again, unless_ended, choose, read_choice, round}
use nettverk.Program.Terminal.{terminal, shown}
use nettverk.Program.Display.{lobby_shown}

-- The menu where a line was read and `lines` are left.
abbrev pub heard : World → Menu → List Bytes → Menu
heard w m lines = record {
  services = w.others m.asked m.services;
  input = lines;
  asked = suc m.asked;
}

-- The menu where the choice and the text were read.
abbrev pub asked_twice : World → Menu → Bytes → List Bytes → Menu
asked_twice w m text rest =
    heard w
      (put (print (utf8 "Melding til USN Chat (tom linje = avbryt):\n> "))
        (heard w (print_menu m) (text ∷ rest)))
      rest

-- What a terminal shows of a message to the lobby.
abbrev pub lobby_text : Bytes → Bytes → Bytes
lobby_text name text = ascii "[USN Chat] " ++ name ++ ascii ": " ++ text ++ ascii "\n"

get_trimmed-heard :
    (w : World) (m : Menu) (line : Bytes) (lines : List Bytes)
    → m.input ≡ line ∷ lines
    → get_trimmed w m ≡ (heard w m lines, some (trim_in_place line))
unfolding get_trimmed get_line
get_trimmed-heard w m line lines h = rw h refl

parse-trim : (s : Bytes) → parse_menu_choice (trim_in_place s) ≡ parse_menu_choice s
unfolding parse_menu_choice
parse-trim s = rw (trim_idem s) refl

read_choice_two :
    (os : Os) (w : World) (username : Bytes) (m : Menu) (line : Bytes)
    → parse_menu_choice line ≡ some 2
    → read_choice os w username (m, some line) ≡ unless_ended (prompt_lobby_message os w username m)
unfolding read_choice choose
read_choice_two os w username m line h = rw (read_choice, h) refl

-- A round in which the lobby is chosen.
lobby_round :
    (os : Os) (w : World) (username : Bytes) (m : Menu) (choice text : Bytes) (rest : List Bytes)
    → m.input ≡ choice ∷ text ∷ rest
    → parse_menu_choice choice ≡ some 2
    → round os w username m
      ≡ unless_ended
          (lobby_answer os username (asked_twice w m text rest, some (trim_in_place text)))
unfolding round read_choice choose prompt_lobby_message read_trimmed_line print_menu put
lobby_round os w username m choice text rest h c =
    let m0 = heard w (print_menu m) (text ∷ rest) in
    let prompted = put (print (utf8 "Melding til USN Chat (tom linje = avbryt):\n> ")) m0 in
    ap (read_choice os w username) (get_trimmed-heard w (print_menu m) choice (text ∷ rest) h)
    ∙ read_choice_two os w username m0 (trim_in_place choice) (parse-trim choice ∙ c)
    ∙ ap (λ r. unless_ended (lobby_answer os username r))
        (get_trimmed-heard w prompted text rest refl)

-- The text is neither empty nor too long, where the lobby took it.
answer_sends :
    (os : Os) (username text : Bytes) (m : Menu)
    → (send_chat os m.services.lobby username text m.services.io).1 ≡ true
    → trim_in_place text ≡ text
    → unless_ended (lobby_answer os username (m, some text))
      ≡ again (say_to_lobby os username text m)
unfolding lobby_answer
answer_sends os username text m ok clean =
    let l = m.services.lobby in
    let checked =
      subst (λ t. lobby_refuses l (trim_in_place username) t ≡ false) clean
        (send_chat_sends os l username text m.services.io ok).0 in
    let filled : is_empty text ≡ false = ground (arith, checked) in
    let short : ltb 512 (length text) ≡ false = ground (arith, checked) in rw (filled, short) refl

say_shows :
    (os : Os) (username text : Bytes) (m : Menu)
    → (send_chat os m.services.lobby username text m.services.io).1 ≡ true
    → ((say_to_lobby os username text m).input ≡ m.input)
      × (terminal username (say_to_lobby os username text m).services.io.out
          ≡ terminal username m.services.io.out ++ lobby_text username text)
unfolding say_to_lobby put terminal shown utf8 encode
say_shows os username text m ok =
    let (_, _, out) = send_chat_sends os m.services.lobby username text m.services.io ok in
    let before = terminal username m.services.io.out in
    let line = lobby_text username text in
    rw (say_to_lobby, ok)
      (
        refl,
        ap (λ o. terminal username o ++ line) out ∙ rw (append-nil before, append-nil before) refl,
      )

-- A choice of the lobby and a text, typed at the menu, where the lobby takes the text without the
-- blanks around it: the round goes on with the rest of the input, and the sender's terminal shows the
-- message once. Where the line that was sent arrives at another copy, neither as a chat of its active
-- open room nor of a private session, that copy's terminal shows the message once, unless its user
-- has the sender's name.
pub typed_reaches :
    (os os' : Os) (w : World) (username label me : Bytes) (m : Menu) (choice text : Bytes)
    (rest : List Bytes) (s : Services) (from : SockAddr) (now later : ℕ)
    → m.input ≡ choice ∷ text ∷ rest
    → parse_menu_choice choice ≡ some 2
    → let sender = (asked_twice w m text rest).services in
      (send_chat os sender.lobby username (trim_in_place text) sender.io).1 ≡ true
      → s.lobby.on_message ≡ true
      → bytes_eq usn_chat s.groups.active_room_name ≡ false
      → find usn_chat s.direct.sessions ≡ none
      → let line = lobby_line username (trim_in_place text) in
        let sent = trim_in_place text in
        (m' : Menu) × (round os w username m ≡ again m')
        × (m'.input ≡ rest)
        × (terminal username m'.services.io.out
            ≡ terminal username (asked_twice w m text rest).services.io.out
              ++ lobby_text username sent)
        × (terminal me (handle_datagram os' label s line from now later).io.out
            ≡ terminal me s.io.out
              ++ (if bytes_eq (trim_in_place username) me
                  then []
                  else lobby_text (trim_in_place username) sent))
typed_reaches os os' w username label me m choice text rest s from now later h c ok cb other free =
    let m1 = asked_twice w m text rest in
    let t = trim_in_place text in
    let (left, own) = say_shows os username t m1 ok in
    let there =
      lobby_shown os os' m1.services.lobby username t label me m1.services.io s from now later ok cb
        other free in
    (
      say_to_lobby os username t m1,
      lobby_round os w username m choice text rest h c
          ∙ answer_sends os username t m1 ok (trim_idem text),
      left,
      own,
      subst
          (λ x.
            terminal me (handle_datagram os' label s (lobby_line username t) from now later).io.out
            ≡ terminal me s.io.out
              ++ (if bytes_eq (trim_in_place username) me
                  then []
                  else lobby_text (trim_in_place username) x))
          (trim_idem text) there,
    )
