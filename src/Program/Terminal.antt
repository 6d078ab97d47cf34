-- ===== src/Program/Terminal.antt =====
-- What the callbacks of oblig1_chattsystem/src/main.cpp write to the terminal.
use nettverk.Prelude.{List, [], ◌∷◌, ◌++◌, Bytes, ascii, bytes_eq, if◌then◌else◌}
use nettverk.Io.{
  Effect, send, log, status, private_message, group_message, lobby_message, print, print_error,
}

-- What one effect writes to `std::cout`, for the user that is logged in.
unfoldable pub shown : Bytes → Effect → Bytes
shown username (send fd line dest ok) = []
shown username (log l) = []
shown username (status msg) = ascii "[Privat] " ++ msg ++ ascii "\n"
shown username (private_message sid sender text) =
    ascii "[Privat " ++ sid ++ ascii "] " ++ sender ++ ascii ": " ++ text ++ ascii "\n"
shown username (group_message room_id sender text) =
    ascii "[Gruppe " ++ room_id ++ ascii "] " ++ sender ++ ascii ": " ++ text ++ ascii "\n"
shown username (lobby_message sender text) =
    if bytes_eq sender username
    then []
    else ascii "[USN Chat] " ++ sender ++ ascii ": " ++ text ++ ascii "\n"
shown username (print text) = text
shown username (print_error text) = []

-- All that was written, the oldest first.
unfoldable pub terminal : Bytes → List Effect → Bytes
unfolding shown
terminal username [] = []
terminal username (e ∷ es) = terminal username es ++ shown username e
