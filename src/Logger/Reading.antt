-- ===== src/Logger/Reading.antt =====
-- A reader of the lines that the logger writes: a fixed layout, with decimal digits for the time.
use nettverk.Prelude.{
  ℕ, ◌+◌, ◌*◌, ◌-◌, ◌==◌, ◌≡◌, ◌++◌, Option, none, some, [], ◌∷◌, Bytes, ascii, if◌then◌else◌,
}
use nettverk.Io.{LogCall}
use nettverk.Logger.{LogLevel, Tm}

infixl 5 ◌>>=◌
abbrev ◌>>=◌ {ℓ κ} : {A : Type ℓ} {B : Type κ} → Option A → (A → Option B) → Option B
none >>= f = none
some x >>= f = f x

-- What follows a given text.
unfoldable pub after : Bytes → Bytes → Option Bytes
after [] s = some s
after (c ∷ p) [] = none
after (c ∷ p) (x ∷ s) = if c == x then after p s else none

-- The number that two digits stand for, and what follows them.
unfoldable pub read_two : Bytes → Option (ℕ × Bytes)
read_two (tens ∷ ones ∷ s) = some (10 * (tens - 0x30) + (ones - 0x30), s)
read_two _ = none

-- The name of a level, and what follows it.
unfoldable pub read_level : Bytes → Option (LogLevel × Bytes)
unfolding after
read_level s = elim (after (ascii "INFO") s) [
  | some rest ↦ some (LogLevel.info, rest)
  | none ↦ elim (after (ascii "WARN") s) [
    | some rest ↦ some (LogLevel.warn, rest)
    | none ↦ elim (after (ascii "ERROR") s) [
      | some rest ↦ some (LogLevel.error, rest)
      | none ↦ none
    ]
  ]
]

-- The text before a newline at the end.
unfoldable pub read_text : Bytes → Option Bytes
read_text [] = none
read_text (c ∷ []) = if c == b'\n' then some [] else none
read_text (c ∷ d ∷ s) = do rest ← read_text (d ∷ s); some (c ∷ rest)

-- `[hh:mm:ss] [LEVEL] text`: the time, the level and the text.
unfoldable pub read_line : Bytes → Option (Tm × LogLevel × Bytes)
unfolding after read_two read_level read_text
read_line line = do
  s ← after (ascii "[") line
  (h, s) ← read_two s
  s ← after (ascii ":") s
  (m, s) ← read_two s
  s ← after (ascii ":") s
  (sec, s) ← read_two s
  s ← after (ascii "] [") s
  (lvl, s) ← read_level s
  s ← after (ascii "] ") s
  text ← read_text s
  some (record { hour = h; min = m; sec = sec }, lvl, text)

-- How severe what a call reports is: failed calls of the system are errors, lines that do not parse are
-- warnings, and the traffic is information.
abbrev pub kind : LogCall → LogLevel
kind (LogCall.error msg) = LogLevel.error
kind (LogCall.socket_error context e) = LogLevel.error
kind (LogCall.warn msg) = LogLevel.warn
kind (LogCall.parsing_error context) = LogLevel.warn
kind _ = LogLevel.info

-- The text that a call is given.
abbrev pub subject : LogCall → Bytes
subject (LogCall.info msg) = msg
subject (LogCall.warn msg) = msg
subject (LogCall.error msg) = msg
subject (LogCall.sent_broadcast what port bytes) = what
subject (LogCall.sent_multicast what group_ip port bytes) = what
subject (LogCall.recv_broadcast what from bytes) = what
subject (LogCall.recv_multicast what from bytes) = what
subject (LogCall.sent_unicast what to bytes) = what
subject (LogCall.recv_unicast what from bytes) = what
subject (LogCall.join_group group_ip port) = group_ip
subject (LogCall.leave_group group_ip port) = group_ip
subject (LogCall.parsing_error context) = context
subject (LogCall.socket_error context e) = context

-- A text stands in another.
abbrev pub Contains : Bytes → Bytes → Type 0
Contains what text = (before : Bytes) × (behind : Bytes) × (text ≡ before ++ what ++ behind)
