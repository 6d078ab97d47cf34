-- ===== src/Receive/Silence.antt =====
-- The receive loop answers nothing: whatever arrives, no datagram is sent.
use nettverk.Prelude.{
  ℕ, ◌≡◌, refl, ◌∙◌, List, [], ◌∷◌, Bytes, bytes_eq, arith, Bool-cases, inl, inr,
}
use nettverk.Net.{SockAddr, Os}
use nettverk.Io.{
  Io, Effect, send, log, status, private_message, group_message, lobby_message, print, print_error,
}
use nettverk.Secp.{SecpMessage, SecpType, presence, room_announce, invite, chat, unknown}
use nettverk.Lobby.{LobbyService, on_lobby_chat, usn_chat}
use nettverk.Groups.State.{GroupRoomCoordinator}
use nettverk.Groups.Messages
use nettverk.Direct.State.{DirectMessageService, report}
use nettverk.Direct.Receive.{deliver}
use nettverk.Direct.Receive
use nettverk.Receive.Keeps.{Keeps, loop_keeps}
use nettverk.Receive.{Services, dispatch_chat, dispatch, Polled, run_receive_multiplex_loop}

-- The datagrams that went out.
unfoldable pub sends : List Effect → List Effect
sends [] = []
sends (send fd line dest ok ∷ es) = send fd line dest ok ∷ sends es
sends (log l ∷ es) = sends es
sends (status m ∷ es) = sends es
sends (private_message r u t ∷ es) = sends es
sends (group_message r u t ∷ es) = sends es
sends (lobby_message u t ∷ es) = sends es
sends (print t ∷ es) = sends es
sends (print_error t ∷ es) = sends es

lobby_silent :
    (l : LobbyService) (u t : Bytes) (io : Io) → sends (on_lobby_chat l u t io).out ≡ sends io.out
unfolding on_lobby_chat sends
lobby_silent l u t io = ground arith

group_silent :
    (g : GroupRoomCoordinator) (msg : SecpMessage) (from : SockAddr) (io : Io)
    → sends (Messages.on_room_chat g msg from io).out ≡ sends io.out
unfolding Messages.on_room_chat sends
group_silent g msg from io = ground arith

private_silent :
    (os : Os) (d : DirectMessageService) (msg : SecpMessage) (from : SockAddr) (now : ℕ) (io : Io)
    → sends (Receive.on_room_chat os d msg from now io).1.out ≡ sends io.out
unfolding Receive.on_room_chat deliver sends
private_silent os d msg from now io = ground arith

invite_silent :
    (os : Os) (d : DirectMessageService) (msg : SecpMessage) (from : SockAddr) (c u : ℕ) (io : Io)
    → sends (Receive.on_invite os d msg from c u io).1.out ≡ sends io.out
unfolding Receive.on_invite report sends
invite_silent os d msg from c u io = ground arith

chat_silent :
    (os : Os) (s : Services) (msg : SecpMessage) (from : SockAddr) (now : ℕ)
    → sends (dispatch_chat os s msg from now).io.out ≡ sends s.io.out
unfolding dispatch_chat
chat_silent os s msg from now =
    private_silent os s.direct msg from now _
    ∙ group_silent s.groups msg from _
    ∙ (elim (Bool-cases (bytes_eq msg.room usn_chat)) [
      | inl e ↦ rw e (lobby_silent s.lobby msg.username msg.payload s.io)
      | inr e ↦ rw e
    ])

typed_silent :
    (os : Os) (s : Services) (t : SecpType) (r u p : Bytes) (from : SockAddr) (now later : ℕ)
    → sends
        (dispatch os s
          (record { type = t; room = r; username = u; payload = p })
          from
          now
          later).io.out
      ≡ sends s.io.out
unfolding dispatch
typed_silent os s presence r u p from now later = refl
typed_silent os s room_announce r u p from now later = refl
typed_silent os s invite r u p from now later = invite_silent os s.direct _ from now later s.io
typed_silent os s chat r u p from now later = chat_silent os s _ from now
typed_silent os s unknown r u p from now later = refl

dispatch_silent :
    (os : Os) (s : Services) (msg : SecpMessage) (from : SockAddr) (now later : ℕ)
    → sends (dispatch os s msg from now later).io.out ≡ sends s.io.out
dispatch_silent os s msg from now later =
    typed_silent os s msg.type msg.room msg.username msg.payload from now later

silent_Keeps : (os : Os) (es : List Effect) → Keeps os (λ s. sends s.io.out ≡ es)
silent_Keeps os es = record {
  logs = λ s l e. unfold sends in e;
  calls = λ s udp f e. e;
  takes = λ s sk sk' held e. e;
  handles = λ s msg from now later e. dispatch_silent os s msg from now later ∙ e;
}

-- In any number of rounds, whatever is polled and received, the loop sends no datagram.
pub loop_silent :
    (os : Os) (ps : List Polled) (s : Services)
    → sends (run_receive_multiplex_loop os ps s).io.out ≡ sends s.io.out
loop_silent os ps s = loop_keeps os (silent_Keeps os (sends s.io.out)) ps s refl
