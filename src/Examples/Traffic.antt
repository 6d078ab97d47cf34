-- ===== src/Examples/Traffic.antt =====
-- The directory and the receive loop at concrete inputs.
use nettverk.Prelude.{
  ◌≡◌, refl, true, false, List, [], ◌∷◌, ascii, find, bytes_eq, length, strip_back,
}
use nettverk.Net.{udp_port}
use nettverk.Io.{log, send, lobby_message, sent_broadcast, send_udp}
use nettverk.UdpSocket.{send_to}
use nettverk.Secp.{
  build_secp_line, fields_ok, is_room_ok, contains_pipe_or_newline, is_username_ok, is_payload_ok,
  secp_type_name,
}
use nettverk.Utf8.{valid_utf8}
use nettverk.Trim.{trim_in_place}
use mathlib.Core.List.{Permᴰ}
use nettverk.Prelude.{Dict, Bytes}
use nettverk.Users.Order.{snapshot_peers-order}
use nettverk.Users.{PeerInfo, snapshot_peers, UserDirectory, find_address}
use nettverk.Users.Laws
use nettverk.Discovery
use nettverk.Lobby
use nettverk.Lobby.{LobbyService, send_chat}
use nettverk.Groups.State
use nettverk.Groups.Reach.{start, Reachable-IsValid}
use nettverk.Receive.{
  Services, Polled, ready, interrupted, failed, handle_datagram, run_receive_multiplex_loop,
}
use nettverk.Receive.Silence.{sends, loop_silent}
use nettverk.Receive.Validity
use nettverk.Receive.Validity.{loop-IsValid}
use nettverk.Receive.EndToEnd.{lobby_line, lobby_reaches, received}
use nettverk.Examples.{kari, ola, hei, good_os, host, start_io}

abbrev nobody : UserDirectory
nobody = record { self_username = kari; peers = [] }

pub nobody-IsValid : Laws.IsValid nobody
unfolding find
nobody-IsValid = record {
  unique = tt;
  named = λ k p e. absurd (cc);
  filled = refl;
  no_self = λ h. refl;
}

-- Every service, as `main` makes them, with the callback of the lobby.
abbrev pub services : Services
services = record {
  users = nobody;
  discovery = Discovery.new good_os;
  lobby = Lobby.set_on_message (Lobby.new good_os) true;
  groups = State.new 1 kari;
  direct = record {
    socket = true;
    users = true;
    self_username = kari;
    sessions = [];
    on_private = true;
    on_invite_set = true;
    on_status = true;
  };
  io = start_io;
}

pub services-IsValid : Validity.IsValid services
services-IsValid = record {
  users = nobody-IsValid;
  groups = Reachable-IsValid good_os (State.new 1 kari) (start 1 kari);
  direct = tt;
}

abbrev pub rounds : List Polled
rounds =
    interrupted
    ∷ ready (record { error = false; readable = true; running = true; now = 5; later = 6 } ∷ [])
    ∷ failed 9
    ∷ []

loop_silent_example :
    sends (run_receive_multiplex_loop good_os rounds services).io.out ≡ sends services.io.out
loop_silent_example = loop_silent good_os rounds services

loop-IsValid_example : Validity.IsValid (run_receive_multiplex_loop good_os rounds services)
loop-IsValid_example = loop-IsValid good_os rounds services services-IsValid

abbrev pub lobby : LobbyService
lobby = Lobby.new good_os

pub lobby_answers : (send_chat good_os lobby ola hei start_io).1 ≡ true
unfolding send_chat send_udp Lobby.new trim_in_place strip_back build_secp_line fields_ok is_room_ok
    bytes_eq contains_pipe_or_newline valid_utf8 is_username_ok is_payload_ok secp_type_name send_to
lobby_answers = refl

lobby_reaches_example :
    ((send_chat good_os lobby ola hei start_io).0.out
      ≡ log (sent_broadcast (ascii "CHAT(USN Chat)") udp_port (length (lobby_line ola hei)))
        ∷ send start_io.udp.fd (lobby_line ola hei) lobby.broadcast_dest true
        ∷ start_io.out)
    × ((handle_datagram good_os
          (ascii "recv udp")
          services
          (lobby_line ola hei)
          (host 2)
          5
          6).io.out
        ≡ lobby_message (trim_in_place ola) (trim_in_place hei)
          ∷ log (received good_os (ascii "recv udp") (host 2) (lobby_line ola hei))
          ∷ services.io.out)
unfolding State.new bytes_eq find Lobby.set_on_message Lobby.new
lobby_reaches_example =
    lobby_reaches good_os good_os lobby ola hei (ascii "recv udp") start_io services (host 2) 5 6
      lobby_answers refl refl refl

abbrev ola_peer : PeerInfo
ola_peer = record { username = ola; address = host 2; last_seen = 5 }

abbrev per_peer : PeerInfo
per_peer = record { username = ascii "per"; address = host 3; last_seen = 6 }

abbrev two_peers : UserDirectory
two_peers = record { self_username = kari; peers = (ola, ola_peer) ∷ (ascii "per", per_peer) ∷ [] }

abbrev turned : Dict PeerInfo
turned = (ascii "per", per_peer) ∷ (ola, ola_peer) ∷ []

snapshot_peers-order_example :
    (snapshot_peers good_os (record two_peers { peers = turned })
      ≡ snapshot_peers good_os two_peers)
    × ((name : Bytes)
        → find_address (record two_peers { peers = turned }) name ≡ find_address two_peers name)
unfolding find bytes_eq
snapshot_peers-order_example =
    snapshot_peers-order good_os two_peers turned (refl, (refl, tt)) (Permᴰ.swap refl refl)
