-- ===== src/Lib.antt =====
-- A model of nettverk's chat system (oblig1_chattsystem): copies of one program find each other by
-- UDP broadcast and talk in a lobby, in open rooms over multicast, and in closed rooms for two.
--
-- Every message is one line of the SECP protocol. Secp models
-- oblig1_chattsystem/src/protocol/secp.cpp, with
-- oblig1_chattsystem/include/chat/protocol/limits.hpp: build_secp_line, parse_secp_line and the
-- checks of the fields; Utf8 models valid_utf8 of the same file, Trim models
-- oblig1_chattsystem/include/chat/util/string_trim.hpp. Net holds addresses, the constants of
-- oblig1_chattsystem/include/chat/protocol/ports.hpp, and the system calls as parameters: a record
-- Os whose functions take the number of the call in the program's run, so that two calls may be
-- answered differently. UdpSocket models oblig1_chattsystem/src/net/udp_socket.cpp, with the lives
-- of its objects in UdpSocket.Ownership; LocalEndpoint models
-- oblig1_chattsystem/src/net/local_endpoint.cpp, Logger models
-- oblig1_chattsystem/src/log/logger.cpp with oblig1_chattsystem/include/chat/net/errno_util.hpp.
-- Io is what the services share: the socket, the count of system calls, the list of what can be
-- seen from outside (datagrams sent, calls of the logger, calls of callbacks, texts printed), and
-- the descriptors that ::close was called on, the newest first.
--
-- Users models oblig1_chattsystem/src/state/user_directory.cpp. The services are Discovery, Lobby,
-- Groups and Direct, for discovery_service.cpp, lobby_service.cpp, group_room_coordinator.cpp and
-- direct_message_service.cpp under oblig1_chattsystem/src/services. A method is a function from
-- the state and an Io to both and the result. Groups has Channel for the multicast socket, Rooms
-- for the user's commands and Messages for the traffic; Direct has Commands, Receive for the
-- handlers, and Upkeep for what the heartbeat thread calls; Direct.Steps makes a transition system
-- of it. Receive models oblig1_chattsystem/src/app/receive_multiplex_loop.cpp: what poll reports
-- is its input, and it hands each message to the services. Prelude has what all share, Examples
-- the theorems at concrete inputs.
--
-- Menu models oblig1_chattsystem/src/app/text_menu.cpp: Strtol and Choice for parse_menu_choice,
-- Console for reading and printing, Listings for the lists, Rooms and Sessions for the choices,
-- Loop for run_text_menu_loop. The input is a list of lines, and the other threads act while the
-- menu waits for one: a function World.others, by the number of lines asked for. Menu.Loop.Keeps
-- says what it takes for the menu to keep a property. Program models
-- oblig1_chattsystem/src/main.cpp: start_up to the first presence, Program.Threads for the turns
-- of the receive loop, the heartbeat and the announcements, with
-- oblig1_chattsystem/include/chat/app/interruptible_sleep.hpp, Program.Terminal for what the
-- callbacks print, and close_down. run_main puts them together: a Course has the input and the
-- turns of the other threads between the lines that are asked for. Program.Traffic keeps account
-- of what is sent and shown. Network is several copies, each of them the services of Program: a
-- copy makes one of the calls of the menu and of the threads, or gets a line that some copy has
-- sent, in any order.
--
-- A call is one step, as the mutex in each service makes it, except that the code lets go of it
-- before some calls on a socket: those interleavings are left out. Times are nanoseconds of the
-- steady clock, given to the call that reads it; a difference that is compared with a span is
-- written as a sum. Texts are lists of bytes. A std::unordered_map is a list of pairs with
-- distinct keys, in some order of iteration. A callback is a Boolean, set or not, and its call is
-- an effect. Loops over EINTR end: the system interrupts finitely often. The menu's loop runs on
-- fuel, one unit for each round; each round takes a line of the input, so that its lines and one
-- more are enough. All other loops are structural. Sums of times are exact, with no bound; the
-- code's 64-bit clock is far from one.
--
-- Not modelled: the creation and the joining of threads and the condition variable that wakes them
-- (a turn of a thread is a step), interleavings within a turn, sync_output.cpp (the mutex of the
-- terminal), and the wrappers poll_multiplexer.hpp and socket_address.hpp, application.hpp and
-- cli_controller.hpp, which have no logic of their own.
pub mod Prelude
pub mod Utf8
pub mod Secp
pub mod Trim
pub mod Net
pub mod UdpSocket
pub mod Io
pub mod Logger
pub mod LocalEndpoint
pub mod Users
pub mod Discovery
pub mod Lobby
pub mod Groups
pub mod Receive
pub mod Menu
pub mod Program
pub mod Network
pub mod Direct
pub mod Examples
