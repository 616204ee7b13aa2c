-- ===== src/Lib.antt =====
-- A library of models and proofs for gladiator, the multiplayer server and client-side backend of the
-- game Dispel.
--
-- The program has two halves. The backend (internal/backend) runs beside the game client: it cuts the
-- client's byte stream into packets, answers each request with the help of the console's services, and
-- stands in for the other players with fake hosts on loopback addresses. The console (internal/console)
-- keeps the lobby, in which users meet and open game rooms, and a relay through which the backends of a
-- room exchange packets. The halves speak in the messages of internal/wire; both keep characters as the
-- records of internal/model.
--
-- Prelude: names passed on, Boolean tests and texts (Tests), lists (Lists), byte buffers and their numbers
--   (Buffers), and Go's maps as lists of entries (Maps).
-- Packet, for internal/backend/packet: Encoder has codes.go, encoder.go and common.go; Reader has the
--   cursor of reader.go, as a chain of reads whose `none` is an error; Split has split.go over a slice
--   with its capacity, so that the panic of a slice expression is a result; Framing is about the two
--   ends together; Reads is the rule for chains of reads.
-- Model, for internal/model: Character (character_info.go) and Inventory (character_inventory.go), with
--   the theorems on their bytes in CharacterBytes and InventoryBytes.
-- Wire, for internal/wire: messages.go, codec.go, and in Event event_types.go.
-- Console.Relay, for internal/console/relay_server.go: the file itself has the rooms and the routing
--   (joinRoom, leaveRoom, sendTo, broadcastFrom), Loop the handshake, the relay loop and cleanupPeers,
--   Membership is about what joins and leaves do to the peers and the index, Invariant and Steps about the
--   agreement of rooms and index, OneRoom about a peer in one room and a peer in two.
-- Console.Multiplayer, for internal/console/multiplayer.go and session.go: State has the sessions as a
--   heap of shared objects, and the sending of messages; Rooms has CreateRoom, JoinRoom, LeaveRoom,
--   GetNextHost and AnnounceJoin; Sessions has the life of a connection and the handling of messages. Quiet
--   says what sending leaves alone, Invariant what a well-formed lobby is, Preserved, Leaving and Steps
--   are about keeping it so; Host, Effects, Leaving and Disconnect about what the operations do.
-- Backend.HostManager, for internal/backend/redirect/host_manager.go: the file itself has every operation;
--   Addresses, Hosts, Starting and Steps have the theorems.
-- Backend.Requests, for internal/backend/command_*.go: Account, Characters and Games have the requests
--   and their Parse; Bytes and GameBytes the formats.
-- Backend.Session and Backend.Client, for internal/backend/bsession/session.go, have the session of a game
--   client, what the handlers ask of the services, and the start of the observer; Backend.LobbyEvents has
--   lobby_event_handler.go and bsession/session_state.go, with the set of users in Presence.
-- Backend.Messages, for command_015_receive_message.go, has the messages to the game; Layout their bytes.
-- Backend.Handlers, for the handlers of internal/backend/command_*.go: Account and Characters need the
--   session alone, Lobby the lobby, and Games a proxy; Login and Replies have theorems.
-- Backend.Proxy, for internal/backend/proxy/proxy.go, has the interface of a proxy: its state is a
--   parameter, and it shares the session. Backend.Direct, for proxy/direct, is one for the local network;
--   Members is about its room, Sharing about what it does to the session, Observing about its events.
-- Backend.RelayProxy, for proxy/relay: the file itself has the router's state and the connection to the
--   relay (packet_router.go), Router the events and the packets, Rooms and Client the proxy over it
--   (relay.go), with what it does to the session. A
--   callback of a fake host is a Route, the packet that it sends. Routes says when each fake host of a
--   room has its route, Kept, Handled and Steps keep it so, Delivery is about a datagram between two
--   routers, Joining about a join that nothing comes between, and Migration, Rebinding and Succession are about a change of the host.
-- Backend.IpRing, for proxy/p2p/ip_ring.go; Bounds is about its addresses.
-- Backend.Dispatcher, for dispatcher.go, session_manager.go and backend.go of internal/backend: from the
--   handshake to the end of a connection. Guarded says which calls need a user; Sessions, Clients and
--   Rooms are about the handlers, Serving about the connection, and Failing about a handshake that fails.
--   Rooms has what a proxy must obey.
-- Model.Lobby, for lobby_room.go, ranking.go and game_state.go of internal/model.
-- The modules called Tests run the theorems at concrete inputs; those of the Prelude are helpers.
--
-- Numbers are natural numbers; where the source narrows a number, the remainder is written out. User ids
-- are the bit patterns of the source's int64. A text is the list of its bytes. An operation
-- is one step where a lock makes it one, and goroutines interleave by steps. Of the operations that take
-- several locks in turn, or one twice (SetPlayerConnected and SetPlayerDisconnected with AddUserSession in
-- the lobby, those of the router), the steps of Console.Multiplayer and of Backend.RelayProxy include the
-- parts as well, so that others may come in between; theorems on such an operation alone are about a run
-- that nothing interrupts. An operation that changes state takes the state and
-- returns the new one; `none` is an error or, where a comment says so, a panic. Messages sent, streams
-- closed and events are lists in the state, oldest first. A loop over a map runs over its list of
-- entries, and the theorems hold for every list.
--
-- Two loops are bounded. Split runs at most ten rounds, as the source does. AssignIP tries 253 addresses,
-- the source's range from 2 to 254. A loop that reads from a connection runs over the list of what its
-- reads give, so that it needs no bound.
--
-- Parameters stand for what is not in the repository: the JSON codec, strconv, the sockets and whether a
-- write succeeds, net.ParseIP and the printing of an address, the clock, the relay's stream and its
-- signature, and the remote services that the handlers call, whose answers depend on the calls before.
--
-- Not modelled: the proxy from peer to peer but for its addresses, whose peers are WebRTC connections; the
-- services of the console, which pass requests on to the database and the lobby; the set-up of connections
-- (QUIC, WebSocket, WebRTC, TLS), logging and metrics, which have no state of the program's own; the
-- database, the generated protocol, the command line, the user interface and the test programs.
pub mod Prelude
pub mod Packet
pub mod Model
pub mod Wire
pub mod Console
pub mod Backend
