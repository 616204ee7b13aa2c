-- ===== src/Wire/Event.antt =====
-- internal/wire/event_types.go. An event type is a number, and any number may arrive.
use gladiator.Prelude.{ℕ, Text, codes, if◌then◌else◌, eqb}

abbrev pub EventType : Type 0
EventType = ℕ

abbrev pub hello : EventType
hello = 1

abbrev pub welcome : EventType
welcome = 2

abbrev pub lobby_users : EventType
lobby_users = 3

abbrev pub join_lobby : EventType
join_lobby = 4

abbrev pub joined_lobby : EventType
joined_lobby = 5

abbrev pub leave_lobby : EventType
leave_lobby = 6

abbrev pub chat : EventType
chat = 7

abbrev pub create_room : EventType
create_room = 8

abbrev pub set_room_ready : EventType
set_room_ready = 9

abbrev pub join_room : EventType
join_room = 10

abbrev pub leave_room : EventType
leave_room = 11

abbrev pub host_migration : EventType
host_migration = 12

abbrev pub rtc_offer : EventType
rtc_offer = 13

abbrev pub rtc_answer : EventType
rtc_answer = 14

abbrev pub rtc_ice_candidate : EventType
rtc_ice_candidate = 15

unfoldable pub event_string : EventType → Text
event_string e =
    if eqb e hello
    then codes "Hello"
    else if eqb e welcome
    then codes "Welcome"
    else if eqb e lobby_users
    then codes "LobbyUsers"
    else if eqb e join_lobby
    then codes "JoinLobby"
    else if eqb e joined_lobby
    then codes "JoinedLobby"
    else if eqb e leave_lobby
    then codes "LeaveLobby"
    else if eqb e chat
    then codes "Chat"
    else if eqb e create_room
    then codes "CreateRoom"
    else if eqb e set_room_ready
    then codes "SetRoomReady"
    else if eqb e join_room
    then codes "JoinRoom"
    else if eqb e leave_room
    then codes "LeaveRoom"
    else if eqb e host_migration
    then codes "HostMigration"
    else if eqb e rtc_offer
    then codes "RTCOffer"
    else if eqb e rtc_answer
    then codes "RTCAnswer"
    else if eqb e rtc_ice_candidate
    then codes "RTCICECandidate"
    else codes "Unknown"
