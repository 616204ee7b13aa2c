-- ===== src/Console/Multiplayer/Sessions.antt =====
-- internal/console/multiplayer.go: the life of a connection, and the messages that clients send.
-- `Run`, which takes the messages from a channel, and the wait of `HandleSession` for the next
-- payload are the environment's choice of the next step.
use mathlib.Core.Option
use gladiator.Prelude.{
  ℕ, not, ◌||◌, Option, none, some, List, [], ◌∷◌, ◌++◌, if◌then◌else◌, eqb, nat_eq,
}
use gladiator.Wire.{Message, player, players, compose, decode_typed}
use gladiator.Wire.Event
use gladiator.Console.Relay
use gladiator.Console.Multiplayer.State.{
  UserSession, Multiplayer, Env, update, get_user_session, send, send_message, to_player,
  add_user_session, delete_user_session, list_sessions, broadcast_message,
}
use gladiator.Console.Multiplayer.Rooms.{leave_room, set_room_ready}

-- `ReadNext`, where `read` is what the connection gives, `none` for an error.
abbrev pub read_next : UserSession → Option (List ℕ) → Option (List ℕ)
read_next us read = if us.connected then read else none

-- `HandleHello` and `HandleJoinLobby`: `none` is an error, which ends the connection.
unfoldable pub handle_hello : Env → ℕ → Option (List ℕ) → Multiplayer → Option Multiplayer
handle_hello env p read mp = elim (read_next (mp.heap p) read) [
  | none ↦ none
  | some payload ↦ elim (decode_typed env.codec.unmarshal_user payload) [
    | none ↦ none
    | some (et, content) ↦
        if not (eqb et Event.hello)
        then none
        else some (
            send env p (Event.welcome ∷ [])
              (record mp { heap = update mp.heap p (record (mp.heap p) { user = content }) }))
  ]
]

unfoldable pub handle_join_lobby : Env → ℕ → Option (List ℕ) → Multiplayer → Option Multiplayer
handle_join_lobby env p read mp = elim (read_next (mp.heap p) read) [
  | none ↦ none
  | some payload ↦ elim (decode_typed env.codec.unmarshal_player payload) [
    | none ↦ none
    | some (et, content) ↦
        if not (eqb et Event.join_lobby)
        then none
        else some (
            send env p (Event.joined_lobby ∷ []) (record mp {
              heap = update mp.heap p (record (mp.heap p) {
                character = record {
                  character_id = content.character_id;
                  class_type = content.class_type;
                };
              });
            }))
  ]
]

unfoldable pub set_player_connected : Env → ℕ → Multiplayer → Multiplayer
set_player_connected env p mp =
    let us = mp.heap p in
    let everyone = list_sessions mp.heap mp.sessions ++ (to_player us ∷ []) in
    let mp = add_user_session us.user_id p mp in
    let mp =
      send_message env p Event.lobby_users
        (record {
          to = env.itoa us.user_id;
          from = [];
          type = Event.lobby_users;
          content = players everyone;
        })
        mp in
    broadcast_message env
      (compose env.codec Event.join_lobby (record {
        to = [];
        from = env.itoa us.user_id;
        type = Event.join_lobby;
        content = player (to_player us);
      }))
      mp

-- The relay is told if there is one.
abbrev pub relay_leave : Env → UserSession → Option Relay.RelayServer → Option Relay.RelayServer
relay_leave env us none = none
relay_leave env us (some rs) = some (Relay.leave_room rs (env.itoa us.user_id) us.game_id)

-- `SetPlayerDisconnected` behind `LeaveRoom`.
unfoldable pub after_leaving : Env → ℕ → Multiplayer → Multiplayer
after_leaving env p mp =
    let us = mp.heap p in
    let mp = record mp { relay = relay_leave env us mp.relay } in
    let mp = delete_user_session us.user_id mp in
    broadcast_message env
      (compose env.codec Event.leave_lobby (record {
        to = [];
        from = env.itoa us.user_id;
        type = Event.leave_lobby;
        content = player (to_player us);
      }))
      mp

-- `SetPlayerDisconnected`; `none` is the panic of `LeaveRoom`. The source takes the locks of the rooms, the relay and
-- the sessions in turn.
unfoldable pub set_player_disconnected : Env → ℕ → Multiplayer → Option Multiplayer
unfolding after_leaving
set_player_disconnected env p mp =
    Option.map (after_leaving env p)
      (leave_room env p (record mp { closed = mp.closed ++ (p ∷ []) }))

unfoldable pub forward_rtc_message : Env → Message → Multiplayer → Multiplayer
forward_rtc_message env msg mp = elim (env.parse_int msg.to) [
  | none ↦ mp
  | some user_id ↦ elim (get_user_session user_id mp) [
    | none ↦ mp
    | some p ↦ send_message env p msg.type msg mp
  ]
]

unfoldable pub handle_incoming_message : Env → Message → Multiplayer → Multiplayer
unfolding forward_rtc_message set_room_ready
handle_incoming_message env msg mp =
    if eqb msg.type Event.chat
    then broadcast_message env
        (compose env.codec Event.chat
          (record { to = []; from = msg.from; type = 0; content = msg.content }))
        mp
    else if eqb msg.type Event.rtc_offer
        || (eqb msg.type Event.rtc_answer || eqb msg.type Event.rtc_ice_candidate)
    then forward_rtc_message env msg mp
    else if eqb msg.type Event.set_room_ready
    then set_room_ready msg mp
    else mp
