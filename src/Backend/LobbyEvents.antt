-- ===== src/Backend/LobbyEvents.antt =====
-- internal/backend/lobby_event_handler.go and internal/backend/bsession/session_state.go: what the lobby's events do to
-- the session and to its list of the lobby's users.
pub mod Presence
pub mod Tests
use gladiator.Prelude.{ℕ, Option, none, some, List, [], ◌∷◌, ◌++◌, length, if◌then◌else◌, eqb}
use gladiator.Prelude.Buffers.{u32}
use gladiator.Packet.Encoder.{receive_message}
use gladiator.Wire.{Codec, Player, ChatMessage, parse_event_type, decode_typed}
use gladiator.Wire.Event
use gladiator.Backend.Session.{Services, Session, send_to_game}
use gladiator.Backend.Messages.{
  append_character_to_lobby, remove_character_from_lobby, new_lobby_message,
}

-- The session, and `State.lobbyUsers`.
abbrev pub Lobby : Type 0
Lobby = Session × List Player

unfoldable pub update_lobby_users : List Player → Lobby → Lobby
update_lobby_users users (s, old) = (s, users)

abbrev pub get_lobby_users : Lobby → List Player
get_lobby_users (s, users) = users

-- `slices.DeleteFunc`
unfoldable pub delete_user : ℕ → List Player → List Player
delete_user id [] = []
delete_user id (player ∷ users) =
    if eqb id player.user_id then delete_user id users else player ∷ delete_user id users

unfoldable pub delete_lobby_user : ℕ → Lobby → Lobby
unfolding delete_user
delete_lobby_user id (s, users) = (s, delete_user id users)

-- A failed write is only logged.
abbrev pub tell : Services → List ℕ → Lobby → Lobby
tell svc payload (s, users) = ((send_to_game svc receive_message payload s).0, users)

abbrev pub handle_chat : Services → Option ChatMessage → Lobby → Lobby
handle_chat svc none l = l
handle_chat svc (some msg) l = tell svc (new_lobby_message msg.user msg.text) l

abbrev pub handle_lobby_users : Option (List Player) → Lobby → Lobby
handle_lobby_users none l = l
handle_lobby_users (some users) l = update_lobby_users users l

abbrev pub handle_join_lobby : Services → Option Player → Lobby → Lobby
handle_join_lobby svc none l = l
handle_join_lobby svc (some player) (s, users) =
    if eqb player.user_id s.user_id
    then (s, users)
    else let lobby_users = users ++ (player ∷ []) in
      tell svc
        (append_character_to_lobby player.username player.class_type (u32 (length lobby_users)))
        (update_lobby_users lobby_users (s, users))

abbrev pub handle_leave_lobby : Services → Option Player → Lobby → Lobby
handle_leave_lobby svc none l = l
handle_leave_lobby svc (some player) l =
    tell svc (remove_character_from_lobby player.username) (delete_lobby_user player.user_id l)

-- The content of a payload at a type, if it decodes.
abbrev pub content : {A : Type 0} → (List ℕ → Option A) → List ℕ → Option A
content unmarshal payload = elim (decode_typed unmarshal payload) [
  | none ↦ none
  | some (t, a) ↦ some a
]

-- `Handle`, which never returns an error.
unfoldable pub handle_event : Services → Codec → List ℕ → Lobby → Lobby
unfolding parse_event_type decode_typed send_to_game append_character_to_lobby
    remove_character_from_lobby new_lobby_message update_lobby_users delete_lobby_user
handle_event svc codec payload l =
    let event_type = parse_event_type payload in
    if eqb event_type Event.chat
    then handle_chat svc (content codec.unmarshal_chat payload) l
    else if eqb event_type Event.lobby_users
    then handle_lobby_users (content codec.unmarshal_players payload) l
    else if eqb event_type Event.join_lobby
    then handle_join_lobby svc (content codec.unmarshal_player payload) l
    else if eqb event_type Event.leave_lobby
    then handle_leave_lobby svc (content codec.unmarshal_player payload) l
    else l
