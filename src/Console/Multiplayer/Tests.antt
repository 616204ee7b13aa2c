-- ===== src/Console/Multiplayer/Tests.antt =====
-- A lobby of two users in one room.
use gladiator.Prelude.{
  ℕ, ◌≤◌, ◌≡◌, refl, ◌⊎◌, Option, none, some, [], ◌∷◌, Text, true, false, eqb, arith, nat_eq,
  text_Eq, text_eq, ◌==◌, if◌then◌else◌, is_empty,
}
use gladiator.Prelude.Maps.{Map, lookup, insert, Distinct}
use gladiator.Wire.{compose}
use gladiator.Console.Multiplayer.State.{
  GameRoom, Multiplayer, Env, new_multiplayer, new_user_session, add_user_session, send,
  send_message, broadcast_message, send_each,
}
use gladiator.Console.Multiplayer.Rooms.{create_room, join_room, leave_room, get_next_host}
use gladiator.Console.Multiplayer.Sessions.{
  set_player_connected, set_player_disconnected, relay_leave,
}
use gladiator.Console.Multiplayer.Invariant.{IsLobby}
use gladiator.Console.Multiplayer.Host.{get_next_host_lem}
use gladiator.Console.Multiplayer.Leaving.{leave_room_lem, room_after, staying}
use gladiator.Console.Multiplayer.Effects.{CannotJoin, Joined, join_room_lem}
use gladiator.Console.Multiplayer.Disconnect.{set_player_disconnected_lem}
use gladiator.Console.Multiplayer.Steps.{
  Reach, here, next_step, connects, appears, creates, joins, Reach-IsLobby,
}

-- Messages are empty, numbers are printed as one code, and no write fails.
abbrev env : Env
env = record {
  codec = record {
    marshal = λ m. [];
    unmarshal = λ bytes. none;
    unmarshal_user = λ bytes. none;
    unmarshal_player = λ bytes. none;
    unmarshal_players = λ bytes. none;
    unmarshal_chat = λ bytes. none;
  };
  itoa = λ n. n ∷ [];
  parse_int = λ t. none;
  write = λ sent p payload. true;
}

-- The room "g".
abbrev g : Text
g = 103 ∷ []

-- User 7 connects and appears; then user 8.
abbrev one_user : Multiplayer
one_user = set_player_connected env 0 (new_user_session 7 100 (new_multiplayer none)).0

abbrev two_users : Multiplayer
two_users = set_player_connected env 1 (new_user_session 8 200 one_user).0

abbrev no_room : GameRoom
no_room = record {
  ready = false;
  id = [];
  name = [];
  password = [];
  map_id = 0;
  host_player = none;
  created_by = 0;
  players = [];
}

-- The state behind a request that succeeds.
abbrev or_none : Option (Multiplayer × GameRoom) → Multiplayer × GameRoom
or_none none = (new_multiplayer none, no_room)
or_none (some x) = x

-- User 7 creates the room, and user 8 joins it.
abbrev created : Multiplayer × GameRoom
created = or_none (create_room 7 g [] 0 [] two_users)

abbrev joined : Multiplayer × GameRoom
joined = or_none (join_room g 8 [] 300 created.0)

created-some : create_room 7 g [] 0 [] two_users ≡ some created
unfolding create_room set_player_connected new_user_session new_multiplayer add_user_session lookup
    insert send send_message broadcast_message send_each compose text_eq
created-some = refl

joined-some : join_room g 8 [] 300 created.0 ≡ some joined
unfolding join_room create_room set_player_connected new_user_session new_multiplayer
    add_user_session lookup insert send send_message broadcast_message send_each compose text_eq
joined-some = refl

room_reached : Reach env (new_multiplayer none) joined.0
unfolding set_player_connected new_user_session new_multiplayer add_user_session send send_message
    broadcast_message send_each compose lookup insert
room_reached =
    next_step
      (next_step
        (next_step
          (next_step
            (next_step (next_step here (connects (new_multiplayer none) 7 100))
              (appears (new_user_session 7 100 (new_multiplayer none)).0 0 (omega arith)))
            (connects one_user 8 200))
          (appears (new_user_session 8 200 one_user).0 1 (omega arith)))
        (creates two_users 7 g [] 0 [] created-some))
      (joins created.0 g 8 [] 300 joined-some)

joined-IsLobby : IsLobby joined.0
joined-IsLobby = Reach-IsLobby env none room_reached

Reach-IsLobby_example : IsLobby joined.0
Reach-IsLobby_example = Reach-IsLobby env none room_reached

join_room_lem_example :
    ((join_room g 8 [] 300 created.0 ≡ none) × CannotJoin created.0 g 8)
    ⊎ ((r : Multiplayer × GameRoom) × (join_room g 8 [] 300 created.0 ≡ some r)
        × Joined created.0 g 8 [] 300 r)
join_room_lem_example = join_room_lem created.0 g 8 [] 300

-- The players of the room, as they are in it.
abbrev players : Map ℕ ℕ
players = (7, 0) ∷ (8, 1) ∷ []

two_users-Distinct : Distinct players
unfolding lookup
two_users-Distinct = (refl, (refl, tt))

get_next_host_lem_example :
    (h : ℕ) × (get_next_host joined.0.heap players ≡ some h)
    × ((id : ℕ) × (lookup id players ≡ some h))
    × ((id p : ℕ)
        → lookup id players ≡ some p
        → (joined.0.heap h).joined_at ≤ (joined.0.heap p).joined_at)
get_next_host_lem_example = get_next_host_lem joined.0.heap players two_users-Distinct refl

in_room : lookup (joined.0.heap 0).game_id joined.0.rooms ≡ some joined.1
unfolding join_room create_room set_player_connected new_user_session new_multiplayer
    add_user_session lookup insert send send_message broadcast_message send_each compose text_eq
in_room = refl

leave_room_lem_example :
    (mp' : Multiplayer) × (host : ℕ) × (leave_room env 0 joined.0 ≡ some mp')
    × (joined.1.host_player ≡ some host)
    × ((k : Text)
        → lookup k mp'.rooms ≡ (
            if (joined.0.heap 0).game_id == k
            then (if is_empty (staying joined.0 0 joined.1 host)
                then none
                else some (room_after joined.0 0 joined.1 host))
            else lookup k joined.0.rooms))
leave_room_lem_example = leave_room_lem env 0 joined.0 joined.1 joined-IsLobby in_room

set_player_disconnected_lem_example :
    (mp' : Multiplayer) × (set_player_disconnected env 0 joined.0 ≡ some mp')
    × ((id : ℕ)
        → lookup id mp'.sessions
          ≡ (if eqb (joined.0.heap 0).user_id id then none else lookup id joined.0.sessions))
    × ((room : GameRoom)
        → lookup (joined.0.heap 0).game_id mp'.rooms ≡ some room
        → lookup (joined.0.heap 0).user_id room.players ≡ none)
    × (mp'.relay ≡ relay_leave env (joined.0.heap 0) joined.0.relay)
set_player_disconnected_lem_example = set_player_disconnected_lem env 0 joined.0 joined-IsLobby
