-- ===== src/Console/Multiplayer/Rooms.antt =====
-- internal/console/multiplayer.go: the game rooms. `none` is an error that changes nothing; where a
-- nil host would be dereferenced, it is the panic.
use gladiator.Prelude.{
  ℕ, true, false, Option, none, some, [], ◌∷◌, Text, if◌then◌else◌, ltb, eqb, nat_eq, text_Eq,
  is_empty,
}
use gladiator.Prelude.Maps.{Map, lookup, insert, delete}
use gladiator.Wire.{Player, Message, Content, player, text, compose}
use gladiator.Wire.Event
use gladiator.Console.Multiplayer.State.{
  UserSession, GameRoom, Multiplayer, Env, update, get_user_session, send,
}

abbrev pub get_room : Text → Multiplayer → Option GameRoom
get_room room_id mp = lookup room_id mp.rooms

unfoldable pub create_room :
    ℕ → Text → Text → ℕ → Text → Multiplayer → Option (Multiplayer × GameRoom)
create_room host_user_id game_id password map_id host_ip_address mp =
    elim (get_user_session host_user_id mp) [
      | none ↦ none
      | some p ↦ elim (lookup game_id mp.rooms) [
        | some _ ↦ none
        | none ↦
            let host = mp.heap p in
            let room : GameRoom = record {
              ready = false;
              id = game_id;
              name = game_id;
              password = password;
              map_id = map_id;
              host_player = some p;
              created_by = p;
              players = insert host.user_id p [];
            } in
            some (
              record mp {
                heap =
                    update mp.heap p
                      (record host { game_id = game_id; ip_address = host_ip_address });
                rooms = insert game_id room mp.rooms;
              },
              room,
            )
      ]
    ]

unfoldable pub destroy_room : Text → Multiplayer → Multiplayer
destroy_room room_id mp = record mp { rooms = delete room_id mp.rooms }

unfoldable pub join_room : Text → ℕ → Text → ℕ → Multiplayer → Option (Multiplayer × GameRoom)
join_room room_id user_id ip_addr now mp = elim (lookup user_id mp.sessions) [
  | none ↦ none
  | some p ↦ elim (lookup room_id mp.rooms) [
    | none ↦ none
    | some room ↦ elim (lookup user_id room.players) [
      | some _ ↦ none
      | none ↦
          let room' = record room { players = insert user_id p room.players } in
          some (
            record mp {
              heap =
                  update mp.heap p (record (mp.heap p) {
                    ip_address = ip_addr;
                    game_id = room.id;
                    joined_at = now;
                  });
              rooms = insert room_id room' mp.rooms;
            },
            room',
          )
    ]
  ]
]

-- The player who joined earliest among `earliest` and the players; the first of several.
unfoldable pub next_host_from : (ℕ → UserSession) → Option ℕ → Map ℕ ℕ → Option ℕ
next_host_from heap earliest [] = earliest
next_host_from heap none ((id, p) ∷ players) = next_host_from heap (some p) players
next_host_from heap (some e) ((id, p) ∷ players) =
    next_host_from heap (some (if ltb (heap p).joined_at (heap e).joined_at then p else e)) players

unfoldable pub get_next_host : (ℕ → UserSession) → Map ℕ ℕ → Option ℕ
unfolding next_host_from
get_next_host heap players = next_host_from heap none players

-- The content that announces a session in a room.
abbrev pub room_player : UserSession → Player
room_player s = record {
  user_id = s.user_id;
  username = s.user.username;
  character_id = s.character.character_id;
  class_type = s.character.class_type;
  ip_address = s.ip_address;
}

abbrev pub announcement : Env → Event.EventType → ℕ → UserSession → Message
announcement env type id s = record {
  to = env.itoa id;
  from = env.itoa s.user_id;
  type = type;
  content = player (room_player s);
}

-- The loop of `LeaveRoom` over the players that stay. `new_host` is there if the leaver was the host.
unfoldable pub notify_left : Env → ℕ → Option ℕ → Map ℕ ℕ → Multiplayer → Multiplayer
notify_left env leaver new_host [] mp = mp
notify_left env leaver new_host ((id, p) ∷ players) mp =
    let message = announcement env Event.leave_room id (mp.heap leaver) in
    let mp = send env p (compose env.codec Event.leave_room message) mp in
    let mp : Multiplayer = elim new_host [
      | none ↦ mp
      | some h ↦
          send env p
            (compose env.codec Event.host_migration
              (announcement env Event.host_migration id (mp.heap h)))
            mp
    ] in
    notify_left env leaver new_host players mp

-- `LeaveRoom` once the room and its host are found; the room is kept under `key`.
unfoldable pub leave_found : Env → ℕ → Text → GameRoom → ℕ → Multiplayer → Multiplayer
unfolding get_next_host
leave_found env p key room host mp =
    let was_host = eqb (mp.heap host).user_id (mp.heap p).user_id in
    let players = delete (mp.heap p).user_id room.players in
    let new_host = get_next_host mp.heap players in
    let left = record room { players = players } in
    let moved = record left { host_player = if was_host then new_host else some host } in
    if is_empty players
    then destroy_room room.id (record mp { rooms = insert key left mp.rooms })
    else notify_left env p (if was_host then new_host else none) players
        (record mp { rooms = insert key moved mp.rooms })

-- Its host decides: a nil host is dereferenced.
unfoldable pub leave_with : Env → ℕ → Text → GameRoom → Option ℕ → Multiplayer → Option Multiplayer
leave_with env p key room none mp = none
leave_with env p key room (some host) mp = some (leave_found env p key room host mp)

unfoldable pub leave_room : Env → ℕ → Multiplayer → Option Multiplayer
unfolding leave_with
leave_room env p mp = elim (lookup (mp.heap p).game_id mp.rooms) [
  | none ↦ some mp
  | some room ↦ leave_with env p (mp.heap p).game_id room room.host_player mp
]

-- The loop of `AnnounceJoin`, over the copy of the room that the caller holds.
unfoldable pub announce_to : Env → ℕ → ℕ → Map ℕ ℕ → Multiplayer → Multiplayer
announce_to env user_id joined [] mp = mp
announce_to env user_id joined ((id, p) ∷ players) mp =
    let message = record (announcement env Event.join_room id (mp.heap joined)) {
      from = env.itoa user_id;
    } in
    announce_to env user_id joined players
      (if eqb id user_id then mp else send env p (compose env.codec Event.join_room message) mp)

unfoldable pub announce_join : Env → GameRoom → ℕ → Multiplayer → Multiplayer
unfolding announce_to
announce_join env room user_id mp = elim (lookup user_id mp.sessions) [
  | none ↦ mp
  | some joined ↦ announce_to env user_id joined room.players mp
]

-- The room that a message names; content of another type names none.
abbrev pub content_text : Content → Option Text
content_text (text t) = some t
content_text _ = none

unfoldable pub set_room_ready : Message → Multiplayer → Multiplayer
set_room_ready msg mp = elim (content_text msg.content) [
  | none ↦ mp
  | some room_id ↦ elim (lookup room_id mp.rooms) [
    | none ↦ mp
    | some room ↦ record mp { rooms = insert room_id (record room { ready = true }) mp.rooms }
  ]
]
