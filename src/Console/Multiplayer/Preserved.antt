-- ===== src/Console/Multiplayer/Preserved.antt =====
-- Each operation on the rooms and the sessions keeps the lobby well formed, and none panics.
use gladiator.Prelude.{
  ℕ, ◌<◌, ◌≡◌, refl, false, Option, none, some, [], Text, arith, eqb_iff, nat_eq, text_Eq,
  Option-cases, inl, inr,
}
use gladiator.Prelude.Maps.{lookup, insert, lookup-insert, insert-Distinct}
use gladiator.Console.Multiplayer.State.{GameRoom, Multiplayer, update}
use gladiator.Console.Multiplayer.Rooms.{create_room, join_room}
use gladiator.Console.Multiplayer.Invariant.{IsRoom, IsLobby, insert_room-IsLobby, update-IsLobby}

-- What holds of the state that an operation returns.
abbrev pub Returns {ℓ} : {A : Type 0} → (A → Type ℓ) → Option A → Type ℓ
Returns P none = Unit
Returns P (some a) = P a

-- The state of a creator's new room.
module _ (mp : Multiplayer) (p : ℕ) (game_id password : Text) (map_id : ℕ) where
  abbrev fresh_room : GameRoom
  fresh_room = record {
    ready = false;
    id = game_id;
    name = game_id;
    password = password;
    map_id = map_id;
    host_player = some p;
    created_by = p;
    players = insert (mp.heap p).user_id p [];
  }

  fresh_room-IsRoom : p < mp.next → IsRoom mp.heap mp.next game_id fresh_room
  unfolding lookup insert
  fresh_room-IsRoom b = record {
    room_key = refl;
    player_key = λ id q h. ground (arith, eqb_iff (mp.heap p).user_id id);
    distinct = ground arith;
    host = (p, refl, ground (arith, eqb_iff (mp.heap p).user_id (mp.heap p).user_id));
  }

create_room_done :
    (id : ℕ) (game_id password : Text) (map_id : ℕ) (ip : Text) (mp : Multiplayer) (p : ℕ)
    → lookup id mp.sessions ≡ some p
    → lookup game_id mp.rooms ≡ none
    → create_room id game_id password map_id ip mp
      ≡ some (
        record mp {
          heap = update mp.heap p (record (mp.heap p) { game_id = game_id; ip_address = ip });
          rooms = insert game_id (fresh_room mp p game_id password map_id) mp.rooms;
        },
        fresh_room mp p game_id password map_id,
      )
unfolding create_room
create_room_done id game_id password map_id ip mp p e f = rw (e, f, create_room)

pub create_room-IsLobby :
    (id : ℕ) (game_id password : Text) (map_id : ℕ) (ip : Text) (mp : Multiplayer)
    → IsLobby mp
    → Returns (λ r. IsLobby r.0) (create_room id game_id password map_id ip mp)
unfolding create_room
create_room-IsLobby id game_id password map_id ip mp v =
    elim (Option-cases (lookup id mp.sessions)) [
      | inl e ↦ rw (e, create_room) tt
      | inr (p, e) ↦ elim (Option-cases (lookup game_id mp.rooms)) [
        | inr (room, f) ↦ rw (e, f, create_room) tt
        | inl f ↦
            rw (e, f, create_room)
              (update-IsLobby p (record (mp.heap p) { game_id = game_id; ip_address = ip })
                (record mp {
                  rooms = insert game_id (fresh_room mp p game_id password map_id) mp.rooms;
                })
                refl
                (insert_room-IsLobby game_id (fresh_room mp p game_id password map_id) mp
                  (fresh_room-IsRoom mp p game_id password map_id (v.session_key id p e).1) v))
      ]
    ]

-- A room with one more player.
joined-IsRoom :
    (mp : Multiplayer) (key : Text) (room : GameRoom) (id p : ℕ)
    → (mp.heap p).user_id ≡ id
    → p < mp.next
    → lookup id room.players ≡ none
    → IsRoom mp.heap mp.next key room
    → IsRoom mp.heap mp.next key (record room { players = insert id p room.players })
joined-IsRoom mp key room id p e b new w = record {
  room_key = w.room_key;
  player_key =
      λ j q h. ground (arith, lookup-insert j id p room.players, eqb_iff id j, w.player_key j q);
  distinct = insert-Distinct id p room.players w.distinct;
  host =
      let (h, f, k) = w.host in
      (
        h,
        f,
        ground (
          arith,
          lookup-insert (mp.heap h).user_id id p room.players,
          eqb_iff id (mp.heap h).user_id,
        ),
      );
}

pub join_room-IsLobby :
    (room_id : Text) (id : ℕ) (ip : Text) (now : ℕ) (mp : Multiplayer)
    → IsLobby mp
    → Returns (λ r. IsLobby r.0) (join_room room_id id ip now mp)
unfolding join_room
join_room-IsLobby room_id id ip now mp v = elim (Option-cases (lookup id mp.sessions)) [
  | inl e ↦ rw (e, join_room) tt
  | inr (p, e) ↦ elim (Option-cases (lookup room_id mp.rooms)) [
    | inl f ↦ rw (e, f, join_room) tt
    | inr (room, f) ↦ elim (Option-cases (lookup id room.players)) [
      | inr (q, g) ↦ rw (e, f, g, join_room) tt
      | inl g ↦
          rw (e, f, g, join_room)
            (update-IsLobby p
              (record (mp.heap p) { ip_address = ip; game_id = room.id; joined_at = now })
              (record mp {
                rooms =
                    insert room_id (record room { players = insert id p room.players }) mp.rooms;
              })
              refl
              (insert_room-IsLobby room_id (record room { players = insert id p room.players }) mp
                (joined-IsRoom mp room_id room id p (v.session_key id p e).0
                  (v.session_key id p e).1 g (v.are_rooms room_id room f))
                v))
    ]
  ]
]
