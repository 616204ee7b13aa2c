-- ===== src/Console/Multiplayer/Effects.antt =====
-- What creating and joining a room does, on every branch.
use gladiator.Prelude.{
  ℕ, ◌≡◌, refl, ◌≢◌, ◌⊎◌, inl, inr, none, some, Text, arith, if◌then◌else◌, eqb, eqb_iff, nat_eq,
  text_Eq, text_eq_iff, Option-cases,
}
use gladiator.Prelude.Maps.{lookup, insert, lookup-insert}
use gladiator.Console.Multiplayer.State.{GameRoom, Multiplayer, update}
use gladiator.Console.Multiplayer.Rooms.{join_room}

-- Why a player cannot join.
abbrev pub CannotJoin : Multiplayer → Text → ℕ → Type 0
CannotJoin mp room_id id =
    (lookup id mp.sessions ≡ none)
    ⊎ (lookup room_id mp.rooms ≡ none)
    ⊎ ((room : GameRoom) × (q : ℕ) × (lookup room_id mp.rooms ≡ some room)
        × (lookup id room.players ≡ some q))

-- What a join changes, where the player was not in the room: the room has one more player, the player's session has
-- the room, the address and the time, and nothing else of the room, of the session and of the state is changed.
abbrev pub Joined : Multiplayer → Text → ℕ → Text → ℕ → Multiplayer × GameRoom → Type 0
Joined mp room_id id ip now (mp', room') =
    (p : ℕ) × (room : GameRoom) × (lookup id mp.sessions ≡ some p)
    × (lookup room_id mp.rooms ≡ some room)
    × (lookup id room.players ≡ none)
    × (lookup room_id mp'.rooms ≡ some room')
    × ((k : Text) → k ≢ room_id → lookup k mp'.rooms ≡ lookup k mp.rooms)
    × (room' ≡ record room { players = room'.players })
    × ((j : ℕ) → lookup j room'.players ≡ (if eqb id j then some p else lookup j room.players))
    × (mp'.heap p ≡ record (mp.heap p) { ip_address = ip; game_id = room.id; joined_at = now })
    × ((q : ℕ) → q ≢ p → mp'.heap q ≡ mp.heap q)
    × (mp' ≡ record mp { heap = mp'.heap; rooms = mp'.rooms })

-- `JoinRoom` fails for a user without a session, a room that is not there and a player who is in the
-- room already, and otherwise the player has joined: all that changes is that the room has the player, and that the
-- player's session has the room, the address and the time.
pub join_room_lem :
    (mp : Multiplayer) (room_id : Text) (id : ℕ) (ip : Text) (now : ℕ)
    → ((join_room room_id id ip now mp ≡ none) × CannotJoin mp room_id id)
      ⊎ ((r : Multiplayer × GameRoom) × (join_room room_id id ip now mp ≡ some r)
          × Joined mp room_id id ip now r)
unfolding join_room
join_room_lem mp room_id id ip now = elim (Option-cases (lookup id mp.sessions)) [
  | inl e ↦ inl (rw (e, join_room), inl e)
  | inr (p, e) ↦ elim (Option-cases (lookup room_id mp.rooms)) [
    | inl f ↦ inl (rw (e, f, join_room), inr (inl f))
    | inr (room, f) ↦ elim (Option-cases (lookup id room.players)) [
      | inr (q, g) ↦ inl (rw (e, f, g, join_room), inr (inr (room, q, f, g)))
      | inl g ↦
          let room' : GameRoom = record room { players = insert id p room.players } in
          inr (
            (
              record mp {
                heap =
                    update mp.heap p
                      (record (mp.heap p) { ip_address = ip; game_id = room.id; joined_at = now });
                rooms = insert room_id room' mp.rooms;
              },
              room',
            ),
            rw (e, f, g, join_room),
            (
              p,
              room,
              e,
              f,
              g,
              ground (
                arith,
                lookup-insert room_id room_id room' mp.rooms,
                text_eq_iff room_id room_id,
              ),
              λ k h.
                  ground (arith, lookup-insert k room_id room' mp.rooms, text_eq_iff room_id k, h),
              refl,
              λ j. lookup-insert j id p room.players,
              ground (arith, eqb_iff p p),
              λ q h. ground (arith, eqb_iff q p, h),
              refl,
            ),
          )
    ]
  ]
]
