-- ===== src/Console/Multiplayer/Leaving.antt =====
-- `LeaveRoom`: it does not panic, the room is left well formed or deleted, and a host is replaced.
use gladiator.Prelude.{
  ℕ, ◌≡◌, ap, sym, ◌∙◌, false, Option, none, some, Text, arith, if◌then◌else◌, eqb, eqb_iff, nat_eq,
  text_Eq, is_empty, Option-cases, inl, inr, ◌==◌, Bool-cases, subst,
}
use gladiator.Prelude.Maps.{
  Map, lookup, insert, delete, lookup-insert, lookup-delete, delete-Distinct,
}
use gladiator.Console.Multiplayer.State.{GameRoom, Multiplayer, Env}
use gladiator.Console.Multiplayer.Rooms.{
  destroy_room, leave_found, leave_with, leave_room, get_next_host,
}
use gladiator.Console.Multiplayer.Quiet.{notify_left-Quiet}
use gladiator.Console.Multiplayer.Invariant.{IsRoom, IsLobby, Quiet-IsLobby, insert_room-IsLobby}
use gladiator.Console.Multiplayer.Host.{get_next_host_lem}

-- The room of a leaver, its players without the leaver, and the host that stays or follows.
module _ (mp : Multiplayer) (p : ℕ) (room : GameRoom) (host : ℕ) where
  abbrev pub staying : Map ℕ ℕ
  staying = delete (mp.heap p).user_id room.players

  abbrev pub host_after : Option ℕ
  host_after =
      if eqb (mp.heap host).user_id (mp.heap p).user_id
      then get_next_host mp.heap staying
      else some host

  abbrev pub room_after : GameRoom
  room_after = record room { players = staying; host_player = host_after }

  room_after-IsRoom :
      (key : Text)
      → room.host_player ≡ some host
      → is_empty staying ≡ false
      → IsRoom mp.heap mp.next key room
      → IsRoom mp.heap mp.next key room_after
  room_after-IsRoom key e n w =
      let distinct = delete-Distinct (mp.heap p).user_id room.players w.distinct in
      let (h, found, (id, member), early) = get_next_host_lem mp.heap staying distinct n in
      let (h', f, k) = w.host in
      let keyed = λ (j q : ℕ) (g : lookup j staying ≡ some q).
        w.player_key j q (ground (arith, lookup-delete j (mp.heap p).user_id room.players, g)) in
      record {
        room_key = w.room_key;
        player_key = keyed;
        distinct = distinct;
        host = elim (Bool-cases (eqb (mp.heap host).user_id (mp.heap p).user_id)) [
          | inl t ↦ (
            h,
            rw t found,
            subst (λ j. lookup j staying ≡ some h) (sym (keyed id h member).0) member,
          )
          | inr t ↦ (
            host,
            rw t,
            ground (
              arith,
              lookup-delete (mp.heap host).user_id (mp.heap p).user_id room.players,
              eqb_iff (mp.heap p).user_id (mp.heap host).user_id,
              t,
              e,
              f,
              k,
            ),
          )
        ];
      }

-- An emptied room is deleted, under its key.
emptied-IsLobby :
    (key : Text) (room left : GameRoom) (mp : Multiplayer)
    → room.id ≡ key
    → IsLobby mp
    → IsLobby (destroy_room room.id (record mp { rooms = insert key left mp.rooms }))
unfolding destroy_room
emptied-IsLobby key room left mp e v = record {
  session_key = v.session_key;
  are_rooms = λ k r h. v.are_rooms k r (
      ground (
        arith,
        lookup-delete k room.id (insert key left mp.rooms),
        lookup-insert k key left mp.rooms,
        e,
      ));
}

leave_found-IsLobby :
    (env : Env) (p : ℕ) (key : Text) (room : GameRoom) (host : ℕ) (mp : Multiplayer)
    → room.host_player ≡ some host
    → IsRoom mp.heap mp.next key room
    → IsLobby mp
    → IsLobby (leave_found env p key room host mp)
unfolding leave_found
leave_found-IsLobby env p key room host mp e w v =
    elim (Bool-cases (is_empty (staying mp p room host))) [
      | inl t ↦ rw t (emptied-IsLobby key room _ mp w.room_key v)
      | inr t ↦ rw t (
          Quiet-IsLobby (notify_left-Quiet env p _ (staying mp p room host) _) (
            insert_room-IsLobby key (room_after mp p room host) mp
              (room_after-IsRoom mp p room host key e t w) v))
    ]

pub leave_room_absent :
    (env : Env) (p : ℕ) (mp : Multiplayer)
    → lookup (mp.heap p).game_id mp.rooms ≡ none
    → leave_room env p mp ≡ some mp
unfolding leave_room
leave_room_absent env p mp e = rw (e, leave_room)

pub leave_room_found :
    (env : Env) (p : ℕ) (mp : Multiplayer) (room : GameRoom) (host : ℕ)
    → lookup (mp.heap p).game_id mp.rooms ≡ some room
    → room.host_player ≡ some host
    → leave_room env p mp ≡ some (leave_found env p (mp.heap p).game_id room host mp)
unfolding leave_room
leave_room_found env p mp room host e f =
    rw (e, leave_room) (ap (λ o. leave_with env p (mp.heap p).game_id room o mp) f)

-- In a well-formed lobby `LeaveRoom` meets no nil host, and keeps the lobby well formed.
pub leave_room-IsLobby :
    (env : Env) (p : ℕ) (mp : Multiplayer)
    → IsLobby mp
    → (mp' : Multiplayer) × (leave_room env p mp ≡ some mp') × IsLobby mp'
leave_room-IsLobby env p mp v = elim (Option-cases (lookup (mp.heap p).game_id mp.rooms)) [
  | inl e ↦ (mp, leave_room_absent env p mp e, v)
  | inr (room, e) ↦
      let w = v.are_rooms (mp.heap p).game_id room e in
      (
        leave_found env p (mp.heap p).game_id room w.host.0 mp,
        leave_room_found env p mp room w.host.0 e w.host.1,
        leave_found-IsLobby env p (mp.heap p).game_id room w.host.0 mp w.host.1 w v,
      )
]

pub leave_found-rooms :
    (env : Env) (p : ℕ) (key : Text) (room : GameRoom) (host : ℕ) (mp : Multiplayer) (k : Text)
    → room.id ≡ key
    → lookup k (leave_found env p key room host mp).rooms ≡ (
        if key == k
        then (if is_empty (staying mp p room host) then none else some (room_after mp p room host))
        else lookup k mp.rooms)
unfolding leave_found destroy_room
leave_found-rooms env p key room host mp k e =
    elim (Bool-cases (is_empty (staying mp p room host))) [
      | inl t ↦ rw t (
          lookup-delete k room.id (insert key left mp.rooms)
          ∙ ground (arith, lookup-insert k key left mp.rooms, e))
      | inr t ↦ rw t (
          ap (lookup k) (notify_left-Quiet env p _ (staying mp p room host) _).same_rooms
          ∙ lookup-insert k key (room_after mp p room host) mp.rooms)
    ]
  where
    left : GameRoom
    left = record room { players = staying mp p room host }

-- What leaving does to the rooms of a well-formed lobby. The room of the leaver loses the player of
-- that user id and is deleted if nobody is left; if the leaver was the host, the host becomes the one
-- whom `GetNextHost` finds among those who stay, and otherwise the host stays. No other room changes.
pub leave_room_lem :
    (env : Env) (p : ℕ) (mp : Multiplayer) (room : GameRoom)
    → IsLobby mp
    → lookup (mp.heap p).game_id mp.rooms ≡ some room
    → (mp' : Multiplayer) × (host : ℕ) × (leave_room env p mp ≡ some mp')
      × (room.host_player ≡ some host)
      × ((k : Text)
          → lookup k mp'.rooms ≡ (
              if (mp.heap p).game_id == k
              then (if is_empty (staying mp p room host)
                  then none
                  else some (room_after mp p room host))
              else lookup k mp.rooms))
leave_room_lem env p mp room v e =
    let w = v.are_rooms (mp.heap p).game_id room e in
    (
      leave_found env p (mp.heap p).game_id room w.host.0 mp,
      w.host.0,
      leave_room_found env p mp room w.host.0 e w.host.1,
      w.host.1,
      λ k. leave_found-rooms env p (mp.heap p).game_id room w.host.0 mp k w.room_key,
    )
