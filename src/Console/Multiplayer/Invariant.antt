-- ===== src/Console/Multiplayer/Invariant.antt =====
-- The lobby is well formed: tables, rooms and hosts agree.
use gladiator.Prelude.{
  ℕ, ◌≤◌, ◌<◌, ◌≡◌, refl, ap, sym, ◌∙◌, Option, some, Text, arith, eqb_iff, nat_eq, text_Eq,
  text_eq_iff, Option-cases, inl, inr, ◌==◌, Bool-cases, subst,
}
use gladiator.Prelude.Maps.{lookup, insert, lookup-insert, lookup-delete, Distinct}
use gladiator.Console.Relay.{RelayServer}
use gladiator.Console.Multiplayer.State.{
  set_user_session, UserSession, GameRoom, Multiplayer, update, new_multiplayer, new_user_session,
  add_user_session, delete_user_session,
}
use gladiator.Console.Multiplayer.Rooms.{destroy_room}
use gladiator.Console.Multiplayer.Quiet.{Quiet}

-- A room: kept under its identifier, its players under their user ids, its host among them.
pub record IsRoom (heap : ℕ → UserSession) (bound : ℕ) (key : Text) (room : GameRoom) : Type 0 where
  pub room_key : room.id ≡ key
  pub player_key :
      (id p : ℕ) → lookup id room.players ≡ some p → ((heap p).user_id ≡ id) × (p < bound)
  pub distinct : Distinct room.players
  pub host : (h : ℕ) × (room.host_player ≡ some h) × (lookup (heap h).user_id room.players ≡ some h)

pub record IsLobby (mp : Multiplayer) : Type 0 where
  pub session_key :
      (id p : ℕ) → lookup id mp.sessions ≡ some p → ((mp.heap p).user_id ≡ id) × (p < mp.next)
  pub are_rooms :
      (key : Text) (room : GameRoom)
      → lookup key mp.rooms ≡ some room
      → IsRoom mp.heap mp.next key room

-- A room looks only at the user ids of its players.
IsRoom-heap :
    (heap heap' : ℕ → UserSession) (bound bound' : ℕ) (key : Text) (room : GameRoom)
    → ((q : ℕ) → q < bound → (heap' q).user_id ≡ (heap q).user_id)
    → bound ≤ bound'
    → IsRoom heap bound key room
    → IsRoom heap' bound' key room
IsRoom-heap heap heap' bound bound' key room same wide v = record {
  room_key = v.room_key;
  player_key = λ id p h. let (e, b) = v.player_key id p h in (same p b ∙ e, omega arith);
  distinct = v.distinct;
  host = let (h, e, f) = v.host in (h, e, rw (same h (v.player_key _ h f).1) f);
}

-- Operations that leave the rooms and sessions alone, and the user ids of what is allocated.
IsLobby-heap :
    (mp' mp : Multiplayer)
    → ((q : ℕ) → q < mp.next → (mp'.heap q).user_id ≡ (mp.heap q).user_id)
    → mp.next ≤ mp'.next
    → mp'.sessions ≡ mp.sessions
    → mp'.rooms ≡ mp.rooms
    → IsLobby mp
    → IsLobby mp'
IsLobby-heap mp' mp same wide s r v = record {
  session_key = λ id p h.
      let (e, b) = v.session_key id p (sym (ap (lookup id) s) ∙ h) in (same p b ∙ e, omega arith);
  are_rooms = λ key room h.
      IsRoom-heap mp.heap mp'.heap mp.next mp'.next key room same wide
        (v.are_rooms key room (sym (ap (lookup key) r) ∙ h));
}

pub Quiet-IsLobby : {mp' mp : Multiplayer} → Quiet mp' mp → IsLobby mp → IsLobby mp'
Quiet-IsLobby {mp'} {mp} q v =
    IsLobby-heap mp' mp (λ p _. ap (λ (s : UserSession). s.user_id) (q.profiles p))
      (omega (arith, q.same_next)) q.same_sessions q.same_rooms v

pub new_multiplayer-IsLobby : (relay : Option RelayServer) → IsLobby (new_multiplayer relay)
unfolding new_multiplayer lookup
new_multiplayer-IsLobby relay = record {
  session_key = λ id p h. absurd (cc h);
  are_rooms = λ key room h. absurd (cc h);
}

pub new_user_session-IsLobby :
    (id now : ℕ) (mp : Multiplayer) → IsLobby mp → IsLobby (new_user_session id now mp).0
unfolding new_user_session
new_user_session-IsLobby id now mp v =
    IsLobby-heap _ mp (λ q b. ground (arith, eqb_iff q mp.next)) (omega arith) refl refl v

pub set_user_session-IsLobby :
    (p id : ℕ) (mp : Multiplayer)
    → p < mp.next
    → (mp.heap p).user_id ≡ id
    → IsLobby mp
    → IsLobby (set_user_session id p mp)
set_user_session-IsLobby p id mp b e v = record {
  session_key =
      λ j q h. ground (arith, lookup-insert j id p mp.sessions, eqb_iff id j, v.session_key j q);
  are_rooms = v.are_rooms;
}

pub add_user_session-IsLobby :
    (p id : ℕ) (mp : Multiplayer)
    → p < mp.next
    → (mp.heap p).user_id ≡ id
    → IsLobby mp
    → IsLobby (add_user_session id p mp)
unfolding add_user_session
add_user_session-IsLobby p id mp b e v = elim (Option-cases (lookup id mp.sessions)) [
  | inl f ↦ rw (f, add_user_session) (set_user_session-IsLobby p id mp b e v)
  | inr (q, f) ↦ rw (f, add_user_session) v
]

pub delete_user_session-IsLobby :
    (id : ℕ) (mp : Multiplayer) → IsLobby mp → IsLobby (delete_user_session id mp)
unfolding delete_user_session
delete_user_session-IsLobby id mp v = record {
  session_key = λ j q h. ground (arith, lookup-delete j id mp.sessions, v.session_key j q);
  are_rooms = v.are_rooms;
}

pub insert_room-IsLobby :
    (key : Text) (room : GameRoom) (mp : Multiplayer)
    → IsRoom mp.heap mp.next key room
    → IsLobby mp
    → IsLobby (record mp { rooms = insert key room mp.rooms })
insert_room-IsLobby key room mp w v = record {
  session_key = v.session_key;
  are_rooms = λ k r h. elim (Bool-cases (key == k)) [
    | inl e ↦
        subst (λ (x : Text × GameRoom). IsRoom mp.heap mp.next x.0 x.1) {x = (key, room)}
          {y = (k, r)} (ground (arith, e, text_eq_iff key k, lookup-insert k key room mp.rooms)) w
    | inr e ↦ v.are_rooms k r (ground (arith, e, lookup-insert k key room mp.rooms))
  ];
}

pub destroy_room-IsLobby :
    (key : Text) (mp : Multiplayer) → IsLobby mp → IsLobby (destroy_room key mp)
unfolding destroy_room
destroy_room-IsLobby key mp v = record {
  session_key = v.session_key;
  are_rooms = λ k r h. v.are_rooms k r (ground (arith, lookup-delete k key mp.rooms));
}

-- A write to a session that keeps its user id.
pub update-IsLobby :
    (p : ℕ) (s : UserSession) (mp : Multiplayer)
    → s.user_id ≡ (mp.heap p).user_id
    → IsLobby mp
    → IsLobby (record mp { heap = update mp.heap p s })
update-IsLobby p s mp e v =
    IsLobby-heap _ mp (λ q _. ground (arith, eqb_iff q p)) (omega arith) refl refl v
