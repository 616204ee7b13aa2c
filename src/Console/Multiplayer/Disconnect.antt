-- ===== src/Console/Multiplayer/Disconnect.antt =====
-- `SetPlayerDisconnected`: what is left of a user behind it.
use mathlib.Core.Option
use gladiator.Prelude.{
  ℕ, ◌≡◌, refl, ap, sym, ◌∙◌, Option, none, some, [], ◌∷◌, Text, arith, if◌then◌else◌, eqb, nat_eq,
  text_Eq, text_eq_iff, is_empty, Option-cases, Bool-cases, inl, inr, ◌++◌,
}
use gladiator.Prelude.Maps.{lookup, lookup-delete, lookup-delete_self}
use gladiator.Console.Relay.{RelayServer}
use gladiator.Console.Multiplayer.State.{
  UserSession, GameRoom, Multiplayer, Env, delete_user_session,
}
use gladiator.Console.Multiplayer.Rooms.{destroy_room, leave_found, leave_room}
use gladiator.Console.Multiplayer.Sessions.{set_player_disconnected, after_leaving, relay_leave}
use gladiator.Console.Multiplayer.Quiet.{profile, notify_left-Quiet, broadcast_message-Quiet}
use gladiator.Console.Multiplayer.Invariant.{IsLobby}
use gladiator.Console.Multiplayer.Leaving.{
  leave_found-rooms, leave_room_absent, leave_room_found, staying,
}

-- Leaving a room changes no session but its connection, and not the table.
pub record SameUsers (mp' mp : Multiplayer) : Type 0 where
  pub profiles : (q : ℕ) → profile (mp'.heap q) ≡ profile (mp.heap q)
  pub same_sessions : mp'.sessions ≡ mp.sessions
  pub same_relay : mp'.relay ≡ mp.relay

leave_found-SameUsers :
    (env : Env) (p : ℕ) (key : Text) (room : GameRoom) (host : ℕ) (mp : Multiplayer)
    → SameUsers (leave_found env p key room host mp) mp
unfolding leave_found destroy_room
leave_found-SameUsers env p key room host mp =
    elim (Bool-cases (is_empty (staying mp p room host))) [
      | inl t ↦ rw t (record { profiles = λ q. refl; same_sessions = refl; same_relay = refl })
      | inr t ↦ rw t (
          let quiet = notify_left-Quiet env p _ (staying mp p room host) _ in
          record {
            profiles = quiet.profiles;
            same_sessions = quiet.same_sessions;
            same_relay = quiet.same_relay;
          })
    ]

-- The room that session `p` pointed to is gone, or has not its user.
abbrev pub Gone : Multiplayer → ℕ → Multiplayer → Type 0
Gone mp p mp' =
    (room : GameRoom)
    → lookup (mp.heap p).game_id mp'.rooms ≡ some room
    → lookup (mp.heap p).user_id room.players ≡ none

leave_found-Gone :
    (env : Env) (p : ℕ) (room : GameRoom) (host : ℕ) (mp : Multiplayer)
    → room.id ≡ (mp.heap p).game_id
    → Gone mp p (leave_found env p (mp.heap p).game_id room host mp)
leave_found-Gone env p room host mp k left e = ground (
  arith,
  leave_found-rooms env p (mp.heap p).game_id room host mp (mp.heap p).game_id k,
  text_eq_iff (mp.heap p).game_id (mp.heap p).game_id,
  lookup-delete_self (mp.heap p).user_id room.players,
  e,
)

leave_room-Gone :
    (env : Env) (p : ℕ) (mp : Multiplayer)
    → IsLobby mp
    → (mp' : Multiplayer) × (leave_room env p mp ≡ some mp') × SameUsers mp' mp × Gone mp p mp'
leave_room-Gone env p mp v = elim (Option-cases (lookup (mp.heap p).game_id mp.rooms)) [
  | inl e ↦ (
    mp,
    leave_room_absent env p mp e,
    record { profiles = λ q. refl; same_sessions = refl; same_relay = refl },
    λ room h. absurd (cc (e, h)),
  )
  | inr (room, e) ↦
      let w = v.are_rooms (mp.heap p).game_id room e in
      (
        leave_found env p (mp.heap p).game_id room w.host.0 mp,
        leave_room_found env p mp room w.host.0 e w.host.1,
        leave_found-SameUsers env p (mp.heap p).game_id room w.host.0 mp,
        leave_found-Gone env p room w.host.0 mp w.room_key,
      )
]

relay_leave-same :
    (env : Env) (a b : UserSession) (relay : Option RelayServer)
    → a.user_id ≡ b.user_id
    → a.game_id ≡ b.game_id
    → relay_leave env a relay ≡ relay_leave env b relay
relay_leave-same env a b none e f = refl
relay_leave-same env a b (some rs) e f = rw (e, f) refl

-- What `after_leaving` does to the tables.
after_leaving_lem :
    (env : Env) (p : ℕ) (left mp : Multiplayer)
    → SameUsers left mp
    → ((id : ℕ)
        → lookup id (after_leaving env p left).sessions
          ≡ (if eqb (mp.heap p).user_id id then none else lookup id mp.sessions))
      × ((after_leaving env p left).rooms ≡ left.rooms)
      × ((after_leaving env p left).relay ≡ relay_leave env (mp.heap p) mp.relay)
unfolding after_leaving delete_user_session
after_leaving_lem env p left mp s =
    let quiet = broadcast_message-Quiet env _ _ in
    let same_id = ap (λ (u : UserSession). u.user_id) (s.profiles p) in
    let same_game = ap (λ (u : UserSession). u.game_id) (s.profiles p) in
    (
      λ id.
          ap (lookup id) quiet.same_sessions
          ∙ lookup-delete id (left.heap p).user_id left.sessions
          ∙ rw (same_id, s.same_sessions) refl,
      quiet.same_rooms,
      quiet.same_relay
          ∙ rw (s.same_relay)
              (relay_leave-same env (left.heap p) (mp.heap p) mp.relay same_id same_game),
    )

-- A disconnection of session `p` in a well-formed lobby: the table loses the entry of its user id and
-- no other, also if that entry is another session of the user; the room that `p` points to is gone or
-- no longer has the user; and the relay, if there is one, is told.
pub set_player_disconnected_lem :
    (env : Env) (p : ℕ) (mp : Multiplayer)
    → IsLobby mp
    → (mp' : Multiplayer) × (set_player_disconnected env p mp ≡ some mp')
      × ((id : ℕ)
          → lookup id mp'.sessions
            ≡ (if eqb (mp.heap p).user_id id then none else lookup id mp.sessions))
      × ((room : GameRoom)
          → lookup (mp.heap p).game_id mp'.rooms ≡ some room
          → lookup (mp.heap p).user_id room.players ≡ none)
      × (mp'.relay ≡ relay_leave env (mp.heap p) mp.relay)
unfolding set_player_disconnected
set_player_disconnected_lem env p mp v =
    let start : Multiplayer = record mp { closed = mp.closed ++ (p ∷ []) } in
    let (left, e, s, gone) =
      leave_room-Gone env p start
        (record { session_key = v.session_key; are_rooms = v.are_rooms }) in
    let (sessions, rooms, relay) = after_leaving_lem env p left start s in
    (
      after_leaving env p left,
      ap (Option.map (after_leaving env p)) e,
      sessions,
      λ room h. gone room (sym (ap (lookup (mp.heap p).game_id) rooms) ∙ h),
      relay,
    )
