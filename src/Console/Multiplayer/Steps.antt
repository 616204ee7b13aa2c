-- ===== src/Console/Multiplayer/Steps.antt =====
-- Whatever the clients do, in any order, the lobby stays well formed.
use mathlib.Core.Option
use gladiator.Prelude.{
  ℕ, ◌<◌, ◌≡◌, refl, ap, sym, ◌∙◌, true, Option, some, List, [], ◌∷◌, Text, eqb, not, ◌++◌, subst,
  nat_eq, text_Eq, Option-cases, inl, inr, if_rule,
}
use gladiator.Prelude.Maps.{lookup}
use gladiator.Wire.{Message, decode_typed}
use gladiator.Wire.Event
use gladiator.Console.Relay.{RelayServer}
use gladiator.Console.Multiplayer.State.{
  broadcast_message, send, delete_user_session, UserSession, set_user_session, GameRoom,
  Multiplayer, Env, new_multiplayer, new_user_session, send_message,
}
use gladiator.Console.Multiplayer.Rooms.{
  leave_room, create_room, join_room, announce_join, set_room_ready, content_text,
}
use gladiator.Console.Multiplayer.Sessions.{
  relay_leave, read_next, handle_hello, handle_join_lobby, set_player_connected,
  set_player_disconnected, after_leaving, forward_rtc_message, handle_incoming_message,
}
use gladiator.Console.Multiplayer.Quiet.{
  Quiet, Quiet-refl, send-Quiet, broadcast_message-Quiet, announce_to-Quiet,
}
use gladiator.Console.Multiplayer.Invariant.{
  set_user_session-IsLobby, IsLobby, Quiet-IsLobby, new_multiplayer-IsLobby,
  new_user_session-IsLobby, add_user_session-IsLobby, delete_user_session-IsLobby,
  insert_room-IsLobby, update-IsLobby,
}
use gladiator.Console.Multiplayer.Preserved.{Returns, create_room-IsLobby, join_room-IsLobby}
use gladiator.Console.Multiplayer.Leaving.{leave_room-IsLobby}

handle_hello-IsLobby :
    (env : Env) (p : ℕ) (read : Option (List ℕ)) (mp : Multiplayer)
    → IsLobby mp
    → Returns IsLobby (handle_hello env p read mp)
unfolding handle_hello
handle_hello-IsLobby env p read mp v = elim (Option-cases (read_next (mp.heap p) read)) [
  | inl e ↦ rw (e, handle_hello) tt
  | inr (payload, e) ↦ elim (Option-cases (decode_typed env.codec.unmarshal_user payload)) [
    | inl f ↦ rw (e, f, handle_hello) tt
    | inr ((et, content), f) ↦
        rw (e, f, handle_hello)
          (if_rule (Returns IsLobby) (not (eqb et Event.hello)) tt (
            Quiet-IsLobby (send-Quiet env p (Event.welcome ∷ []) _)
              (update-IsLobby p (record (mp.heap p) { user = content }) mp refl v)))
  ]
]

set_room_ready-IsLobby :
    (msg : Message) (mp : Multiplayer) → IsLobby mp → IsLobby (set_room_ready msg mp)
unfolding set_room_ready
set_room_ready-IsLobby msg mp v = elim (Option-cases (content_text msg.content)) [
  | inl e ↦ rw (e, set_room_ready) v
  | inr (room_id, e) ↦ elim (Option-cases (lookup room_id mp.rooms)) [
    | inl f ↦ rw (e, f, set_room_ready) v
    | inr (room, f) ↦
        let w = v.are_rooms room_id room f in
        rw (e, f, set_room_ready)
          (insert_room-IsLobby room_id (record room { ready = true }) mp
            (record {
              room_key = w.room_key;
              player_key = w.player_key;
              distinct = w.distinct;
              host = w.host;
            })
            v)
  ]
]

set_player_connected-IsLobby :
    (env : Env) (p : ℕ) (mp : Multiplayer)
    → p < mp.next
    → IsLobby mp
    → IsLobby (set_player_connected env p mp)
unfolding set_player_connected send_message
set_player_connected-IsLobby env p mp b v = Quiet-IsLobby (broadcast_message-Quiet env _ _) (
    Quiet-IsLobby (send-Quiet env p _ _)
      (add_user_session-IsLobby p (mp.heap p).user_id mp b refl v))

forward_rtc_message-Quiet :
    (env : Env) (msg : Message) (mp : Multiplayer) → Quiet (forward_rtc_message env msg mp) mp
unfolding forward_rtc_message send_message
forward_rtc_message-Quiet env msg mp = elim (Option-cases (env.parse_int msg.to)) [
  | inl e ↦ rw (e, forward_rtc_message) (Quiet-refl mp)
  | inr (id, e) ↦ elim (Option-cases (lookup id mp.sessions)) [
    | inl f ↦ rw (e, f, forward_rtc_message) (Quiet-refl mp)
    | inr (p, f) ↦ rw (e, f, forward_rtc_message) (send-Quiet env p _ mp)
  ]
]

handle_incoming_message-IsLobby :
    (env : Env) (msg : Message) (mp : Multiplayer)
    → IsLobby mp
    → IsLobby (handle_incoming_message env msg mp)
unfolding handle_incoming_message
handle_incoming_message-IsLobby env msg mp v =
    if_rule IsLobby _ (Quiet-IsLobby (broadcast_message-Quiet env _ mp) v) (
      if_rule IsLobby _ (Quiet-IsLobby (forward_rtc_message-Quiet env msg mp) v)
        (if_rule IsLobby _ (set_room_ready-IsLobby msg mp v) v))

announce_join-IsLobby :
    (env : Env) (room : GameRoom) (id : ℕ) (mp : Multiplayer)
    → IsLobby mp
    → IsLobby (announce_join env room id mp)
unfolding announce_join
announce_join-IsLobby env room id mp v = elim (Option-cases (lookup id mp.sessions)) [
  | inl e ↦ rw (e, announce_join) v
  | inr (p, e) ↦
      rw (e, announce_join) (Quiet-IsLobby (announce_to-Quiet env id p room.players mp) v)
]

handle_join_lobby-IsLobby :
    (env : Env) (p : ℕ) (read : Option (List ℕ)) (mp : Multiplayer)
    → IsLobby mp
    → Returns IsLobby (handle_join_lobby env p read mp)
unfolding handle_join_lobby
handle_join_lobby-IsLobby env p read mp v = elim (Option-cases (read_next (mp.heap p) read)) [
  | inl e ↦ rw (e, handle_join_lobby) tt
  | inr (payload, e) ↦ elim (Option-cases (decode_typed env.codec.unmarshal_player payload)) [
    | inl f ↦ rw (e, f, handle_join_lobby) tt
    | inr ((et, content), f) ↦
        rw (e, f, handle_join_lobby)
          (if_rule (Returns IsLobby) (not (eqb et Event.join_lobby)) tt (
            Quiet-IsLobby (send-Quiet env p (Event.joined_lobby ∷ []) _)
              (update-IsLobby p _ mp refl v)))
  ]
]

after_leaving-IsLobby :
    (env : Env) (p : ℕ) (mp : Multiplayer) → IsLobby mp → IsLobby (after_leaving env p mp)
unfolding after_leaving
after_leaving-IsLobby env p mp v = Quiet-IsLobby (broadcast_message-Quiet env _ _) (
    delete_user_session-IsLobby (mp.heap p).user_id _
      (record { session_key = v.session_key; are_rooms = v.are_rooms }))

-- A disconnection does not panic, and keeps the lobby well formed.
pub set_player_disconnected-IsLobby :
    (env : Env) (p : ℕ) (mp : Multiplayer)
    → IsLobby mp
    → (mp' : Multiplayer) × (set_player_disconnected env p mp ≡ some mp') × IsLobby mp'
unfolding set_player_disconnected
set_player_disconnected-IsLobby env p mp v =
    let (left, e, w) =
      leave_room-IsLobby env p (record mp { closed = mp.closed ++ (p ∷ []) })
        (record { session_key = v.session_key; are_rooms = v.are_rooms }) in
    (
      after_leaving env p left,
      ap (Option.map (after_leaving env p)) e,
      after_leaving-IsLobby env p left w,
    )

-- What a client's connection, its requests or the message pump do next. Where a connection that appears or disappears
-- holds no lock, others come in between: `enters` to `tells` are what these two do to the lobby, one by one.
pub data Step (env : Env) : Multiplayer → Multiplayer → Type 0 where
  connects : (mp : Multiplayer) (id now : ℕ) → Step env mp (new_user_session id now mp).0
  greets :
      (mp : Multiplayer) (p : ℕ) (read : Option (List ℕ)) {mp' : Multiplayer}
      → handle_hello env p read mp ≡ some mp'
      → Step env mp mp'
  enters_lobby :
      (mp : Multiplayer) (p : ℕ) (read : Option (List ℕ)) {mp' : Multiplayer}
      → handle_join_lobby env p read mp ≡ some mp'
      → Step env mp mp'
  appears : (mp : Multiplayer) (p : ℕ) → p < mp.next → Step env mp (set_player_connected env p mp)
  disappears :
      (mp : Multiplayer) (p : ℕ) {mp' : Multiplayer}
      → set_player_disconnected env p mp ≡ some mp'
      → Step env mp mp'
  creates :
      (mp : Multiplayer) (id : ℕ) (game_id password : Text) (map_id : ℕ) (ip : Text)
      {r : Multiplayer × GameRoom}
      → create_room id game_id password map_id ip mp ≡ some r
      → Step env mp r.0
  joins :
      (mp : Multiplayer) (room_id : Text) (id : ℕ) (ip : Text) (now : ℕ)
      {r : Multiplayer × GameRoom}
      → join_room room_id id ip now mp ≡ some r
      → Step env mp r.0
  announces :
      (mp : Multiplayer) (room : GameRoom) (id : ℕ) → Step env mp (announce_join env room id mp)
  says : (mp : Multiplayer) (msg : Message) → Step env mp (handle_incoming_message env msg mp)
  enters :
      (mp : Multiplayer) (p : ℕ)
      → p < mp.next
      → Step env mp (set_user_session (mp.heap p).user_id p mp)
  closes : (mp : Multiplayer) (p : ℕ) → Step env mp (record mp { closed = mp.closed ++ (p ∷ []) })
  leaves :
      (mp : Multiplayer) (p : ℕ) {mp' : Multiplayer}
      → leave_room env p mp ≡ some mp'
      → Step env mp mp'
  leaves_relay :
      (mp : Multiplayer) (us : UserSession)
      → Step env mp (record mp { relay = relay_leave env us mp.relay })
  deletes : (mp : Multiplayer) (id : ℕ) → Step env mp (delete_user_session id mp)
  sends : (mp : Multiplayer) (p : ℕ) (payload : List ℕ) → Step env mp (send env p payload mp)
  tells : (mp : Multiplayer) (payload : List ℕ) → Step env mp (broadcast_message env payload mp)

pub data Reach (env : Env) (mp : Multiplayer) : Multiplayer → Type 0 where
  here : Reach env mp mp
  next_step : {t u : Multiplayer} → Reach env mp t → Step env t u → Reach env mp u

Returns-some : {A : Type 0} (P : A → Type 0) {o : Option A} {a : A} → Returns P o → o ≡ some a → P a
Returns-some P {o} {a} h e = subst (Returns P) e h

Step-IsLobby : (env : Env) {mp mp' : Multiplayer} → Step env mp mp' → IsLobby mp → IsLobby mp'
Step-IsLobby env (connects mp id now) v = new_user_session-IsLobby id now mp v
Step-IsLobby env (greets mp p read e) v =
    Returns-some IsLobby (handle_hello-IsLobby env p read mp v) e
Step-IsLobby env (enters_lobby mp p read e) v =
    Returns-some IsLobby (handle_join_lobby-IsLobby env p read mp v) e
Step-IsLobby env (appears mp p b) v = set_player_connected-IsLobby env p mp b v
Step-IsLobby env (disappears mp p {mp'} e) v =
    let (done, f, w) = set_player_disconnected-IsLobby env p mp v in
    Returns-some IsLobby {o = some done} {a = mp'} w (sym f ∙ e)
Step-IsLobby env (creates mp id game_id password map_id ip e) v =
    Returns-some (λ r. IsLobby r.0) (create_room-IsLobby id game_id password map_id ip mp v) e
Step-IsLobby env (joins mp room_id id ip now e) v =
    Returns-some (λ r. IsLobby r.0) (join_room-IsLobby room_id id ip now mp v) e
Step-IsLobby env (announces mp room id) v = announce_join-IsLobby env room id mp v
Step-IsLobby env (says mp msg) v = handle_incoming_message-IsLobby env msg mp v
Step-IsLobby env (enters mp p b) v = set_user_session-IsLobby p (mp.heap p).user_id mp b refl v
Step-IsLobby env (closes mp p) v = record { session_key = v.session_key; are_rooms = v.are_rooms }
Step-IsLobby env (leaves mp p {mp'} e) v =
    let (left, f, w) = leave_room-IsLobby env p mp v in
    Returns-some IsLobby {o = some left} {a = mp'} w (sym f ∙ e)
Step-IsLobby env (leaves_relay mp us) v = record {
  session_key = v.session_key;
  are_rooms = v.are_rooms;
}
Step-IsLobby env (deletes mp id) v = delete_user_session-IsLobby id mp v
Step-IsLobby env (sends mp p payload) v = Quiet-IsLobby (send-Quiet env p payload mp) v
Step-IsLobby env (tells mp payload) v = Quiet-IsLobby (broadcast_message-Quiet env payload mp) v

-- From the new server on, however the steps of the clients are interleaved, and the parts of a connection's appearing
-- and disappearing with them: the table keeps each
-- session under its user id; each room is kept under its identifier, has its players under their user
-- ids, none twice, and has a host, who is one of them.
pub Reach-IsLobby :
    (env : Env) (relay : Option RelayServer) {mp : Multiplayer}
    → Reach env (new_multiplayer relay) mp
    → IsLobby mp
Reach-IsLobby env relay here = new_multiplayer-IsLobby relay
Reach-IsLobby env relay (next_step r s) = Step-IsLobby env s (Reach-IsLobby env relay r)
