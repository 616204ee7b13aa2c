-- ===== src/Console/Multiplayer/Quiet.antt =====
-- Sending messages changes nothing but what was sent and who is still connected.
use gladiator.Prelude.{
  ℕ, ◌≡◌, refl, ◌∙◌, true, Option, none, some, List, [], ◌∷◌, arith, eqb, eqb_iff, if_rule,
}
use gladiator.Prelude.Maps.{Map}
use gladiator.Console.Multiplayer.State.{
  UserSession, Multiplayer, Env, send, send_each, broadcast_message,
}
use gladiator.Console.Multiplayer.Rooms.{notify_left, announce_to}

-- All of a session but `connected`.
abbrev pub profile : UserSession → UserSession
profile s = record s { connected = true }

pub record Quiet (mp' mp : Multiplayer) : Type 0 where
  pub profiles : (q : ℕ) → profile (mp'.heap q) ≡ profile (mp.heap q)
  pub same_next : mp'.next ≡ mp.next
  pub same_sessions : mp'.sessions ≡ mp.sessions
  pub same_rooms : mp'.rooms ≡ mp.rooms
  pub same_relay : mp'.relay ≡ mp.relay

pub Quiet-refl : (mp : Multiplayer) → Quiet mp mp
Quiet-refl mp = record {
  profiles = λ q. refl;
  same_next = refl;
  same_sessions = refl;
  same_rooms = refl;
  same_relay = refl;
}

pub Quiet-trans : {a b c : Multiplayer} → Quiet a b → Quiet b c → Quiet a c
Quiet-trans h k = record {
  profiles = λ q. h.profiles q ∙ k.profiles q;
  same_next = h.same_next ∙ k.same_next;
  same_sessions = h.same_sessions ∙ k.same_sessions;
  same_rooms = h.same_rooms ∙ k.same_rooms;
  same_relay = h.same_relay ∙ k.same_relay;
}

pub send-Quiet :
    (env : Env) (p : ℕ) (payload : List ℕ) (mp : Multiplayer) → Quiet (send env p payload mp) mp
unfolding send
send-Quiet env p payload mp = record {
  profiles = λ q. ground (arith, eqb_iff q p);
  same_next = ground arith;
  same_sessions = ground arith;
  same_rooms = ground arith;
  same_relay = ground arith;
}

pub send_each-Quiet :
    (env : Env) (payload : List ℕ) (sessions : Map ℕ ℕ) (mp : Multiplayer)
    → Quiet (send_each env payload sessions mp) mp
unfolding send_each
send_each-Quiet env payload [] mp = Quiet-refl mp
send_each-Quiet env payload ((id, p) ∷ sessions) mp =
    Quiet-trans (send_each-Quiet env payload sessions (send env p payload mp))
      (send-Quiet env p payload mp)

pub broadcast_message-Quiet :
    (env : Env) (payload : List ℕ) (mp : Multiplayer) → Quiet (broadcast_message env payload mp) mp
unfolding broadcast_message
broadcast_message-Quiet env payload mp = send_each-Quiet env payload mp.sessions mp

pub notify_left-Quiet :
    (env : Env) (leaver : ℕ) (new_host : Option ℕ) (players : Map ℕ ℕ) (mp : Multiplayer)
    → Quiet (notify_left env leaver new_host players mp) mp
unfolding notify_left
notify_left-Quiet env leaver new_host [] mp = Quiet-refl mp
notify_left-Quiet env leaver none ((id, p) ∷ players) mp =
    Quiet-trans (notify_left-Quiet env leaver none players _) (send-Quiet env p _ mp)
notify_left-Quiet env leaver (some h) ((id, p) ∷ players) mp =
    Quiet-trans (notify_left-Quiet env leaver (some h) players _)
      (Quiet-trans (send-Quiet env p _ _) (send-Quiet env p _ mp))

pub announce_to-Quiet :
    (env : Env) (user_id joined : ℕ) (players : Map ℕ ℕ) (mp : Multiplayer)
    → Quiet (announce_to env user_id joined players mp) mp
unfolding announce_to
announce_to-Quiet env user_id joined [] mp = Quiet-refl mp
announce_to-Quiet env user_id joined ((id, p) ∷ players) mp =
    Quiet-trans (announce_to-Quiet env user_id joined players _)
      (if_rule (λ t. Quiet t mp) (eqb id user_id) (Quiet-refl mp) (send-Quiet env p _ mp))
