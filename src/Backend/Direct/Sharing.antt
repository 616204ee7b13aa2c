-- ===== src/Backend/Direct/Sharing.antt =====
-- What the proxy for the local network does to the session that it shares.
use gladiator.Prelude.{if_rule, refl, [], Text, option_rule}
use gladiator.Backend.Session.{Session, Outcome, send_event, send_set_room_ready, send_event_to}
use gladiator.Backend.Proxy.{GameData, JoinParams, Answer, find_host_user}
use gladiator.Backend.Dispatcher.Guarded.{Extends, append_nil, call-Extends}
use gladiator.Backend.Dispatcher.Rooms.{Obeys}
use gladiator.Backend.Direct.{Lan, LanWorld, lan, create_room, host_room, select_game, join}

unmoved : (s : Session) → Extends s s
unmoved s = (refl, refl, [], append_nil s.calls)

module _ (w : LanWorld) where
  create_room-Extends :
      (game_id : Text) (s : Session) (p : Lan) → Extends s (create_room w game_id (s, p)).0.0
  unfolding create_room
  create_room-Extends game_id s p =
      option_rule (λ (x : (Session × Lan) × Answer). Extends s x.0.0) (w.parse_ip p.my_ip_address)
        (unmoved s) (λ ip e. unmoved s)

  host_room-Extends :
      (game_id : Text) (s : Session) (p : Lan) → Extends s (host_room w game_id (s, p)).0.0
  unfolding host_room send_set_room_ready send_event_to
  host_room-Extends game_id s p =
      if_rule (λ (x : Session × Outcome). Extends s x.0) s.ws_conn (call-Extends (send_event _) s)
        (unmoved s)

  select_game-Extends :
      (d : GameData) (s : Session) (p : Lan) → Extends s (select_game w d (s, p)).0.0
  unfolding select_game
  select_game-Extends d s p =
      option_rule (λ (x : (Session × Lan) × Outcome). Extends s x.0.0) (find_host_user d)
        (unmoved s) (λ host e. unmoved s)

  join-Extends :
      (params : JoinParams) (s : Session) (p : Lan) → Extends s (join w params (s, p)).0.0
  unfolding join
  join-Extends params s p =
      let K : (Session × Lan) × Answer → Type 0 = λ x. Extends s x.0.0 in
      option_rule K (w.parse_ip p.my_ip_address) (unmoved s)
        (λ ip e. option_rule K p.game_room (unmoved s) (λ room f. unmoved s))

  pub lan-Obeys : Obeys (lan w)
  lan-Obeys = record {
    create_room-Extends = create_room-Extends;
    host_room-Extends = host_room-Extends;
    select_game-Extends = select_game-Extends;
    join-Extends = join-Extends;
    close-Quiet = λ s p. (refl, refl, refl);
  }
