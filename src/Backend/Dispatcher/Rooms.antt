-- ===== src/Backend/Dispatcher/Rooms.antt =====
-- The handlers about games keep the session's calls guarded, whatever the proxy, as long as it changes no user and
-- only adds calls.
use gladiator.Prelude.Buffers.{bytes_32}
use gladiator.Backend.Dispatcher.Clients.{user_ne, Q}
use gladiator.Model.Lobby.{game_state_started, game_state_none, game_state_creating}
use gladiator.Backend.Requests.Games.{
  parse_select_game, parse_create_game, parse_join_game, CreateGameRequestData,
}
use gladiator.Backend.Dispatcher.Guarded.{
  Quiet, send_to_game-Quiet, call-Extends, Quiet-Extends, Extends-Guarded, Extends-trans, Guarded,
  Extends,
}
use gladiator.Backend.Handlers.Games.{
  list_rooms, list_players, connect_players, joined_reply, handle_create_game, handle_list_games,
  handle_join_game, handle_select_game, open_game, enter_game, start_game,
}
use gladiator.Prelude.{
  false, ℕ, ◌≡◌, List, [], ◌∷◌, ◌++◌, eqb, if_rule, option_rule, branch_rule, length, Text,
}
use gladiator.Packet.Encoder
use gladiator.Packet.Encoder.{Code}
use gladiator.Backend.Session
use gladiator.Backend.Session.{
  outcome_rule, list_games, get_game, call, send_to_game, Call, Session, Outcome,
}
use gladiator.Backend.Proxy.{
  address, failed, panicked, RemotePlayer, JoinParams, address, GameData, ProxyClient, Answer,
}
use gladiator.Backend.Client.{Remote, Client}

-- What a proxy may do to the session that it shares.
pub record Obeys {P : Type 0} (px : ProxyClient P) : Type 0 where
  pub create_room-Extends :
      (game_id : Text) (s : Session) (p : P) → Extends s (px.create_room game_id (s, p)).0.0
  pub host_room-Extends :
      (game_id : Text) (s : Session) (p : P) → Extends s (px.host_room game_id (s, p)).0.0
  pub select_game-Extends :
      (d : GameData) (s : Session) (p : P) → Extends s (px.select_game d (s, p)).0.0
  pub join-Extends :
      (params : JoinParams) (s : Session) (p : P) → Extends s (px.join params (s, p)).0.0
  pub close-Quiet : (s : Session) (p : P) → Quiet s (px.close (s, p)).0.0

-- What holds of the three branches on an answer.
answer_rule :
    {B : Type 0} (K : B → Type 0) (o : Answer) {f : List ℕ → B} {y z : B}
    → ((ip : List ℕ) → K (f ip))
    → K y
    → K z
    → K (elim o [ address ip ↦ f ip | failed ↦ y | panicked ↦ z ])
answer_rule K (address ip) h k l = h ip
answer_rule K failed h k l = k
answer_rule K panicked h k l = l

-- The session of a handler's result, against that of its start.
abbrev E : {P : Type 0} → Session → Client P × Outcome → Type 0
E s x = Extends s x.0.session

module _ (r : Remote) (s : Session) where
  then_calls : (t : Session) (c : Call) → Extends s t → Extends s (call c t)
  then_calls t c e = Extends-trans s t (call c t) e (call-Extends c t)

  then_sends :
      (code : Code) (payload : List ℕ) (t : Session)
      → Extends s t
      → Extends s (send_to_game r.services code payload t).0
  then_sends code payload t e = Extends-trans s t (send_to_game r.services code payload t).0 e (
      Quiet-Extends t (send_to_game r.services code payload t).0
        (send_to_game-Quiet r.services code payload t))

module _ {P : Type 0} (r : Remote) (px : ProxyClient P) (law : Obeys px) where
  open_game-Extends : (d : CreateGameRequestData) (c : Client P) → E c.session (open_game r px d c)
  unfolding open_game
  open_game-Extends d c =
      let s = c.session in
      let made = px.create_room d.room_name (s, c.proxy) in
      let e = law.create_room-Extends d.room_name s c.proxy in
      answer_rule (E s) made.1
        (λ ip.
          let ask =
            Session.create_game d.room_name d.password d.map_id made.0.0.user_id (r.ip_string ip) in
          let asked = then_calls r s made.0.0 ask e in
          if_rule (E s) (r.services.accepts made.0.0.calls ask)
            (then_sends r s Encoder.create_game (game_state_creating ∷ 0 ∷ 0 ∷ 0 ∷ [])
              (call ask made.0.0) asked)
            (then_sends r s Encoder.create_game (2 ∷ 0 ∷ 0 ∷ 0 ∷ []) (call ask made.0.0) asked))
        (then_sends r s Encoder.create_game (2 ∷ 0 ∷ 0 ∷ 0 ∷ []) made.0.0 e) e

  start_game-Extends :
      (d : CreateGameRequestData) (c : Client P) → E c.session (start_game r px d c)
  unfolding start_game
  start_game-Extends d c =
      let s = c.session in
      let get = get_game d.room_name in
      option_rule (E s) (r.get_game s.calls d.room_name) (call-Extends get s) (λ g f.
        let hosted = px.host_room g.game.name (call get s, c.proxy) in
        let e =
          Extends-trans s (call get s) hosted.0.0 (call-Extends get s)
            (law.host_room-Extends g.game.name (call get s) c.proxy) in
        outcome_rule (E s) hosted.1
          (then_sends r s Encoder.create_game (game_state_started ∷ 0 ∷ 0 ∷ 0 ∷ []) hosted.0.0 e) e
          e)

  joined_reply-Extends :
      (s : Session) (g : GameData) (players : List RemotePlayer) (c : Client P)
      → Extends s c.session
      → E s (joined_reply r px g players c)
  joined_reply-Extends s g players c e =
      let bs = connect_players r px g players (c.session, c.proxy) in
      outcome_rule (E s) bs.1
        (then_sends r s Encoder.join_game (game_state_started ∷ 0 ∷ bs.0) c.session e) e e

  enter_game-Extends :
      (s : Session) (g : GameData) (c : Client P) → Extends s c.session → E s (enter_game r px g c)
  unfolding enter_game
  enter_game-Extends s g c e =
      let params : JoinParams = record {
        host_user_id = g.game.host_user_id;
        game_id = g.game.name;
        host_user_ip = g.game.host_ip_address;
      } in
      let joined = px.join params (c.session, c.proxy) in
      let e' = Extends-trans s c.session joined.0.0 e (law.join-Extends params c.session c.proxy) in
      answer_rule (E s) joined.1
        (λ ip.
          let ask = Session.join_game joined.0.0.user_id g.game.game_id (r.ip_string ip) in
          let asked = then_calls r s joined.0.0 ask e' in
          option_rule (E s) (r.join_game joined.0.0.calls g.game.game_id) asked (λ players f.
            joined_reply-Extends s g players
              (record c { session = call ask joined.0.0; proxy = joined.0.1 }) asked))
        e' e'

  module _ (req : List ℕ) (c : Client P) (v : Guarded r.services c.session) where
    -- What a session with a user does.
    allowed :
        (t : Session) → eqb c.session.user_id 0 ≡ false → Extends c.session t → Guarded r.services t
    allowed t n e = Extends-Guarded r.services c.session t (user_ne r c.session n) e v

    sends_allowed :
        (code : Code) (payload : List ℕ) (t : Session)
        → eqb c.session.user_id 0 ≡ false
        → Extends c.session t
        → Guarded r.services (send_to_game r.services code payload t).0
    sends_allowed code payload t n e =
        allowed (send_to_game r.services code payload t).0 n
          (then_sends r c.session code payload t e)

    pub handle_list_games-Guarded : (Q r) (handle_list_games r px req c)
    unfolding handle_list_games
    handle_list_games-Guarded =
        let s = c.session in
        branch_rule (Q r) (eqb s.user_id 0) (λ n. v)
          (λ n.
            option_rule (Q r) (r.list_games s.calls)
              (allowed (call list_games s) n (call-Extends list_games s))
              (λ rooms f.
                sends_allowed Encoder.list_games
                  (bytes_32 (length rooms) ++ list_rooms r px c.proxy rooms) (call list_games s) n
                  (call-Extends list_games s)))

    pub handle_create_game-Guarded : (Q r) (handle_create_game r px req c)
    unfolding handle_create_game
    handle_create_game-Guarded =
        branch_rule (Q r) (eqb c.session.user_id 0) (λ n. v)
          (λ n. option_rule (Q r) (parse_create_game req) v (λ d f.
            if_rule (Q r) (eqb d.state game_state_none)
              (allowed (open_game r px d c).0.session n (open_game-Extends d c))
              (if_rule (Q r) (eqb d.state game_state_creating)
                (allowed (start_game r px d c).0.session n (start_game-Extends d c)) v)))

    pub handle_select_game-Guarded : (Q r) (handle_select_game r px req c)
    unfolding handle_select_game
    handle_select_game-Guarded =
        branch_rule (Q r) (eqb c.session.user_id 0) (λ n. v)
          (λ n. option_rule (Q r) (parse_select_game req) v (λ room_name f.
            let s = c.session in
            let get = get_game room_name in
            option_rule (Q r) (r.get_game s.calls room_name)
              (allowed (call get s) n (call-Extends get s))
              (λ g h.
                let chosen = px.select_game g (call get s, c.proxy) in
                let e =
                  Extends-trans s (call get s) chosen.0.0 (call-Extends get s)
                    (law.select_game-Extends g (call get s) c.proxy) in
                let left = allowed chosen.0.0 n e in
                outcome_rule (Q r) chosen.1
                  (option_rule (Q r) (list_players r px g g.players chosen.0) left (λ bs k.
                    sends_allowed Encoder.select_game (bytes_32 g.game.map_id ++ bs) chosen.0.0 n
                      e))
                  left left)))

    pub handle_join_game-Guarded : (Q r) (handle_join_game r px req c)
    unfolding handle_join_game
    handle_join_game-Guarded =
        branch_rule (Q r) (eqb c.session.user_id 0) (λ n. v)
          (λ n. option_rule (Q r) (parse_join_game req) v (λ room_name f.
            let s = c.session in
            let get = get_game room_name in
            let asked = record c { session = call get s } in
            option_rule (Q r) (r.get_game s.calls room_name)
              (allowed (call get s) n (call-Extends get s))
              (λ g h.
                allowed (enter_game r px g asked).0.session n
                  (enter_game-Extends s g asked (call-Extends get s)))))
