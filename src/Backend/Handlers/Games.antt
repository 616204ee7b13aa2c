-- ===== src/Backend/Handlers/Games.antt =====
-- internal/backend/command_{009,028,034,069}_*.go: the handlers about games, over a proxy. The handlers test the
-- proxy's address in `HandleJoinGame` against the slice of four zeros, which an address of 16 bytes never equals:
-- the test is left out.
use gladiator.Prelude.{ℕ, none, some, List, [], ◌∷◌, ◌++◌, Text, length, if◌then◌else◌, eqb, Option}
use gladiator.Prelude.Buffers.{u8, bytes_32}
use gladiator.Packet.Encoder
use gladiator.Packet.Encoder.{Code}
use gladiator.Model.Lobby.{game_state_none, game_state_creating, game_state_started}
use gladiator.Backend.Session
use gladiator.Backend.Session.{
  Session, Outcome, done, error, panic, call, send_to_game, list_games, get_game,
}
use gladiator.Backend.Proxy.{
  ProxyClient, Game, GameData, RemotePlayer, address, failed, panicked, PlayerAddr,
}
use gladiator.Backend.Client.{Remote, Client, with_session, with_proxy}
use gladiator.Backend.Requests.Games.{
  CreateGameRequestData, parse_create_game, parse_join_game, parse_select_game,
}

-- The bytes of an address that may be nil.
abbrev pub ip_or_empty : Option (List ℕ) → List ℕ
ip_or_empty none = []
ip_or_empty (some ip) = ip

-- The class, the address and the name of a player.
abbrev pub player_entry : RemotePlayer → List ℕ → List ℕ
player_entry player ip = u8 player.class_type ∷ 0 ∷ 0 ∷ 0 ∷ (ip ++ (player.username ++ (0 ∷ [])))

abbrev pub address_params : (ℕ → Text) → GameData → RemotePlayer → PlayerAddr
address_params decimal d player = record {
  game_id = d.game.name;
  user_id = player.user_id;
  ip_address = player.ip_address;
  host_user_id = decimal d.game.host_user_id;
}

module _ {P : Type 0} (r : Remote) (px : ProxyClient P) where
  -- The loop of `HandleListGames`.
  unfoldable pub list_rooms : P → List Game → List ℕ
  list_rooms p [] = []
  list_rooms p (room ∷ rooms) =
      (ip_or_empty (px.get_host_ip (r.parse_ip room.host_ip_address) p)
        ++ (room.name ++ (0 ∷ (room.password ++ (0 ∷ [])))))
      ++ list_rooms p rooms

  unfoldable pub handle_list_games : List ℕ → Client P → Client P × Outcome
  unfolding send_to_game list_rooms
  handle_list_games req c =
      let asked = call list_games c.session in
      if eqb c.session.user_id 0 then (c, error) else elim (r.list_games c.session.calls) [
        | none ↦ (record c { session = asked }, done)
        | some rooms ↦ with_session c (
            send_to_game r.services Encoder.list_games
              (bytes_32 (length rooms) ++ list_rooms c.proxy rooms) asked)
      ]

  -- The game's answer to a room, one of its states.
  abbrev pub reply_state : ℕ → Client P → Client P × Outcome
  reply_state state c =
      with_session c
        (send_to_game r.services Encoder.create_game (state ∷ 0 ∷ 0 ∷ 0 ∷ []) c.session)

  -- The first request: the proxy's room, then the console's.
  unfoldable pub open_game : CreateGameRequestData → Client P → Client P × Outcome
  unfolding send_to_game
  open_game d c =
      let (s, created) = px.create_room d.room_name (c.session, c.proxy) in
      let c = with_proxy c s in
      elim created [
        | failed ↦ reply_state 2 c
        | panicked ↦ (c, panic)
        | address ip ↦
            let ask =
              Session.create_game d.room_name d.password d.map_id c.session.user_id
                (r.ip_string ip) in
            let asked = record c { session = call ask c.session } in
            if r.services.accepts c.session.calls ask
            then reply_state game_state_creating asked
            else reply_state 2 asked
      ]

  -- The second request: the room is hosted.
  unfoldable pub start_game : CreateGameRequestData → Client P → Client P × Outcome
  unfolding send_to_game
  start_game d c =
      let asked = record c { session = call (get_game d.room_name) c.session } in
      elim (r.get_game c.session.calls d.room_name) [
        | none ↦ (asked, done)
        | some g ↦
            let (s, hosted) = px.host_room g.game.name (asked.session, asked.proxy) in
            let c = with_proxy asked s in
            elim hosted [
              | error ↦ (c, done)
              | panic ↦ (c, panic)
              | done ↦ reply_state game_state_started c
            ]
      ]

  unfoldable pub handle_create_game : List ℕ → Client P → Client P × Outcome
  unfolding open_game start_game
  handle_create_game req c =
      if eqb c.session.user_id 0 then (c, error) else elim (parse_create_game req) [
        | none ↦ (c, error)
        | some d ↦
            if eqb d.state game_state_none
            then open_game d c
            else if eqb d.state game_state_creating
            then start_game d c
            else (c, error)
      ]

  -- The loop of `HandleSelectGame`. A player whose address is not found is listed without one.
  unfoldable pub list_players : GameData → List RemotePlayer → Session × P → Option (List ℕ)
  list_players d [] s = some []
  list_players d (player ∷ players) s =
      let rest = list_players d players s in
      if eqb player.user_id s.0.user_id
      then rest
      else elim (px.get_player_addr (address_params r.decimal d player) s) [
        | panicked ↦ none
        | failed ↦ elim rest [ none ↦ none | some bs ↦ some (player_entry player [] ++ bs) ]
        | address ip ↦ elim rest [ none ↦ none | some bs ↦ some (player_entry player ip ++ bs) ]
      ]

  unfoldable pub handle_select_game : List ℕ → Client P → Client P × Outcome
  unfolding send_to_game list_players
  handle_select_game req c =
      if eqb c.session.user_id 0 then (c, error) else elim (parse_select_game req) [
        | none ↦ (c, done)
        | some room_name ↦
            let asked = record c { session = call (get_game room_name) c.session } in
            elim (r.get_game c.session.calls room_name) [
              | none ↦ (asked, done)
              | some g ↦
                  let (s, selected) = px.select_game g (asked.session, asked.proxy) in
                  let c = with_proxy asked s in
                  elim selected [
                    | error ↦ (c, error)
                    | panic ↦ (c, panic)
                    | done ↦ elim (list_players g g.players s) [
                      | none ↦ (c, panic)
                      | some bs ↦ with_session c (
                          send_to_game r.services Encoder.select_game (bytes_32 g.game.map_id ++ bs)
                            c.session)
                    ]
                  ]
            ]
      ]

  -- The loop of `HandleJoinGame`, up to the first player whose address is not found: its bytes, and how it ends.
  unfoldable pub connect_players : GameData → List RemotePlayer → Session × P → List ℕ × Outcome
  connect_players d [] s = ([], done)
  connect_players d (player ∷ players) s =
      let rest = connect_players d players s in
      if eqb player.user_id s.0.user_id
      then rest
      else elim (px.connect_to_player (address_params r.decimal d player) s) [
        | panicked ↦ ([], panic)
        | failed ↦ ([], error)
        | address ip ↦ (player_entry player ip ++ rest.0, rest.1)
      ]

  -- The console's answer to a join: the players of the room.
  abbrev pub joined_reply : GameData → List RemotePlayer → Client P → Client P × Outcome
  joined_reply g players c =
      let (bs, connected) = connect_players g players (c.session, c.proxy) in
      elim connected [
        | error ↦ (c, error)
        | panic ↦ (c, panic)
        | done ↦
            with_session c
              (send_to_game r.services Encoder.join_game (game_state_started ∷ 0 ∷ bs) c.session)
      ]

  unfoldable pub enter_game : GameData → Client P → Client P × Outcome
  unfolding send_to_game connect_players
  enter_game g c =
      let (s, joined) =
        px.join
          (record {
            host_user_id = g.game.host_user_id;
            game_id = g.game.name;
            host_user_ip = g.game.host_ip_address;
          })
          (c.session, c.proxy) in
      let c = with_proxy c s in
      elim joined [
        | failed ↦ (c, error)
        | panicked ↦ (c, panic)
        | address ip ↦
            let ask = Session.join_game c.session.user_id g.game.game_id (r.ip_string ip) in
            let asked = record c { session = call ask c.session } in
            elim (r.join_game c.session.calls g.game.game_id) [
              | none ↦ (asked, done)
              | some players ↦ joined_reply g players asked
            ]
      ]

  unfoldable pub handle_join_game : List ℕ → Client P → Client P × Outcome
  unfolding enter_game
  handle_join_game req c =
      if eqb c.session.user_id 0 then (c, error) else elim (parse_join_game req) [
        | none ↦ (c, done)
        | some room_name ↦
            let asked = record c { session = call (get_game room_name) c.session } in
            elim (r.get_game c.session.calls room_name) [
              | none ↦ (asked, error)
              | some g ↦ enter_game g asked
            ]
      ]
