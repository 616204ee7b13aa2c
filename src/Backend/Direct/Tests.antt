-- ===== src/Backend/Direct/Tests.antt =====
-- A client with a proxy for the local network.
use gladiator.Packet.Split.{split_from}
use gladiator.Prelude.Buffers.{index_byte}
use gladiator.Packet.Reader.{new_reader, read_uint32, read_string, read_n_bytes}
use gladiator.Backend.Requests.Account.{parse_client_authentication, parse_authorization_handshake}
use gladiator.Prelude.{
  arith, text_eq, false, ℕ, ◌≡◌, refl, Option, none, some, List, [], ◌∷◌, ◌++◌, true, codes,
}
use gladiator.Wire.{Player}
use gladiator.Backend.Session
use gladiator.Backend.Session.{Call, authenticate_user, connect_to_lobby}
use gladiator.Backend.Proxy.{GameData, RemotePlayer, find_host_user, to_wire_players}
use gladiator.Backend.Client.{Client, Remote}
use gladiator.Backend.Dispatcher.Failing.{failed_handshake}
use gladiator.Backend.Dispatcher.{add_session, observe, handle_client}
use gladiator.Backend.Dispatcher.Guarded.{guarded}
use gladiator.Backend.Dispatcher.Serving.{handle_client-guarded}
use gladiator.Backend.LobbyEvents.Tests.{services, codec, user}
use gladiator.Backend.Direct.{
  error, panic, GameRoom, Lan, LanWorld, lan, create_lan, select_game, get_player,
}
use gladiator.Backend.Direct.Members.{
  handle_all, apply_events, with_listed, apply_change, joined, select_game-refines,
}
use gladiator.Backend.Direct.Sharing.{lan-Obeys}
use gladiator.Backend.Direct.Observing.{Observed, observe-refines}

abbrev w : LanWorld
w = record {
  services = services;
  codec = codec;
  parse_ip = λ t. some t;
  ip_string = λ ip. ip;
  decimal = λ n. n ∷ [];
}

-- The host 2 with the player 3.
abbrev guest : ℕ → RemotePlayer
guest id = record {
  user_id = id;
  username = codes "ab";
  character_id = 0;
  class_type = 1;
  ip_address = [];
}

abbrev game : GameData
game = record {
  game = record {
    game_id = codes "g";
    name = codes "g";
    password = [];
    map_id = 1;
    host_user_id = 2;
    host_ip_address = [];
  };
  players = guest 2 ∷ guest 3 ∷ [];
}

abbrev host : Player
host = record {
  user_id = 2;
  username = codes "ab";
  character_id = 0;
  class_type = 1;
  ip_address = [];
}

found : find_host_user game ≡ some host
unfolding find_host_user
found = refl

-- The player 4 joins, and 3 leaves.
abbrev events : List (List ℕ)
events = (10 ∷ 4 ∷ []) ∷ (11 ∷ 3 ∷ []) ∷ []

select_game-refines_example :
    (room : GameRoom) × ((handle_all w events
        (select_game w game (user 1, create_lan [])).0).1.game_room
      ≡ some room)
    × (room.host ≡ host)
    × ((k : ℕ)
        → get_player k room
          ≡ apply_events codec events
              (with_listed (to_wire_players game.players) (apply_change (joined host) (λ j. none)))
              k)
select_game-refines_example = select_game-refines w game host events (user 1) (create_lan []) found

abbrev r : Remote
r = record {
  services = services;
  codec = codec;
  decimal = λ n. n ∷ [];
  parse_ip = λ t. none;
  ip_string = λ ip. ip;
  read_lobby = λ calls. none;
  list_games = λ calls. some [];
  get_game = λ calls id. none;
  join_game = λ calls id. none;
  list_characters = λ calls id. none;
  get_ranking = λ calls c. none;
}

abbrev start : Client Lan
start = record {
  session = user 0;
  proxy = create_lan [];
  lobby_users = [];
  selected = false;
  observing = false;
}

-- The handshake: the version 3 and the key.
abbrev greeting : List ℕ
greeting = 255 ∷ 30 ∷ 8 ∷ 0 ∷ []

abbrev key : List ℕ
key = 255 ∷ 6 ∷ 16 ∷ 0 ∷ (codes "68XIPSID" ++ (3 ∷ 0 ∷ 0 ∷ 0 ∷ []))

-- The game asks for the rooms, logs in, asks again, and hangs up.
abbrev reads : List (Option (List ℕ))
reads =
    some (255 ∷ 41 ∷ 12 ∷ 0 ∷ 1 ∷ 0 ∷ 0 ∷ 0 ∷ 98 ∷ 0 ∷ 97 ∷ 0 ∷ (255 ∷ 9 ∷ 4 ∷ 0 ∷ [])) ∷ none ∷ []

handle_client-guarded_example :
    guarded services [] false
      (handle_client r
        (lan w)
        (some (1 ∷ []))
        (some greeting)
        (some key)
        reads
        (codes "s")
        start
        []).1.session.calls
    ≡ true
handle_client-guarded_example =
    handle_client-guarded r (lan w) (lan-Obeys w) (some (1 ∷ [])) (some greeting) (some key) reads
      (codes "s") start [] refl refl refl

-- The calls of that connection.
logged_in :
    (handle_client r
      (lan w)
      (some (1 ∷ []))
      (some greeting)
      (some key)
      reads
      (codes "s")
      start
      []).1.session.calls
    ≡ authenticate_user (97 ∷ []) (98 ∷ [])
      ∷ connect_to_lobby (record { user_id = 7; username = 97 ∷ [] })
      ∷ Session.list_games
      ∷ []
unfolding handle_client parse_authorization_handshake parse_client_authentication read_n_bytes
    read_string read_uint32 new_reader index_byte text_eq split_from
logged_in = refl

-- The client 1 in the room of the host 2.
abbrev room_of_2 : GameRoom
room_of_2 = record { id = codes "g"; name = codes "g"; host = host; players = (2, host) ∷ [] }

abbrev in_game : Client Lan
in_game = record start {
  session = user 1;
  proxy = record { my_ip_address = []; game_room = some room_of_2 };
}

-- The player 4 joins the lobby and the room.
abbrev arrivals : List (List ℕ)
arrivals = (4 ∷ 4 ∷ []) ∷ (10 ∷ 4 ∷ []) ∷ []

observe-refines_example : Observed w r 1 arrivals [] room_of_2 (observe r (lan w) arrivals in_game)
observe-refines_example = observe-refines w r arrivals in_game room_of_2 refl

failed_handshake_example :
    (handle_client r (lan w) (some (1 ∷ [])) (some (255 ∷ [])) none reads (codes "s") start []
      ≡ (add_session r (lan w) (codes "s") start [], start, panic))
    × (handle_client r (lan w) (some (1 ∷ [])) none none reads (codes "s") start []
        ≡ (add_session r (lan w) (codes "s") start [], start, error))
failed_handshake_example =
    failed_handshake r (lan w) (1 ∷ []) (255 ∷ []) none reads (codes "s") start [] refl
      (omega arith)
