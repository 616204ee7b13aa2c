-- ===== src/Backend/RelayProxy/Tests.antt =====
-- Two clients in one room: the first created it, and they know each other.
use gladiator.Prelude.{
  inl, false, ℕ, ◌≡◌, refl, sym, ap, true, false, none, some, [], ◌∷◌, ◌++◌, Text, text_Eq, text_eq,
  codes,
}
use gladiator.Backend.Client.{Remote}
use gladiator.Backend.Dispatcher.{serve}
use gladiator.Backend.Dispatcher.Guarded.{guarded}
use gladiator.Backend.Dispatcher.Serving.{serve-Guarded}
use gladiator.Backend.RelayProxy.Client.{relay_client, relay_client-Obeys}
use gladiator.Prelude.Maps.{lookup, insert, delete}
use gladiator.Wire.{Player}
use gladiator.Console.Relay.{RelayPacket, RelayServer, Room, PeerConn, new_relay}
use gladiator.Console.Relay.Loop.{relay_packets}
use gladiator.Backend.HostManager.{
  assign_ip, assign_from, start_guest, set_host, stop_all, stop_where, new_manager,
}
use gladiator.Backend.Session.{Session, Services, CharacterAnswer, done, panic}
use gladiator.Backend.RelayProxy.{PacketRouter, World, on_udp_message, reset, connect, send_packet}
use gladiator.Backend.RelayProxy.Router.{receive_packet, dynamic_join, receive, write_tcp}
use gladiator.Backend.RelayProxy.Rooms.{new_router, create_room}
use gladiator.Backend.RelayProxy.Routes.{IsRouted}
use gladiator.Backend.RelayProxy.Steps.{
  Reach, here, next_step, receives, creates_room, Reach-IsRouted,
}
use gladiator.Backend.RelayProxy.Delivery.{relayed_datagram, datagram}

-- The identifiers of the clients, and the room.
abbrev first : Text
first = 1 ∷ []

abbrev second : Text
second = 2 ∷ []

abbrev game : Text
game = 9 ∷ []

-- What the first client's game sends.
abbrev packet : RelayPacket
packet = record {
  kind = codes "udp";
  room_id = game;
  from_id = first;
  to_id = second;
  payload = 5 ∷ [];
}

abbrev services : Services
services = record {
  authenticates = λ calls name password. none;
  character = λ calls id name. CharacterAnswer.not_found;
  accepts = λ calls c. true;
  write = λ sent data_. true;
}

-- Every socket opens, and the line of the packet decodes to it.
abbrev w : World
w = record {
  net = record { ip_string = λ bytes. bytes; parses = λ t. true };
  services = services;
  codec = record {
    marshal = λ m. [];
    unmarshal = λ p. none;
    unmarshal_user = λ p. none;
    unmarshal_player = λ p. none;
    unmarshal_players = λ p. none;
    unmarshal_chat = λ p. none;
  };
  decimal = λ n. n ∷ [];
  ip_bytes = λ t. t;
  now = λ hm. 50;
  dial_tcp = λ hm. some 1;
  dial_udp = λ hm. some 2;
  listen_tcp = λ hm ip. some 3;
  listen_udp = λ hm ip. some 4;
  marshal = λ pkt. some pkt.payload;
  packets = λ line. packet ∷ [];
  dial_relay = λ r. some 7;
  open_stream = λ r. some 8;
  write_stream = λ r stream line. true;
  new_ticker = λ r. 6;
  probes = λ r ip. true;
}

abbrev user : ℕ → Session
user id = record {
  user_id = id;
  username = [];
  character_id = 0;
  class_type = 0;
  sent = [];
  calls = [];
  ws_conn = false;
}

abbrev joining : Text → RelayPacket
joining id = record { kind = codes "join"; room_id = game; from_id = id; to_id = []; payload = [] }

-- The first client creates the room, and the second one joins.
abbrev a : PacketRouter
a = (receive_packet w (joining second) (create_room w game (new_router w none (user 1))).0).0

abbrev b : PacketRouter
b = (receive_packet w (joining first) (new_router w none (user 2))).0

a-reached : Reach w (new_router w none (user 1)) a
a-reached =
    next_step (next_step here (creates_room (new_router w none (user 1)) game))
      (receives (create_room w game (new_router w none (user 1))).0 (joining second))

b-reached : Reach w (new_router w none (user 2)) b
b-reached = next_step here (receives (new_router w none (user 2)) (joining first))

Reach-IsRouted_example : IsRouted a.manager a.routes
Reach-IsRouted_example = Reach-IsRouted w none (user 1) a-reached

b-IsRouted : IsRouted b.manager b.routes
b-IsRouted = Reach-IsRouted w none (user 2) b-reached

a_has : lookup b.self_id a.manager.peer_hosts ≡ some 0
unfolding new_router create_room reset connect send_packet receive_packet dynamic_join assign_ip
    assign_from start_guest set_host stop_all stop_where new_manager lookup insert delete text_eq
a_has = refl

b_has : lookup a.self_id b.manager.peer_hosts ≡ some 0
unfolding new_router create_room reset connect send_packet receive_packet dynamic_join assign_ip
    assign_from start_guest set_host stop_all stop_where new_manager lookup insert delete text_eq
b_has = refl

a_writes : a.stream ≡ some 8
unfolding new_router create_room reset connect send_packet receive_packet dynamic_join assign_ip
    assign_from start_guest set_host stop_all stop_where new_manager lookup insert delete text_eq
a_writes = refl

a_sends : datagram a 0 (5 ∷ []) ≡ packet
unfolding new_router create_room reset connect send_packet receive_packet dynamic_join assign_ip
    assign_from start_guest set_host stop_all stop_where new_manager lookup insert delete text_eq
a_sends = refl

abbrev peer : PeerConn
peer = record { id = second; room_id = game; stream = 21; conn = 20; last_seen = 50 }

abbrev room : Room
room = record { id = game; peers = (second, peer) ∷ [] }

abbrev relay : RelayServer
relay = record new_relay { rooms = (game, room) ∷ [] }

room_there : lookup (a.routes 0).room_id relay.rooms ≡ some room
unfolding new_router create_room reset connect send_packet receive_packet dynamic_join assign_ip
    assign_from new_relay start_guest set_host stop_all stop_where new_manager lookup insert delete
    text_eq
room_there = refl

peer_there : lookup b.self_id room.peers ≡ some peer
unfolding new_router create_room reset connect send_packet receive_packet dynamic_join assign_ip
    assign_from start_guest set_host stop_all stop_where new_manager lookup insert delete text_eq
peer_there = refl

relayed_datagram_example :
    (on_udp_message w 0 (5 ∷ []) a ≡ some (record a { sent = a.sent ++ ((8, 5 ∷ 10 ∷ []) ∷ []) }))
    × (relay_packets relay game a.self_id (w.packets (5 ∷ 10 ∷ []))
        ≡ (record relay { written = relay.written ++ ((21, datagram a 0 (5 ∷ [])) ∷ []) }, false))
    × (proxy : ℕ) × ((b.manager.heap 0).proxy_udp ≡ some proxy)
    × (receive w (5 ∷ 10 ∷ []) b
        ≡ (record b { delivered = b.delivered ++ ((proxy, 5 ∷ []) ∷ []) }, done))
relayed_datagram_example =
    relayed_datagram w a b relay room peer game 0 0 8 (5 ∷ []) (5 ∷ []) Reach-IsRouted_example
      b-IsRouted a_has b_has a_writes refl refl (ap (λ k. k ∷ []) (sym a_sends)) room_there
      peer_there

abbrev host_player : Player
host_player = record {
  user_id = 1;
  username = [];
  character_id = 0;
  class_type = 0;
  ip_address = [];
}

-- A stream's bytes for a guest of a client that is not the host meet no proxy.
b_panics : (write_tcp first packet b).1 ≡ panic
unfolding new_router create_room reset connect send_packet receive_packet dynamic_join assign_ip
    assign_from start_guest set_host stop_all stop_where new_manager lookup insert delete text_eq
    write_tcp
b_panics = refl

-- The services of a client that plays over the relay.
abbrev remote : Remote
remote = record {
  services = services;
  codec = w.codec;
  decimal = w.decimal;
  parse_ip = λ t. none;
  ip_string = λ ip. ip;
  read_lobby = λ calls. none;
  list_games = λ calls. some [];
  get_game = λ calls id. none;
  join_game = λ calls id. none;
  list_characters = λ calls id. none;
  get_ranking = λ calls call. none;
}

-- A client over the relay that asks for the rooms before its login is one of the guarded connections.
relayed_client :
    guarded services [] false
      (serve remote (relay_client w) (some (255 ∷ 9 ∷ 4 ∷ 0 ∷ []) ∷ none ∷ []) (record {
        session = user 0;
        proxy = new_router w none (user 0);
        lobby_users = [];
        selected = false;
        observing = false;
      })).0.session.calls
    ≡ true
unfolding guarded
relayed_client =
    (serve-Guarded remote (relay_client w) (relay_client-Obeys w)
      (some (255 ∷ 9 ∷ 4 ∷ 0 ∷ []) ∷ none ∷ [])
      (record {
        session = user 0;
        proxy = new_router w none (user 0);
        lobby_users = [];
        selected = false;
        observing = false;
      })
      (refl, inl refl, inl refl)).0
