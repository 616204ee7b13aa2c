-- ===== src/Backend/Direct.antt =====
-- internal/backend/proxy/direct: the proxy for a local network, where the games reach each other by themselves. A room
-- is in one proxy only, so its lock makes each operation one step. `GetHostIP` passes the address on; `Close` does
-- nothing.
pub mod Members
pub mod Sharing
pub mod Observing
pub mod Tests
use mathlib.Core.Option
use gladiator.Prelude.{
  ℕ, ◌||◌, Option, none, some, List, [], ◌∷◌, Text, if◌then◌else◌, eqb, is_empty, nat_eq, true,
  codes,
}
use gladiator.Prelude.Buffers.{u8}
use gladiator.Prelude.Maps.{Map, lookup, insert, delete}
use gladiator.Packet.Encoder.{new_host_switch}
use gladiator.Packet.Encoder
use gladiator.Wire.{Codec, Player, parse_event_type, decode_typed}
use gladiator.Wire.Event
use gladiator.Backend.Session.{
  Services, Session, Outcome, done, error, panic, send_to_game, send_set_room_ready,
}
use gladiator.Backend.LobbyEvents.{content}
use gladiator.Backend.Proxy.{
  ProxyClient, Answer, address, failed, GameData, PlayerAddr, JoinParams, find_host_user,
  to_wire_players,
}

pub record GameRoom : Type 0 where
  pub id : Text
  pub name : Text
  pub host : Player
  pub players : Map ℕ Player

unfoldable pub new_game_room : Text → Player → GameRoom
new_game_room name host = record {
  id = name;
  name = name;
  host = host;
  players = (host.user_id, host) ∷ [];
}

unfoldable pub set_game_host : Player → GameRoom → GameRoom
set_game_host player g = record g { host = player }

unfoldable pub get_player : ℕ → GameRoom → Option Player
get_player user_id g = lookup user_id g.players

unfoldable pub set_player : Player → GameRoom → GameRoom
set_player player g = record g { players = insert player.user_id player g.players }

unfoldable pub delete_player : ℕ → GameRoom → GameRoom
delete_player user_id g = record g { players = delete user_id g.players }

-- The proxy but for its session, which it shares.
pub record Lan : Type 0 where
  pub my_ip_address : Text
  pub game_room : Option GameRoom

-- The program's surroundings: `net.ParseIP(s)`, of which only `To4()` is used, so its result is empty for an address
-- that is of version 6; `ip.To4().String()`; and `strconv.Itoa`.
pub record LanWorld : Type 0 where
  pub services : Services
  pub codec : Codec
  pub parse_ip : Text → Option (List ℕ)
  pub ip_string : List ℕ → Text
  pub decimal : ℕ → Text

-- `Create`, for a session that is not nil.
unfoldable pub create_lan : Text → Lan
create_lan my_ip_address = record {
  my_ip_address = if is_empty my_ip_address then codes "127.0.0.1" else my_ip_address;
  game_room = none;
}

-- `ToPlayer`
unfoldable pub to_player : LanWorld → List ℕ → Session → Player
to_player w ip s = record {
  user_id = s.user_id;
  username = s.username;
  character_id = s.character_id;
  class_type = u8 s.class_type;
  ip_address = w.ip_string ip;
}

abbrev pub in_room : (GameRoom → GameRoom) → Lan → Lan
in_room f p = record p { game_room = Option.map f p.game_room }

unfoldable pub set_players : List Player → GameRoom → GameRoom
unfolding set_player
set_players [] g = g
set_players (player ∷ players) g = set_players players (set_player player g)

module _ (w : LanWorld) where
  unfoldable pub create_room : Text → Session × Lan → (Session × Lan) × Answer
  unfolding new_game_room to_player
  create_room game_id (s, p) = elim (w.parse_ip p.my_ip_address) [
    | none ↦ ((s, p), failed)
    | some ip ↦
        ((s, record p { game_room = some (new_game_room game_id (to_player w ip s)) }), address ip)
  ]

  unfoldable pub host_room : Text → Session × Lan → (Session × Lan) × Outcome
  unfolding send_set_room_ready
  host_room game_id (s, p) =
      let (s', sent) = send_set_room_ready w.services w.codec w.decimal game_id s in ((s', p), sent)

  unfoldable pub select_game : GameData → Session × Lan → (Session × Lan) × Outcome
  unfolding find_host_user new_game_room to_wire_players set_players
  select_game d (s, p) = elim (find_host_user d) [
    | none ↦ ((s, p), error)
    | some host ↦
        let room = set_players (to_wire_players d.players) (new_game_room d.game.game_id host) in
        ((s, record p { game_room = some room }), done)
  ]

  unfoldable pub join : JoinParams → Session × Lan → (Session × Lan) × Answer
  unfolding to_player set_player
  join params (s, p) = elim (w.parse_ip p.my_ip_address) [
    | none ↦ ((s, p), failed)
    | some ip ↦ elim p.game_room [
      | none ↦ ((s, p), failed)
      | some room ↦
          ((s, record p { game_room = some (set_player (to_player w ip s) room) }), address ip)
    ]
  ]

  abbrev pub parsed_addr : Option (List ℕ) → Answer
  parsed_addr none = failed
  parsed_addr (some ip) = address ip

  unfoldable pub get_player_addr : PlayerAddr → Session × Lan → Answer
  get_player_addr params x = parsed_addr (w.parse_ip params.ip_address)

  abbrev pub joining : Option Player → Lan → Lan
  joining none p = p
  joining (some player) p = in_room (set_player player) p

  abbrev pub leaving : Option Player → Lan → Lan
  leaving none p = p
  leaving (some player) p = in_room (delete_player player.user_id) p

  -- The new host's address is told to the game. A failed write is only logged.
  abbrev pub migrating : Option Player → Session → Session
  migrating none s = s
  migrating (some player) s = elim (w.parse_ip player.ip_address) [
    | none ↦ s
    | some ip ↦ (send_to_game w.services Encoder.host_migration (new_host_switch true ip) s).0
  ]

  -- `Handle`
  unfoldable pub handle : List ℕ → Session × Lan → (Session × Lan) × Outcome
  unfolding parse_event_type decode_typed set_player delete_player send_to_game new_host_switch
  handle payload (s, p) =
      let event_type = parse_event_type payload in
      let subject = content w.codec.unmarshal_player payload in
      if eqb event_type Event.join_room
      then ((s, joining subject p), done)
      else if eqb event_type Event.leave_room || eqb event_type Event.leave_lobby
      then ((s, leaving subject p), done)
      else if eqb event_type Event.host_migration
      then ((migrating subject s, p), done)
      else ((s, p), done)

  -- `LAN` as a proxy.
  abbrev pub lan : ProxyClient Lan
  lan = record {
    get_host_ip = λ ip p. ip;
    create_room = create_room;
    host_room = host_room;
    select_game = select_game;
    get_player_addr = get_player_addr;
    join = join;
    connect_to_player = get_player_addr;
    close = λ x. (x, done);
    handle = handle;
  }
