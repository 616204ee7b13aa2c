-- ===== src/Backend/Proxy.antt =====
-- internal/backend/proxy/proxy.go: the game data that the proxies are given, and the interface
-- of a proxy. The host's and the players' fields are those of the console's answer.
use gladiator.Prelude.{ℕ, Option, none, some, List, [], ◌∷◌, Text, if◌then◌else◌, eqb}
use gladiator.Prelude.Buffers.{u8}
use gladiator.Wire.{Player}
use gladiator.Backend.Session.{Session, Outcome}

pub record RemotePlayer : Type 0 where
  pub user_id : ℕ
  pub username : Text
  pub character_id : ℕ
  pub class_type : ℕ
  pub ip_address : Text

pub record Game : Type 0 where
  pub game_id : Text
  pub name : Text
  pub password : Text
  pub map_id : ℕ
  pub host_user_id : ℕ
  pub host_ip_address : Text

pub record GameData : Type 0 where
  pub game : Game
  pub players : List RemotePlayer

unfoldable pub to_wire_player : RemotePlayer → Player
to_wire_player player = record {
  user_id = player.user_id;
  username = player.username;
  character_id = player.character_id;
  class_type = u8 player.class_type;
  ip_address = player.ip_address;
}

unfoldable pub to_wire_players : List RemotePlayer → List Player
to_wire_players [] = []
to_wire_players (player ∷ players) = to_wire_player player ∷ to_wire_players players

unfoldable pub find_player : List RemotePlayer → ℕ → Option Player
unfolding to_wire_player
find_player [] needle = none
find_player (player ∷ players) needle =
    if eqb needle player.user_id then some (to_wire_player player) else find_player players needle

unfoldable pub find_host_user : GameData → Option Player
unfolding find_player
find_host_user d = find_player d.players d.game.host_user_id

-- An answer of a proxy is an IPv4 address of four bytes, an error, or a panic.
pub data Answer : Type 0 where
  address : List ℕ → Answer
  failed : Answer
  panicked : Answer

pub record PlayerAddr : Type 0 where
  pub game_id : Text
  pub user_id : ℕ
  pub ip_address : Text
  pub host_user_id : Text

pub record JoinParams : Type 0 where
  pub host_user_id : ℕ
  pub game_id : Text
  pub host_user_ip : Text

-- `ProxyClient`: its state is a parameter, and it shares the session with the handlers. An address is `none` for
-- the nil slice.
pub record ProxyClient (P : Type 0) : Type 0 where
  pub get_host_ip : Option (List ℕ) → P → Option (List ℕ)
  pub create_room : Text → Session × P → (Session × P) × Answer
  pub host_room : Text → Session × P → (Session × P) × Outcome
  pub select_game : GameData → Session × P → (Session × P) × Outcome
  pub get_player_addr : PlayerAddr → Session × P → Answer
  pub join : JoinParams → Session × P → (Session × P) × Answer
  pub connect_to_player : PlayerAddr → Session × P → Answer
  pub close : Session × P → (Session × P) × Outcome
  pub handle : List ℕ → Session × P → (Session × P) × Outcome
