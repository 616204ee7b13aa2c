-- ===== src/Model/Lobby.antt =====
-- internal/model/{lobby_room,ranking,game_state}.go: rooms, players and the ranking, as the game reads them.
use gladiator.Prelude.{ℕ, ◌+◌, List, [], ◌∷◌, ◌++◌, Text, length}
use gladiator.Prelude.Buffers.{u8, make_bytes, set, copy_at, bytes_32}

abbrev pub game_state_none : ℕ
game_state_none = 0

abbrev pub game_state_creating : ℕ
game_state_creating = 1

abbrev pub game_state_started : ℕ
game_state_started = 2

pub record LobbyRoom : Type 0 where
  pub host_ip_address : List ℕ
  pub name : Text
  pub password : Text

unfoldable pub room_to_bytes : LobbyRoom → List ℕ
room_to_bytes room =
    let ip_length = length room.host_ip_address in
    let name_length = length room.name in
    let pass_length = length room.password in
    let buf = make_bytes (ip_length + name_length + 1 + pass_length + 1) in
    let buf = copy_at 0 room.host_ip_address buf in
    let buf = copy_at ip_length room.name buf in
    let buf = set buf (ip_length + name_length) 0 in
    copy_at (ip_length + name_length + 1) room.password buf

pub record LobbyPlayer : Type 0 where
  pub class_type : ℕ
  pub ip_address : List ℕ
  pub name : Text

-- `buf[4:8]` takes four bytes of the address at most.
unfoldable pub player_to_bytes : LobbyPlayer → List ℕ
player_to_bytes p =
    let buf = make_bytes (4 + 4 + length p.name + 1) in
    let buf = set buf 0 (u8 p.class_type) in
    let buf = copy_at 4 p.ip_address buf in copy_at 8 p.name buf

pub record RankingPosition : Type 0 where
  pub rank : ℕ
  pub points : ℕ
  pub username : Text
  pub character_name : Text

pub record Ranking : Type 0 where
  pub players : List RankingPosition
  pub current_player : RankingPosition

unfoldable pub position_to_bytes : RankingPosition → List ℕ
position_to_bytes p =
    bytes_32 p.rank
    ++ (bytes_32 p.points ++ ((p.username ++ (0 ∷ [])) ++ (p.character_name ++ (0 ∷ []))))

unfoldable pub positions_to_bytes : List RankingPosition → List ℕ
unfolding position_to_bytes
positions_to_bytes [] = []
positions_to_bytes (p ∷ players) = position_to_bytes p ++ positions_to_bytes players

unfoldable pub ranking_to_bytes : Ranking → List ℕ
unfolding positions_to_bytes
ranking_to_bytes ranking =
    bytes_32 (length ranking.players)
    ++ (positions_to_bytes ranking.players ++ position_to_bytes ranking.current_player)
