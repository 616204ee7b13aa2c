-- ===== src/Backend/Requests/Games.antt =====
-- internal/backend/command_{012,014,021,028,034,069,070}_*.go: the requests about channels, games and
-- the ranking, and their `Parse`; `none` is an error.
use gladiator.Prelude.{
  ℕ, ◌+◌, Option, none, some, List, length, take, ltb, eqb, not, if◌then◌else◌, Text,
}
use gladiator.Prelude.Buffers.{u8, make_bytes, set, copy_at, bytes_32, uint32_at, index_byte}
use gladiator.Packet.Reader.{Read, ◌>>=◌, pure, read_string, read_uint32}
use gladiator.Packet.Reads.{parsed}

-- A read that fails.
abbrev pub fail : {A : Type 0} → Read A
fail r = none

pub record CreateGameRequestData : Type 0 where
  pub state : ℕ
  pub map_id : ℕ
  pub room_name : Text
  pub password : Text

-- Behind the state and the map.
abbrev pub read_room : ℕ → ℕ → Read CreateGameRequestData
read_room state map_id = do
  room_name ← read_string
  password ← read_string
  pure (record { state = state; map_id = map_id; room_name = room_name; password = password })

abbrev pub read_create_game : Read CreateGameRequestData
read_create_game = do
  state ← read_uint32
  map_id ← read_uint32
  if ltb 5 map_id then fail else read_room state map_id

unfoldable pub parse_create_game : List ℕ → Option CreateGameRequestData
parse_create_game = parsed read_create_game

-- `JoinGameRequest.Parse`; the password that may follow is not read.
unfoldable pub parse_join_game : List ℕ → Option Text
parse_join_game = parsed read_string

unfoldable pub parse_select_game : List ℕ → Option Text
parse_select_game = parsed read_string

-- `SelectChannelRequest.Parse`: the names of the server and the channel.
abbrev pub read_select_channel : Read (Text × Text)
read_select_channel = do
  server_name ← read_string
  channel_name ← read_string
  pure (server_name, channel_name)

unfoldable pub parse_select_channel : List ℕ → Option (Text × Text)
parse_select_channel = parsed read_select_channel

pub record RankingRequestData : Type 0 where
  pub class_type : ℕ
  pub offset : ℕ
  pub username : Text
  pub character_name : Text

unfoldable pub new_ranking_request : RankingRequestData → List ℕ
new_ranking_request data_ =
    let user_name_length = length data_.username in
    let character_name_length = length data_.character_name in
    let buf = make_bytes (4 + 4 + user_name_length + 1 + character_name_length + 1) in
    let buf = set buf 0 (u8 data_.class_type) in
    let buf = copy_at 4 (bytes_32 data_.offset) buf in
    let buf = copy_at 8 data_.username buf in
    let buf = set buf (8 + user_name_length) 0 in
    copy_at (8 + user_name_length + 1) data_.character_name buf

abbrev pub read_ranking : Read RankingRequestData
read_ranking = do
  class_type ← read_uint32
  offset ← read_uint32
  username ← read_string
  character_name ← read_string
  pure (record {
    class_type = u8 class_type;
    offset = offset;
    username = username;
    character_name = character_name;
  })

unfoldable pub parse_ranking : List ℕ → Option RankingRequestData
parse_ranking = parsed read_ranking

-- `bytes.SplitN(c, []byte{0}, 2)`: the text before the first null byte.
unfoldable pub parse_send_lobby_message : List ℕ → Option Text
parse_send_lobby_message c = elim (index_byte 0 c) [ none ↦ none | some i ↦ some (take i c) ]

unfoldable pub parse_ping : List ℕ → Option ℕ
parse_ping r = if not (eqb (length r) 4) then none else some (uint32_at r 0)
