-- ===== src/Console/Multiplayer/State.antt =====
-- internal/console/multiplayer.go and session.go: the state, the sending of messages and the table of
-- sessions. A `*UserSession` is a pointer into `heap`, since the table, the rooms and the goroutine of
-- a connection share the object. User ids are the bit patterns of the source's int64, which are only
-- compared and printed. A time is a number, and the zero time is 0. The locks make an operation one
-- step, but for those that take several in turn, whose parts are steps as well. Logging is left out.
use gladiator.Prelude.{
  ℕ, suc, Bool, true, false, not, Option, none, some, List, [], ◌∷◌, ◌++◌, Text, length,
  if◌then◌else◌, ltb, eqb, nat_eq,
}
use gladiator.Prelude.Maps.{Map, lookup, insert, delete}
use gladiator.Wire.{User, Character, Player, Message, Codec, compose}
use gladiator.Wire.Event.{EventType}
use gladiator.Console.Relay.{RelayServer}

pub record UserSession : Type 0 where
  pub user_id : ℕ
  pub game_id : Text
  pub connected : Bool
  pub connected_at : ℕ
  pub joined_at : ℕ
  pub ip_address : Text
  pub user : User
  pub character : Character

pub record GameRoom : Type 0 where
  pub ready : Bool
  pub id : Text
  pub name : Text
  pub password : Text
  pub map_id : ℕ
  pub host_player : Option ℕ
  pub created_by : ℕ
  pub players : Map ℕ ℕ

pub record Multiplayer : Type 0 where
  pub heap : ℕ → UserSession
  pub next : ℕ
  pub sessions : Map ℕ ℕ
  pub rooms : Map Text GameRoom
  pub relay : Option RelayServer
  -- what was written to the connection of each session, and which were closed, oldest first
  pub sent : List (ℕ × List ℕ)
  pub closed : List ℕ

-- What the code takes from libraries: JSON, `strconv` and the sockets. `write sent session payload`
-- says whether a write succeeds after those in `sent`.
pub record Env : Type 0 where
  pub codec : Codec
  pub itoa : ℕ → Text
  pub parse_int : Text → Option ℕ
  pub write : List (ℕ × List ℕ) → ℕ → List ℕ → Bool

abbrev pub no_user : User
no_user = record { user_id = 0; username = []; version = [] }

abbrev pub no_character : Character
no_character = record { character_id = 0; class_type = 0 }

-- An assignment to a field of a shared session.
abbrev pub update : (ℕ → UserSession) → ℕ → UserSession → ℕ → UserSession
update heap p s q = if eqb q p then s else heap q

unfoldable pub new_multiplayer : Option RelayServer → Multiplayer
new_multiplayer relay = record {
  heap = λ q. record {
    user_id = 0;
    game_id = [];
    connected = false;
    connected_at = 0;
    joined_at = 0;
    ip_address = [];
    user = no_user;
    character = no_character;
  };
  next = 0;
  sessions = [];
  rooms = [];
  relay = relay;
  sent = [];
  closed = [];
}

-- `NewUserSession`: a fresh object; the answer is its pointer.
unfoldable pub new_user_session : ℕ → ℕ → Multiplayer → Multiplayer × ℕ
new_user_session id now mp = (
  record mp {
    heap = update mp.heap mp.next (record {
      user_id = id;
      game_id = [];
      connected = true;
      connected_at = now;
      joined_at = 0;
      ip_address = [];
      user = no_user;
      character = no_character;
    });
    next = suc mp.next;
  },
  mp.next,
)

unfoldable pub send : Env → ℕ → List ℕ → Multiplayer → Multiplayer
send env p payload mp =
    if ltb (length payload) 1
    then mp
    else if not (mp.heap p).connected
    then mp
    else if env.write mp.sent p payload
    then record mp { sent = mp.sent ++ ((p, payload) ∷ []) }
    else record mp { heap = update mp.heap p (record (mp.heap p) { connected = false }) }

unfoldable pub send_message : Env → ℕ → EventType → Message → Multiplayer → Multiplayer
unfolding send
send_message env p type msg mp = send env p (compose env.codec type msg) mp

unfoldable pub to_player : UserSession → Player
to_player us = record {
  user_id = us.user.user_id;
  username = us.user.username;
  character_id = us.character.character_id;
  class_type = us.character.class_type;
  ip_address = [];
}

abbrev pub get_user_session : ℕ → Multiplayer → Option ℕ
get_user_session id mp = lookup id mp.sessions

-- The entry of `AddUserSession`, behind its test: the lock is free between the two.
abbrev pub set_user_session : ℕ → ℕ → Multiplayer → Multiplayer
set_user_session id p mp = record mp { sessions = insert id p mp.sessions }

-- A session that is there already is kept.
unfoldable pub add_user_session : ℕ → ℕ → Multiplayer → Multiplayer
add_user_session id p mp = elim (get_user_session id mp) [
  | some _ ↦ mp
  | none ↦ set_user_session id p mp
]

unfoldable pub delete_user_session : ℕ → Multiplayer → Multiplayer
delete_user_session id mp = record mp { sessions = delete id mp.sessions }

unfoldable pub list_sessions : (ℕ → UserSession) → Map ℕ ℕ → List Player
list_sessions heap [] = []
list_sessions heap ((id, p) ∷ sessions) = to_player (heap p) ∷ list_sessions heap sessions

-- `BroadcastMessage`, over the sessions that `forEachSession` meets.
unfoldable pub send_each : Env → List ℕ → Map ℕ ℕ → Multiplayer → Multiplayer
send_each env payload [] mp = mp
send_each env payload ((id, p) ∷ sessions) mp =
    send_each env payload sessions (send env p payload mp)

unfoldable pub broadcast_message : Env → List ℕ → Multiplayer → Multiplayer
unfolding send_each
broadcast_message env payload mp = send_each env payload mp.sessions mp
