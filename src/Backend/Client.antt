-- ===== src/Backend/Client.antt =====
-- internal/backend/bsession/session.go: all that a session holds, its proxy included, and `InitObserver`; and what
-- the remote services answer about games, characters and the ranking.
use gladiator.Prelude.{
  ℕ, Bool, true, false, Option, none, some, List, [], ◌∷◌, Text, if◌then◌else◌, eqb,
}
use gladiator.Prelude.Buffers.{u8}
use gladiator.Wire.{Codec, Player, player}
use gladiator.Wire.Event.{join_lobby, joined_lobby}
use gladiator.Model.Lobby.{Ranking}
use gladiator.Backend.Session.{
  Services, Session, Call, read_event, Outcome, done, error, panic, call, send_event_to,
}
use gladiator.Backend.Proxy.{Game, GameData, RemotePlayer}

-- What a call answers behind the calls made before it. `read_lobby` is what comes back on the connection to the
-- lobby.
pub record Remote : Type 0 where
  pub services : Services
  pub codec : Codec
  -- `strconv.Itoa`
  pub decimal : ℕ → Text
  -- `net.ParseIP(s).To4()`, and `ip.To4().String()`
  pub parse_ip : Text → Option (List ℕ)
  pub ip_string : List ℕ → Text
  pub read_lobby : List Call → Option (List ℕ)
  pub list_games : List Call → Option (List Game)
  pub get_game : List Call → Text → Option GameData
  pub join_game : List Call → Text → Option (List RemotePlayer)
  pub list_characters : List Call → ℕ → Option (List Text)
  pub get_ranking : List Call → Call → Option Ranking

-- `selected` says that `OnceSelectedCharacter` is used up, `observing` that the observer was started. A user that
-- is logged in has a connection to the lobby.
pub record Client (P : Type 0) : Type 0 where
  pub session : Session
  pub proxy : P
  pub lobby_users : List Player
  pub selected : Bool
  pub observing : Bool

module _ {P : Type 0} where
  -- What a handler does to the session alone.
  abbrev pub with_session : Client P → Session × Outcome → Client P × Outcome
  with_session c (s, o) = (record c { session = s }, o)

  -- The same with the proxy.
  abbrev pub with_proxy : Client P → Session × P → Client P
  with_proxy c (s, p) = record c { session = s; proxy = p }

abbrev pub is_joined : List ℕ → Bool
is_joined (b ∷ []) = eqb b joined_lobby
is_joined _ = false

abbrev pub own_player : Session → Player
own_player s = record {
  user_id = s.user_id;
  username = s.username;
  character_id = s.character_id;
  class_type = u8 s.class_type;
  ip_address = [];
}

-- `JoinLobby`: the event, and the answer of one byte, `JoinedLobby`.
unfoldable pub join_the_lobby : Remote → Session → Session × Outcome
unfolding send_event_to
join_the_lobby r s =
    let (asked, sent) =
      send_event_to r.services r.codec r.decimal join_lobby (player (own_player s)) [] s in
    let answered = call read_event asked in
    elim sent [
      | error ↦ (asked, error)
      | panic ↦ (asked, panic)
      | done ↦ elim (r.read_lobby asked.calls) [
        | none ↦ (answered, error)
        | some answer ↦ (answered, if is_joined answer then done else error)
      ]
    ]

-- `InitObserver`: only the first call does anything, whether it fails or not.
unfoldable pub init_observer : {P : Type 0} → Remote → Client P → Client P × Outcome
unfolding join_the_lobby
init_observer r c =
    let (s, joined) = join_the_lobby r c.session in
    let joining = record c { session = s; selected = true } in
    if c.selected then (c, done) else elim joined [
      | done ↦ (record joining { observing = true }, done)
      | error ↦ (joining, error)
      | panic ↦ (joining, panic)
    ]
