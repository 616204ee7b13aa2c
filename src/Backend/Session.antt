-- ===== src/Backend/Session.antt =====
-- internal/backend/bsession/session.go: the session of a game client, as far as the handlers of requests
-- use it, and what the handlers ask of the remote services. The services, the connection to the lobby
-- and the socket are parameters, whose answers may depend on what happened before. What was sent to the
-- game and the calls made are kept in the session, oldest first. The session's socket is there.
use gladiator.Prelude.{ℕ, Bool, true, Option, none, some, List, [], ◌∷◌, ◌++◌, Text, if◌then◌else◌}
use gladiator.Wire.{Codec, Content, text, chat, compose}
use gladiator.Wire.Event.{EventType}
use gladiator.Wire.Event
use gladiator.Packet.Encoder.{Code, code_byte, encode_packet}
use gladiator.Model.Character.{parse_character_info}

-- The user and the character of the services' answers.
pub record RemoteUser : Type 0 where
  pub user_id : ℕ
  pub username : Text

pub record RemoteCharacter : Type 0 where
  pub character_id : ℕ
  pub stats : List ℕ
  pub inventory : List ℕ
  pub spells : List ℕ

pub data CharacterAnswer : Type 0 where
  found : RemoteCharacter → CharacterAnswer
  not_found : CharacterAnswer
  failed : CharacterAnswer

pub data Call : Type 0 where
  authenticate_user : Text → Text → Call
  connect_to_lobby : RemoteUser → Call
  create_user : Text → Text → Call
  get_character : ℕ → Text → Call
  create_character : ℕ → Text → List ℕ → Call
  delete_character : ℕ → Text → Call
  put_stats : ℕ → Text → List ℕ → Call
  put_inventory : ℕ → Text → List ℕ → Call
  put_spells : ℕ → Text → List ℕ → Call
  send_event : List ℕ → Call
  read_event : Call
  list_games : Call
  get_game : Text → Call
  create_game : Text → Text → ℕ → ℕ → Text → Call
  join_game : ℕ → Text → Text → Call
  list_characters : ℕ → Call
  get_ranking : ℕ → Text → ℕ → ℕ → Call

-- What a call answers behind the calls made before it; `accepts` is for those whose answer is only
-- tested for an error.
pub record Services : Type 0 where
  pub authenticates : List Call → Text → Text → Option RemoteUser
  pub character : List Call → ℕ → Text → CharacterAnswer
  pub accepts : List Call → Call → Bool
  pub write : List (List ℕ) → List ℕ → Bool

pub record Session : Type 0 where
  pub user_id : ℕ
  pub username : Text
  pub character_id : ℕ
  pub class_type : ℕ
  pub sent : List (List ℕ)
  pub calls : List Call
  -- whether `wsConn` is set
  pub ws_conn : Bool

-- How a handler ends: without an error, with one, or with a panic.
pub data Outcome : Type 0 where
  done error panic : Outcome

-- What holds of the three branches holds of the case distinction.
pub outcome_rule :
    {B : Type 0} (P : B → Type 0) (o : Outcome) {x y z : B}
    → P x
    → P y
    → P z
    → P (elim o [ done ↦ x | error ↦ y | panic ↦ z ])
outcome_rule P done h k l = h
outcome_rule P error h k l = k
outcome_rule P panic h k l = l

pub character_rule :
    {B : Type 0} (P : B → Type 0) (o : CharacterAnswer) {f : RemoteCharacter → B} {y z : B}
    → ((character : RemoteCharacter) → P (f character))
    → P y
    → P z
    → P (elim o [ found character ↦ f character | not_found ↦ y | failed ↦ z ])
character_rule P (found character) h k l = h character
character_rule P not_found h k l = k
character_rule P failed h k l = l

abbrev pub call : Call → Session → Session
call c s = record s { calls = s.calls ++ (c ∷ []) }

unfoldable pub send_to_game : Services → Code → List ℕ → Session → Session × Outcome
send_to_game svc packet_type payload s =
    let data_ = encode_packet (code_byte packet_type) payload in
    if svc.write s.sent data_
    then (record s { sent = s.sent ++ (data_ ∷ []) }, done)
    else (s, error)

-- `ConnectOverWebsocket`: the session behind an attempt that failed, and behind one that did not.
abbrev pub not_connected : RemoteUser → Session → Session
not_connected user s = call (connect_to_lobby user) s

abbrev pub connected_over_websocket : RemoteUser → Session → Session
connected_over_websocket user s = record (call (connect_to_lobby user) s) { ws_conn = true }

abbrev pub set_logon_data : RemoteUser → Session → Session
set_logon_data user s = record s { user_id = user.user_id; username = user.username }

-- The character's record, or the panic of `ParseCharacterInfo`.
unfoldable pub update_character : RemoteCharacter → Session → Option Session
update_character character s = elim (parse_character_info character.stats) [
  | none ↦ none
  | some info ↦
      some (record s { character_id = character.character_id; class_type = info.class_type })
]

-- `SendEvent` and, with a recipient, `SendEventTo`: a message of the user to the lobby. Without a connection the
-- write is to a nil pointer. `decimal` is
-- `strconv.Itoa`.
unfoldable pub send_event_to :
    Services → Codec → (ℕ → Text) → EventType → Content → Text → Session → Session × Outcome
unfolding compose
send_event_to svc codec decimal event_type content to s =
    let c = send_event (
      compose codec event_type
        (record { to = to; from = decimal s.user_id; type = event_type; content = content })) in
    if s.ws_conn then (call c s, if svc.accepts s.calls c then done else error) else (s, panic)

unfoldable pub send_chat_message :
    Services → Codec → (ℕ → Text) → Text → Session → Session × Outcome
unfolding send_event_to
send_chat_message svc codec decimal t s =
    send_event_to svc codec decimal Event.chat (chat (record { user = s.username; text = t })) [] s

unfoldable pub send_set_room_ready :
    Services → Codec → (ℕ → Text) → Text → Session → Session × Outcome
unfolding send_event_to
send_set_room_ready svc codec decimal game_room_id s =
    send_event_to svc codec decimal Event.set_room_ready (text game_room_id) [] s
