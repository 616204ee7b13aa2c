-- ===== src/Wire.antt =====
-- internal/wire: the messages between the console and the backends. JSON is a parameter.
pub mod Event
use gladiator.Prelude.{ℕ, Option, none, some, List, [], ◌∷◌, Text}
use gladiator.Prelude.Buffers.{u8}
use Event.{EventType}

pub record User : Type 0 where
  pub user_id : ℕ
  pub username : Text
  pub version : Text

pub record Character : Type 0 where
  pub character_id : ℕ
  pub class_type : ℕ

pub record Player : Type 0 where
  pub user_id : ℕ
  pub username : Text
  pub character_id : ℕ
  pub class_type : ℕ
  pub ip_address : Text

pub record ChatMessage : Type 0 where
  pub user : Text
  pub text : Text

-- The dynamic type of a message's content; `other` is any JSON value that the program only passes on.
pub data Content : Type 0 where
  text : Text → Content
  player : Player → Content
  players : List Player → Content
  user : User → Content
  chat : ChatMessage → Content
  other : List ℕ → Content

pub record Message : Type 0 where
  pub to : Text
  pub from : Text
  pub type : EventType
  pub content : Content

-- `DefaultCodec`: `marshal` succeeds on the messages that the program builds, and each `unmarshal`
-- is the decoding of the content at the type that the caller asks for.
pub record Codec : Type 0 where
  pub marshal : Message → List ℕ
  pub unmarshal : List ℕ → Option Message
  pub unmarshal_user : List ℕ → Option User
  pub unmarshal_player : List ℕ → Option Player
  pub unmarshal_players : List ℕ → Option (List Player)
  pub unmarshal_chat : List ℕ → Option ChatMessage

-- `Compose` and `ComposeTyped`: the type's byte, then the message with that type.
unfoldable pub compose : Codec → EventType → Message → List ℕ
compose codec t msg = u8 t ∷ codec.marshal (record msg { type = t })

-- `Decode`; `none` is an error.
unfoldable pub decode : Codec → List ℕ → Option (EventType × Message)
decode codec [] = none
decode codec (t ∷ payload) = elim (codec.unmarshal payload) [ none ↦ none | some m ↦ some (t, m) ]

-- `DecodeTyped` at the type that `unmarshal` decodes.
unfoldable pub decode_typed : {A : Type 0} → (List ℕ → Option A) → List ℕ → Option (EventType × A)
decode_typed unmarshal [] = none
decode_typed unmarshal (t ∷ payload) = elim (unmarshal payload) [
  | none ↦ none
  | some a ↦ some (t, a)
]

unfoldable pub parse_event_type : List ℕ → EventType
parse_event_type [] = 0
parse_event_type (t ∷ payload) = t
