-- ===== src/Backend/Handlers/Tests.antt =====
-- A client that logs in, and what it asks for.
use gladiator.Prelude.{
  false, ℕ, ◌<◌, ◌≡◌, ◌≢◌, refl, ◌⊎◌, true, some, List, [], ◌∷◌, ◌++◌, codes, length, replicate,
  get_or, arith, if◌then◌else◌, ltb, eqb, ◌&&◌,
}
use gladiator.Prelude.Buffers.{index_byte}
use gladiator.Packet.Encoder.{
  authorization_handshake, select_character, get_character_spells, create_new_account,
}
use gladiator.Packet.Reader.{read_string, read_uint32, read_n_bytes, new_reader}
use gladiator.Model.Character.{to_bytes}
use gladiator.Model.Tests.{knight, knight-IsCharacterInfo}
use gladiator.Backend.Session.{
  RemoteUser, RemoteCharacter, Services, Session, error, found, create_user, get_character, call,
  send_to_game,
}
use gladiator.Backend.Requests.Account.{
  AuthorizationHandshakeRequestData, CreateNewAccountRequestData, parse_authorization_handshake,
  parse_create_new_account,
}
use gladiator.Backend.Requests.Characters.{
  SelectCharacterRequestData, GetCharacterSpellsRequestData, parse_select_character,
  parse_get_character_spells,
}
use gladiator.Backend.Handlers.Account.{
  yes, no, handle_authorization_handshake, handle_client_authentication, handle_create_new_account,
}
use gladiator.Backend.Handlers.Characters.{handle_get_character_spells, handle_select_character}
use gladiator.Backend.Handlers.Login.{
  Agreed, HasUser, handle_client_authentication_lem, Fits, handle_create_new_account_lem,
}
use gladiator.Backend.Handlers.Replies.{
  handle_get_character_spells_lem, handle_select_character_lem, handle_authorization_handshake_lem,
}

-- The service's character: the knight, with 43 spells that are not learnt.
abbrev stored : RemoteCharacter
stored = record {
  character_id = 4;
  stats = to_bytes knight;
  inventory = [];
  spells = replicate 43 0;
}

abbrev svc : Services
svc = record {
  authenticates = λ calls name password. some (record { user_id = 7; username = name });
  character = λ calls id name. found stored;
  accepts = λ calls c. true;
  write = λ sent data_. true;
}

abbrev new_session : Session
new_session = record {
  user_id = 0;
  username = [];
  character_id = 0;
  class_type = 0;
  sent = [];
  calls = [];
  ws_conn = false;
}

abbrev logged_in : Session
logged_in = record new_session { user_id = 7; username = 97 ∷ [] }

-- The number 1, and the terminated strings "b" and "a".
abbrev login : List ℕ
login = 1 ∷ 0 ∷ 0 ∷ 0 ∷ 98 ∷ 0 ∷ 97 ∷ 0 ∷ []

-- The terminated strings "a" and "k".
abbrev names : List ℕ
names = 97 ∷ 0 ∷ 107 ∷ 0 ∷ []

handle_client_authentication_lem_example :
    ((user : RemoteUser) × Agreed svc login new_session user
      × HasUser (handle_client_authentication svc login new_session).0 user.user_id user.username)
    ⊎ (((user : RemoteUser) → Agreed svc login new_session user → ⊥)
        × HasUser (handle_client_authentication svc login new_session).0 0 [])
handle_client_authentication_lem_example = handle_client_authentication_lem svc login new_session

handle_create_new_account_lem_example :
    ((d : CreateNewAccountRequestData) × (parse_create_new_account login ≡ some d)
      × Fits d.username
      × Fits d.password
      × (handle_create_new_account svc login new_session
          ≡ send_to_game svc create_new_account yes
              (call (create_user d.username d.password) new_session)))
    ⊎ (((d : CreateNewAccountRequestData)
          → parse_create_new_account login ≡ some d
          → Fits d.username
          → Fits d.password
          → ⊥)
        × (handle_create_new_account svc login new_session
            ≡ send_to_game svc create_new_account no new_session))
handle_create_new_account_lem_example = handle_create_new_account_lem svc login new_session

seven_ne : logged_in.user_id ≢ 0
seven_ne h = absurd (omega (arith, h))

abbrev spells_of : GetCharacterSpellsRequestData
spells_of = record { username = 97 ∷ []; character_name = 107 ∷ [] }

spells_parsed : parse_get_character_spells names ≡ some spells_of
unfolding parse_get_character_spells read_string new_reader index_byte
spells_parsed = refl

handle_get_character_spells_lem_example :
    (reply : List ℕ) × (handle_get_character_spells svc names logged_in
      ≡ send_to_game svc get_character_spells reply (call (get_character 7 (107 ∷ [])) logged_in))
    × (length reply ≡ 43)
    × ((i : ℕ)
        → i < 43
        → get_or reply i 0 ≡ (
            if ltb i 41 && eqb (get_or (replicate 43 0) i 0) 0
            then 1
            else get_or (replicate 43 0) i 0))
handle_get_character_spells_lem_example =
    handle_get_character_spells_lem svc names logged_in spells_of stored seven_ne spells_parsed refl
      refl

abbrev selection : SelectCharacterRequestData
selection = record { username = 97 ∷ []; character_name = 107 ∷ [] }

selection_parsed : parse_select_character names ≡ some selection
unfolding parse_select_character read_string new_reader index_byte
selection_parsed = refl

handle_select_character_lem_example :
    handle_select_character svc names logged_in
    ≡ send_to_game svc select_character
        (1 ∷ 0 ∷ 0 ∷ 0 ∷ to_bytes knight)
        (record (call (get_character 7 (107 ∷ [])) logged_in) { character_id = 4; class_type = 0 })
handle_select_character_lem_example =
    handle_select_character_lem svc names logged_in selection stored knight seven_ne
      selection_parsed refl refl knight-IsCharacterInfo

abbrev greeting : AuthorizationHandshakeRequestData
greeting = record { auth_key = codes "68XIPSID"; version_number = 3 }

greeting_parsed :
    parse_authorization_handshake (codes "68XIPSID" ++ (3 ∷ 0 ∷ 0 ∷ 0 ∷ [])) ≡ some greeting
unfolding parse_authorization_handshake read_n_bytes read_uint32 new_reader
greeting_parsed = refl

handle_authorization_handshake_lem_example :
    ((codes "68XIPSID" ≡ codes "68XIPSID")
      × (◌≡◌ {A = ℕ} 3 3)
      × (handle_authorization_handshake svc (codes "68XIPSID" ++ (3 ∷ 0 ∷ 0 ∷ 0 ∷ [])) new_session
          ≡ send_to_game svc authorization_handshake (codes "ENET" ++ (0 ∷ [])) new_session))
    ⊎ ((codes "68XIPSID" ≡ codes "68XIPSID" → ◌≡◌ {A = ℕ} 3 3 → ⊥)
        × (handle_authorization_handshake svc (codes "68XIPSID" ++ (3 ∷ 0 ∷ 0 ∷ 0 ∷ [])) new_session
            ≡ ((send_to_game svc authorization_handshake no new_session).0, error)))
handle_authorization_handshake_lem_example =
    handle_authorization_handshake_lem svc (codes "68XIPSID" ++ (3 ∷ 0 ∷ 0 ∷ 0 ∷ [])) new_session
      greeting greeting_parsed
