-- ===== src/Backend/Handlers/Account.antt =====
-- internal/backend/command_{006,030,041,042}_*.go: the handlers before and at the login.
use gladiator.Prelude.{
  ℕ, Bool, not, ◌||◌, ◌++◌, none, some, List, [], ◌∷◌, Text, codes, length, if◌then◌else◌, ltb, eqb,
  ◌==◌, text_Eq,
}
use gladiator.Packet.Encoder.{
  authorization_handshake, client_host_and_username, client_authentication, create_new_account,
}
use gladiator.Backend.Session.{
  Services, Session, Outcome, done, error, authenticate_user, connect_to_lobby, create_user, call,
  send_to_game, set_logon_data, not_connected, connected_over_websocket,
}
use gladiator.Backend.Requests.Account.{
  parse_authorization_handshake, parse_client_authentication, parse_create_new_account,
}

abbrev pub yes : List ℕ
yes = 1 ∷ 0 ∷ 0 ∷ 0 ∷ []

abbrev pub no : List ℕ
no = 0 ∷ 0 ∷ 0 ∷ 0 ∷ []

abbrev pub refused_handshake : Session × Outcome → Session × Outcome
refused_handshake (s, o) = (s, error)

-- "68XIPSID" and "ENET".
unfoldable pub handle_authorization_handshake : Services → List ℕ → Session → Session × Outcome
handle_authorization_handshake svc req s = elim (parse_authorization_handshake req) [
  | none ↦ (s, done)
  | some d ↦
      if not (d.auth_key == codes "68XIPSID")
      then refused_handshake (send_to_game svc authorization_handshake no s)
      else if not (eqb d.version_number 3)
      then refused_handshake (send_to_game svc authorization_handshake no s)
      else send_to_game svc authorization_handshake (codes "ENET" ++ (0 ∷ [])) s
]

unfoldable pub handle_client_host_and_username : Services → List ℕ → Session → Session × Outcome
handle_client_host_and_username svc req s = send_to_game svc client_host_and_username yes s

unfoldable pub handle_client_authentication : Services → List ℕ → Session → Session × Outcome
handle_client_authentication svc req s =
    if not (eqb s.user_id 0) then (s, error) else elim (parse_client_authentication req) [
      | none ↦ (s, done)
      | some d ↦
          let asked = call (authenticate_user d.username d.password) s in
          elim (svc.authenticates s.calls d.username d.password) [
            | none ↦ send_to_game svc client_authentication no asked
            | some user ↦
                if not (svc.accepts asked.calls (connect_to_lobby user))
                then send_to_game svc client_authentication no (not_connected user asked)
                else send_to_game svc client_authentication yes
                    (set_logon_data user (connected_over_websocket user asked))
          ]
    ]

-- The length of a user name and of a password: at least one byte, at most eight.
abbrev pub bad_length : Text → Bool
bad_length t = eqb (length t) 0 || ltb 8 (length t)

unfoldable pub handle_create_new_account : Services → List ℕ → Session → Session × Outcome
handle_create_new_account svc req s = elim (parse_create_new_account req) [
  | none ↦ send_to_game svc create_new_account no s
  | some d ↦
      if bad_length d.username
      then send_to_game svc create_new_account no s
      else if bad_length d.password
      then send_to_game svc create_new_account no s
      else (let asked = call (create_user d.username d.password) s in
          if not (svc.accepts s.calls (create_user d.username d.password))
          then send_to_game svc create_new_account no asked
          else send_to_game svc create_new_account yes asked)
]
