-- ===== src/Backend/Requests/Account.antt =====
-- internal/backend/command_{006,030,041,042}_*.go: the requests before a user is logged in, and their
-- `Parse`. A request is the data behind the four-byte header of its packet; `none` is an error, with
-- which the callers use nothing of the data.
use gladiator.Prelude.{ℕ, Option, none, List, length, ltb, if◌then◌else◌, Text}
use gladiator.Packet.Reader.{Read, ◌>>=◌, pure, read_string, read_n_bytes, read_uint32}
use gladiator.Packet.Reads.{parsed}

pub record AuthorizationHandshakeRequestData : Type 0 where
  pub auth_key : Text
  pub version_number : ℕ

abbrev pub read_authorization_handshake : Read AuthorizationHandshakeRequestData
read_authorization_handshake = do
  auth_key ← read_n_bytes 8
  version_number ← read_uint32
  pure (record { auth_key = auth_key; version_number = version_number })

unfoldable pub parse_authorization_handshake : List ℕ → Option AuthorizationHandshakeRequestData
parse_authorization_handshake r =
    if ltb (length r) 12 then none else parsed read_authorization_handshake r

pub record ClientHostAndUsernameRequestData : Type 0 where
  pub computer_hostname : Text
  pub computer_username : Text

abbrev pub read_client_host_and_username : Read ClientHostAndUsernameRequestData
read_client_host_and_username = do
  computer_hostname ← read_string
  computer_username ← read_string
  pure (record { computer_hostname = computer_hostname; computer_username = computer_username })

unfoldable pub parse_client_host_and_username : List ℕ → Option ClientHostAndUsernameRequestData
parse_client_host_and_username = parsed read_client_host_and_username

pub record ClientAuthenticationRequestData : Type 0 where
  pub unknown : ℕ
  pub username : Text
  pub password : Text

abbrev pub read_client_authentication : Read ClientAuthenticationRequestData
read_client_authentication = do
  unknown ← read_uint32
  password ← read_string
  username ← read_string
  pure (record { unknown = unknown; username = username; password = password })

unfoldable pub parse_client_authentication : List ℕ → Option ClientAuthenticationRequestData
parse_client_authentication = parsed read_client_authentication

pub record CreateNewAccountRequestData : Type 0 where
  pub cd_key : ℕ
  pub username : Text
  pub password : Text

abbrev pub read_create_new_account : Read CreateNewAccountRequestData
read_create_new_account = do
  cd_key ← read_uint32
  password ← read_string
  username ← read_string
  pure (record { cd_key = cd_key; username = username; password = password })

unfoldable pub parse_create_new_account : List ℕ → Option CreateNewAccountRequestData
parse_create_new_account = parsed read_create_new_account
