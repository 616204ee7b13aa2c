-- ===== src/Backend/Dispatcher.antt =====
-- internal/backend/{dispatcher,session_manager}.go and `handleClient` of internal/backend/backend.go: a connection of the
-- game, from the handshake to its end. What each read gives is an argument, `none` for an error; a read fills at
-- most the buffer. Failed closes are only logged.
pub mod Guarded
pub mod Sessions
pub mod Clients
pub mod Rooms
pub mod Serving
pub mod Failing
use gladiator.Prelude.{
  ℕ, ◌-◌, false, not, Option, none, some, List, [], ◌∷◌, ◌++◌, Text, text_Eq, length, drop, get_or,
  if◌then◌else◌, eqb, ltb,
}
use gladiator.Prelude.Buffers.{make_bytes}
use gladiator.Prelude.Maps.{Map, insert, delete}
use gladiator.Packet.Encoder.{Code, code_byte}
use gladiator.Packet.Split.{Slice, split}
use gladiator.Backend.LobbyEvents.{handle_event}
use gladiator.Backend.Session.{Services, Session, Outcome, done, error, panic}
use gladiator.Backend.Proxy.{ProxyClient}
use gladiator.Backend.Client.{Remote, Client, with_session, with_proxy}
use gladiator.Backend.Handlers.Account.{
  handle_authorization_handshake, handle_client_host_and_username, handle_client_authentication,
  handle_create_new_account,
}
use gladiator.Backend.Handlers.Characters.{
  handle_update_character_inventory, handle_delete_character, handle_get_character_spells,
  handle_update_character_spells, handle_select_character, handle_create_character,
  handle_update_character_stats,
}
use gladiator.Backend.Handlers.Lobby.{
  handle_list_channels, handle_select_channel, handle_send_lobby_message, handle_get_characters,
  handle_get_character_inventory, handle_show_ranking,
}
use gladiator.Backend.Handlers.Games.{
  handle_list_games, handle_create_game, handle_select_game, handle_join_game,
}

module _ {P : Type 0} (r : Remote) (px : ProxyClient P) where
  -- A handler that needs the session alone.
  abbrev pub lift :
      (Services → List ℕ → Session → Session × Outcome) → List ℕ → Client P → Client P × Outcome
  lift handler req c = with_session c (handler r.services req c.session)

  abbrev pub Handler : Type 0
  Handler = List ℕ → Client P → Client P × Outcome

  -- The cases of the switch on the packet's code.
  unfoldable pub handlers : List (Code × Handler)
  unfolding handle_create_new_account handle_client_authentication handle_list_channels
      handle_select_channel handle_send_lobby_message handle_create_game handle_list_games
      handle_select_game handle_join_game handle_show_ranking handle_update_character_inventory
      handle_get_characters handle_delete_character handle_get_character_inventory
      handle_get_character_spells handle_update_character_spells handle_select_character
      handle_create_character handle_update_character_stats
  handlers =
      (Code.create_new_account, lift handle_create_new_account)
      ∷ (Code.client_authentication, lift handle_client_authentication)
      ∷ (Code.list_channels, handle_list_channels r)
      ∷ (Code.selected_channel, handle_select_channel r)
      ∷ (Code.send_lobby_message, handle_send_lobby_message r)
      ∷ (Code.create_game, handle_create_game r px)
      ∷ (Code.list_games, handle_list_games r px)
      ∷ (Code.select_game, handle_select_game r px)
      ∷ (Code.join_game, handle_join_game r px)
      ∷ (Code.show_ranking, handle_show_ranking r)
      ∷ (Code.update_character_inventory, lift handle_update_character_inventory)
      ∷ (Code.get_characters, handle_get_characters r)
      ∷ (Code.delete_character, lift handle_delete_character)
      ∷ (Code.get_character_inventory, handle_get_character_inventory r)
      ∷ (Code.get_character_spells, lift handle_get_character_spells)
      ∷ (Code.update_character_spells, lift handle_update_character_spells)
      ∷ (Code.select_character, lift handle_select_character)
      ∷ (Code.create_character, lift handle_create_character)
      ∷ (Code.update_character_stats, lift handle_update_character_stats)
      ∷ []

  -- The first case of a code; any other code is skipped.
  unfoldable pub switch : List (Code × Handler) → ℕ → List ℕ → Client P → Client P × Outcome
  unfolding code_byte
  switch [] code req c = (c, done)
  switch ((name, handler) ∷ cases) code req c =
      let later = switch cases code req c in
      if eqb code (code_byte name) then handler req c else later

  abbrev pub dispatch : ℕ → List ℕ → Client P → Client P × Outcome
  dispatch = switch handlers

  -- The packets of one read, up to the first whose handler ends with an error.
  unfoldable pub handle_packets : List (List ℕ) → Client P → Client P × Outcome
  unfolding switch handlers
  handle_packets [] c = (c, done)
  handle_packets (data_ ∷ packets) c =
      let (c', ended) = dispatch (get_or data_ 1 0) (drop 4 data_) c in
      let skipped = handle_packets packets c in
      let later = handle_packets packets c' in
      let handled : Client P × Outcome = elim ended [
        | done ↦ later
        | error ↦ (c', error)
        | panic ↦ (c', panic)
      ] in
      if ltb (length data_) 4
      then skipped
      else if not (eqb (get_or data_ 0 0) 255)
      then skipped
      else handled

  -- The buffer has 1024 bytes, of which the read filled the first.
  abbrev pub filled_buffer : List ℕ → Slice
  filled_buffer read = record { array = read ++ make_bytes (1024 - length read); len = length read }

  unfoldable pub handle_commands : Option (List ℕ) → Client P → Client P × Outcome
  unfolding split handle_packets
  handle_commands none c = (c, error)
  handle_commands (some read) c = elim (split (filled_buffer read)) [
    | none ↦ (c, panic)
    | some packets ↦ handle_packets packets c
  ]

  -- The loop of `RegisterNewObserver` over the payloads that it reads: each goes to the lobby's handler, and then to
  -- the proxy's, whose error ends the loop.
  unfoldable pub observe : List (List ℕ) → Client P → Client P × Outcome
  unfolding handle_event
  observe [] c = (c, done)
  observe (payload ∷ payloads) c =
      let (s, users) = handle_event r.services r.codec payload (c.session, c.lobby_users) in
      let ((s', p), ended) = px.handle payload (s, c.proxy) in
      let c' = record c { session = s'; proxy = p; lobby_users = users } in
      let later = observe payloads c' in
      elim ended [ done ↦ later | error ↦ (c', error) | panic ↦ (c', panic) ]

  -- `ConnectedSessions` by the sessions' identifiers.
  abbrev pub Sessions : Type 0
  Sessions = Map Text (Client P)

  unfoldable pub add_session : Text → Client P → Sessions → Sessions
  add_session id c sessions = insert id c sessions

  -- `CloseSession`: the proxy is closed and the observer stopped.
  unfoldable pub close_session : Text → Client P → Sessions → Client P × Sessions × Outcome
  close_session id c sessions =
      let (s, ended) = px.close (c.session, c.proxy) in
      let left = record (with_proxy c s) { observing = false } in
      elim ended [
        | done ↦ (left, delete id sessions, done)
        | error ↦ (left, delete id sessions, done)
        | panic ↦ (with_proxy c s, sessions, panic)
      ]

  -- `buf[4:n]` of a buffer that has `n` bytes read; `none` is a panic.
  abbrev pub behind_header : List ℕ → Option (List ℕ)
  behind_header read = if ltb (length read) 4 then none else some (drop 4 read)

  -- One of the two commands of the handshake.
  abbrev pub shake :
      Option (List ℕ)
      → (Services → List ℕ → Session → Session × Outcome)
      → Client P
      → Client P × Outcome
  shake none handler c = (c, error)
  shake (some read) handler c = elim (behind_header read) [
    | none ↦ (c, panic)
    | some req ↦ lift handler req c
  ]

  -- The two commands behind the ping.
  abbrev pub shake_both : Option (List ℕ) → Option (List ℕ) → Client P → Client P × Outcome
  shake_both second third c =
      let (c', first_ended) = shake second handle_client_host_and_username c in
      elim first_ended [
        | done ↦ shake third handle_authorization_handshake c'
        | error ↦ (c', error)
        | panic ↦ (c', panic)
      ]

  -- `handshake`, with what the three reads give and a new session under the identifier `id`. A connection that
  -- does not begin with the byte 1 gets no session.
  unfoldable pub handshake :
      Option (List ℕ)
      → Option (List ℕ)
      → Option (List ℕ)
      → Text
      → Client P
      → Sessions
      → Sessions × Client P × Outcome
  unfolding handle_client_host_and_username handle_authorization_handshake add_session
  handshake none second third id c sessions = (sessions, c, error)
  handshake (some ping) second third id c sessions =
      if not (eqb (get_or ping 0 0) 1)
      then (sessions, c, error)
      else let (c', ended) = shake_both second third c in (add_session id c sessions, c', ended)

  -- The loop of `handleClient` over the reads that follow, until one ends it.
  unfoldable pub serve : List (Option (List ℕ)) → Client P → Client P × Outcome
  unfolding handle_commands
  serve [] c = (c, done)
  serve (read ∷ reads) c =
      let (c', ended) = handle_commands read c in
      let later = serve reads c' in
      elim ended [ done ↦ later | error ↦ (c', error) | panic ↦ (c', panic) ]

  -- `handleClient`. The session is closed only behind a handshake that succeeded; a panic ends the program.
  unfoldable pub handle_client :
      Option (List ℕ)
      → Option (List ℕ)
      → Option (List ℕ)
      → List (Option (List ℕ))
      → Text
      → Client P
      → Sessions
      → Sessions × Client P × Outcome
  unfolding handshake serve close_session
  handle_client ping second third reads id c sessions =
      let (sessions', c', shaken) = handshake ping second third id c sessions in
      let (served, ended) = serve reads c' in
      elim shaken [
        | error ↦ (sessions', c', error)
        | panic ↦ (sessions', c', panic)
        | done ↦ elim ended [
          | panic ↦ (sessions', served, panic)
          | done ↦ (sessions', served, done)
          | error ↦
              let (closed, left, closing) = close_session id served sessions' in
              (left, closed, elim closing [ done ↦ error | error ↦ error | panic ↦ panic ])
        ]
      ]
