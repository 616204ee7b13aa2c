-- ===== src/Backend/Dispatcher/Serving.antt =====
-- Dispatching, reading and the handshake keep the session's calls guarded, so a connection does from its start to
-- its end.
use gladiator.Prelude.{
  if_rule, option_rule, ◌∷◌, some, none, Option, Text, ℕ, List, [], ◌≡◌, ap, inl, true, false, not,
  eqb, ltb, length, get_or, drop,
}
use gladiator.Packet.Encoder.{Code, code_byte}
use gladiator.Packet.Split.{split}
use gladiator.Backend.Session.{outcome_rule, Outcome, Session, Services}
use gladiator.Backend.Dispatcher.Clients.{
  Q, handle_list_channels-Guarded, handle_select_channel-Guarded, handle_send_lobby_message-Guarded,
  handle_show_ranking-Guarded, handle_get_characters-Guarded,
  handle_get_character_inventory-Guarded,
}
use gladiator.Backend.Dispatcher.Guarded.{Quiet-Guarded, Guarded, guarded}
use gladiator.Backend.Dispatcher.{
  Handler, handlers, switch, Sessions, serve, shake, shake_both, behind_header, filled_buffer,
  handle_packets, dispatch, handle_commands, handshake, handle_client, close_session,
}
use gladiator.Backend.Dispatcher.Sessions.{
  handle_update_character_inventory-Guarded, handle_delete_character-Guarded,
  handle_get_character_spells-Guarded, handle_update_character_spells-Guarded,
  handle_select_character-Guarded, handle_create_character-Guarded,
  handle_update_character_stats-Guarded, handle_create_new_account-Guarded,
  handle_client_authentication-Guarded, handle_client_host_and_username-Guarded,
  handle_authorization_handshake-Guarded,
}
use gladiator.Backend.Dispatcher.Rooms.{
  Obeys, handle_create_game-Guarded, handle_list_games-Guarded, handle_select_game-Guarded,
  handle_join_game-Guarded,
}
use gladiator.Backend.Proxy.{ProxyClient}
use gladiator.Backend.Client.{Client, Remote}
use gladiator.Backend.Handlers.Account.{
  handle_authorization_handshake, handle_client_host_and_username,
}

module _ {P : Type 0} (r : Remote) (px : ProxyClient P) (law : Obeys px) where
  -- A handler that keeps the calls guarded.
  abbrev Keeps : Handler r px → Type 0
  Keeps handler =
      (req : List ℕ) (c : Client P) → Guarded r.services c.session → (Q r) (handler req c)

  infixr 67 ◌▹◌
  data AllKeep : List (Code × Handler r px) → Type 0 where
    no_case : AllKeep []
    ◌▹◌ :
        {name : Code} {handler : Handler r px} {cases : List (Code × Handler r px)}
        → Keeps handler
        → AllKeep cases
        → AllKeep ((name, handler) ∷ cases)

  handlers-AllKeep : AllKeep (handlers r px)
  unfolding handlers
  handlers-AllKeep =
      (λ req c. handle_create_new_account-Guarded r.services req c.session)
      ▹ (λ req c. handle_client_authentication-Guarded r.services req c.session)
      ▹ handle_list_channels-Guarded r
      ▹ handle_select_channel-Guarded r
      ▹ handle_send_lobby_message-Guarded r
      ▹ handle_create_game-Guarded r px law
      ▹ handle_list_games-Guarded r px law
      ▹ handle_select_game-Guarded r px law
      ▹ handle_join_game-Guarded r px law
      ▹ handle_show_ranking-Guarded r
      ▹ (λ req c. handle_update_character_inventory-Guarded r.services req c.session)
      ▹ handle_get_characters-Guarded r
      ▹ (λ req c. handle_delete_character-Guarded r.services req c.session)
      ▹ handle_get_character_inventory-Guarded r
      ▹ (λ req c. handle_get_character_spells-Guarded r.services req c.session)
      ▹ (λ req c. handle_update_character_spells-Guarded r.services req c.session)
      ▹ (λ req c. handle_select_character-Guarded r.services req c.session)
      ▹ (λ req c. handle_create_character-Guarded r.services req c.session)
      ▹ (λ req c. handle_update_character_stats-Guarded r.services req c.session)
      ▹ no_case

  switch-Keeps :
      (cases : List (Code × Handler r px)) (code : ℕ)
      → AllKeep cases
      → Keeps (switch r px cases code)
  unfolding switch
  switch-Keeps [] code all req c v = v
  switch-Keeps ((name, handler) ∷ cases) code (keep ▹ all) req c v =
      if_rule (Q r) (eqb code (code_byte name)) (keep req c v) (switch-Keeps cases code all req c v)

  dispatch-Guarded : (code : ℕ) → Keeps (dispatch r px code)
  dispatch-Guarded code = switch-Keeps (handlers r px) code handlers-AllKeep

  handle_packets-Guarded :
      (packets : List (List ℕ)) (c : Client P)
      → Guarded r.services c.session
      → (Q r) (handle_packets r px packets c)
  unfolding handle_packets
  handle_packets-Guarded [] c v = v
  handle_packets-Guarded (data_ ∷ packets) c v =
      let x = dispatch r px (get_or data_ 1 0) (drop 4 data_) c in
      let v' = dispatch-Guarded (get_or data_ 1 0) (drop 4 data_) c v in
      let skipped = handle_packets-Guarded packets c v in
      if_rule (Q r) (ltb (length data_) 4) skipped (
        if_rule (Q r) (not (eqb (get_or data_ 0 0) 255)) skipped
          (outcome_rule (Q r) x.1 (handle_packets-Guarded packets x.0 v') v' v'))

  handle_commands-Guarded :
      (read : Option (List ℕ)) (c : Client P)
      → Guarded r.services c.session
      → (Q r) (handle_commands r px read c)
  unfolding handle_commands
  handle_commands-Guarded none c v = v
  handle_commands-Guarded (some read) c v =
      option_rule (Q r) (split (filled_buffer r px read)) v
        (λ packets e. handle_packets-Guarded packets c v)

  pub serve-Guarded :
      (reads : List (Option (List ℕ))) (c : Client P)
      → Guarded r.services c.session
      → (Q r) (serve r px reads c)
  unfolding serve
  serve-Guarded [] c v = v
  serve-Guarded (read ∷ reads) c v =
      let x = handle_commands r px read c in
      let v' = handle_commands-Guarded read c v in
      outcome_rule (Q r) x.1 (serve-Guarded reads x.0 v') v' v'

  close_session-Guarded :
      (id : Text) (c : Client P) (sessions : Sessions r px)
      → Guarded r.services c.session
      → Guarded r.services (close_session r px id c sessions).0.session
  unfolding close_session
  close_session-Guarded id c sessions v =
      let x = px.close (c.session, c.proxy) in
      let kept = Quiet-Guarded r.services c.session x.0.0 (law.close-Quiet c.session c.proxy) v in
      outcome_rule (λ (y : Client P × Sessions r px × Outcome). Guarded r.services y.0.session) x.1
        kept kept kept

  shake-Guarded :
      (read : Option (List ℕ)) (handler : Services → List ℕ → Session → Session × Outcome)
      → ((req : List ℕ) (s : Session)
          → Guarded r.services s
          → Guarded r.services (handler r.services req s).0)
      → (c : Client P) → Guarded r.services c.session
      → (Q r) (shake r px read handler c)
  shake-Guarded none handler h c v = v
  shake-Guarded (some read) handler h c v =
      option_rule (Q r) (behind_header r px read) v (λ req e. h req c.session v)

  shake_both-Guarded :
      (second third : Option (List ℕ)) (c : Client P)
      → Guarded r.services c.session
      → (Q r) (shake_both r px second third c)
  shake_both-Guarded second third c v =
      let x = shake r px second handle_client_host_and_username c in
      let v' =
        shake-Guarded second handle_client_host_and_username
          (handle_client_host_and_username-Guarded r.services) c v in
      outcome_rule (Q r) x.1
        (shake-Guarded third handle_authorization_handshake
          (handle_authorization_handshake-Guarded r.services) x.0 v')
        v' v'

  handshake-Guarded :
      (ping second third : Option (List ℕ)) (id : Text) (c : Client P) (sessions : Sessions r px)
      → Guarded r.services c.session
      → Guarded r.services (handshake r px ping second third id c sessions).1.session
  unfolding handshake
  handshake-Guarded none second third id c sessions v = v
  handshake-Guarded (some ping) second third id c sessions v =
      if_rule (λ (x : Sessions r px × Client P × Outcome). Guarded r.services x.1.session)
        (not (eqb (get_or ping 0 0) 1)) v (shake_both-Guarded second third c v)

  handle_client-Guarded :
      (ping second third : Option (List ℕ)) (reads : List (Option (List ℕ))) (id : Text)
      (c : Client P) (sessions : Sessions r px)
      → Guarded r.services c.session
      → Guarded r.services (handle_client r px ping second third reads id c sessions).1.session
  unfolding handle_client
  handle_client-Guarded ping second third reads id c sessions v =
      let K = λ (x : Sessions r px × Client P × Outcome). Guarded r.services x.1.session in
      let x = handshake r px ping second third id c sessions in
      let shaken = handshake-Guarded ping second third id c sessions v in
      let y = serve r px reads x.1 in
      let served = serve-Guarded reads x.1 shaken in
      outcome_rule K x.2
        (outcome_rule K y.1 served (close_session-Guarded id y.0 x.0 served) served) shaken shaken

  -- A connection whose session starts without a user, a connection to the lobby and a call, over a proxy that keeps
  -- the user and the connection, only adds calls, and makes none when it closes: whatever the game sends, each
  -- call but logging in, connecting to the lobby and creating an account stands behind a connection to the lobby
  -- that succeeded, messages to the lobby included.
  pub handle_client-guarded :
      (ping second third : Option (List ℕ)) (reads : List (Option (List ℕ))) (id : Text)
      (c : Client P) (sessions : Sessions r px)
      → c.session.user_id ≡ 0
      → c.session.ws_conn ≡ false
      → c.session.calls ≡ []
      → guarded r.services [] false
          (handle_client r px ping second third reads id c sessions).1.session.calls
        ≡ true
  unfolding guarded
  handle_client-guarded ping second third reads id c sessions no_user no_connection no_calls =
      (handle_client-Guarded ping second third reads id c sessions
        (ap (guarded r.services [] false) no_calls, inl no_user, inl no_connection)).0
