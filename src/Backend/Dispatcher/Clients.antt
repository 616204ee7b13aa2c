-- ===== src/Backend/Dispatcher/Clients.antt =====
-- The handlers about the lobby keep the session's calls guarded.
use gladiator.Backend.Requests.Characters.{parse_get_character_inventory}
use gladiator.Prelude.{
  not, ◌∙◌, sym, ℕ, suc, ◌≡◌, ◌≢◌, refl, false, ◌&&◌, ◌||◌, List, [], ◌∷◌, arith, eqb, ltb, eqb_iff,
  if_rule, option_rule, branch_rule, length, Text, text_Eq, codes, ◌==◌,
}
use gladiator.Packet.Encoder
use gladiator.Packet.Encoder.{Code, receive_message}
use gladiator.Wire.{chat, player, Player, Content}
use gladiator.Wire.Event.{join_lobby, EventType}
use gladiator.Wire.Event
use gladiator.Model.Lobby.{ranking_to_bytes}
use gladiator.Backend.Session
use gladiator.Backend.Session.{
  character_rule, read_event, Session, Outcome, Call, call, send_event, send_to_game, send_event_to,
  send_chat_message, outcome_rule, list_characters, get_ranking,
}
use gladiator.Backend.Client.{own_player, join_the_lobby, init_observer, Remote, Client}
use gladiator.Backend.Messages.{new_global_message, set_channel_name}
use gladiator.Backend.Requests.Games.{parse_select_channel, parse_send_lobby_message, parse_ranking}
use gladiator.Backend.Handlers.Lobby.{
  fetch_inventory, handle_get_character_inventory, handle_list_channels, handle_select_channel,
  handle_send_lobby_message, handle_get_characters, handle_show_ranking, show_users, names_or_empty,
  characters_reply, null_terminated, channels,
}
use gladiator.Backend.Dispatcher.Guarded.{
  append_nil, Extends-trans, Guarded, Extends, send_to_game-Quiet, call-Extends, Quiet-Guarded,
  Extends-Guarded, wired-Guarded,
}

-- An event needs a connection.
send_event_to-Guarded :
    (r : Remote) (t : EventType) (content : Content) (to : Text) (s : Session)
    → Guarded r.services s
    → Guarded r.services (send_event_to r.services r.codec r.decimal t content to s).0
unfolding send_event_to
send_event_to-Guarded r t content to s v =
    branch_rule (λ (x : Session × Outcome). Guarded r.services x.0) s.ws_conn
      (λ e. wired-Guarded r.services s (call (send_event _) s) e (call-Extends (send_event _) s) v)
      (λ e. v)

send_chat_message-Guarded :
    (r : Remote) (message : Text) (s : Session)
    → Guarded r.services s
    → Guarded r.services (send_chat_message r.services r.codec r.decimal message s).0
unfolding send_chat_message
send_chat_message-Guarded r message s v =
    send_event_to-Guarded r Event.chat (chat (record { user = s.username; text = message })) [] s v

module _ (r : Remote) where
  sends :
      (code : Code) (payload : List ℕ) (s : Session)
      → Guarded r.services s
      → Guarded r.services (send_to_game r.services code payload s).0
  sends code payload s v =
      Quiet-Guarded r.services s (send_to_game r.services code payload s).0
        (send_to_game-Quiet r.services code payload s) v

  pub user_ne : (s : Session) → eqb s.user_id 0 ≡ false → s.user_id ≢ 0
  user_ne s e z = absurd (ground (arith, eqb_iff s.user_id 0, e, z))

  asks :
      (s : Session)
      → eqb s.user_id 0 ≡ false
      → (c : Call) → Guarded r.services s
      → Guarded r.services (call c s)
  asks s e c v = Extends-Guarded r.services s (call c s) (user_ne s e) (call-Extends c s) v

  show_users-Guarded :
      (users : List Player) (idx : ℕ) (s : Session)
      → Guarded r.services s
      → Guarded r.services (show_users r users idx s)
  unfolding show_users
  show_users-Guarded [] idx s v = v
  show_users-Guarded (user ∷ users) idx s v =
      show_users-Guarded users (suc idx) _ (sends receive_message _ s v)

-- The session of a handler's result.
abbrev pub Q : {P : Type 0} → Remote → Client P × Outcome → Type 0
Q r x = Guarded r.services x.0.session

module _ {P : Type 0} (r : Remote) (req : List ℕ) (c : Client P)
    (v : Guarded r.services c.session) where
  pub handle_list_channels-Guarded : (Q r) (handle_list_channels r req c)
  unfolding handle_list_channels
  handle_list_channels-Guarded =
      sends r Encoder.list_channels (null_terminated channels) c.session v

  pub handle_select_channel-Guarded : (Q r) (handle_select_channel r req c)
  unfolding handle_select_channel
  handle_select_channel-Guarded =
      let names = names_or_empty (parse_select_channel req) in
      let payload = set_channel_name names.1 in
      let told = sends r receive_message payload c.session v in
      outcome_rule (Q r) (send_to_game r.services receive_message payload c.session).1
        (if_rule (Guarded r.services) ((names.0 == codes "DISPEL") && (names.1 == codes "DISPEL"))
          (show_users-Guarded r c.lobby_users 0 _ told) told)
        told told

  pub handle_send_lobby_message-Guarded : (Q r) (handle_send_lobby_message r req c)
  unfolding handle_send_lobby_message
  handle_send_lobby_message-Guarded =
      option_rule (Q r) (parse_send_lobby_message req) v (λ message e.
        if_rule (Q r) (eqb (length message) 0 || ltb 87 (length message)) v (
          outcome_rule (Q r) (send_chat_message r.services r.codec r.decimal message c.session).1
            (send_chat_message-Guarded r message c.session v)
            (send_chat_message-Guarded r message c.session v)
            (send_chat_message-Guarded r message c.session v)))

  pub handle_get_characters-Guarded : (Q r) (handle_get_characters r req c)
  unfolding handle_get_characters
  handle_get_characters-Guarded =
      branch_rule (Q r) (eqb c.session.user_id 0) (λ e. v)
        (λ e.
          let ask = list_characters c.session.user_id in
          let asked = asks r c.session e ask v in
          option_rule (Q r) (r.list_characters c.session.calls c.session.user_id) asked (λ names f.
            sends r Encoder.get_characters (characters_reply names) (call ask c.session) asked))

  pub handle_show_ranking-Guarded : (Q r) (handle_show_ranking r req c)
  unfolding handle_show_ranking
  handle_show_ranking-Guarded =
      branch_rule (Q r) (eqb c.session.user_id 0) (λ e. v)
        (λ e. option_rule (Q r) (parse_ranking req) v (λ d f.
          let ask = get_ranking c.session.user_id d.character_name d.class_type d.offset in
          let asked = asks r c.session e ask v in
          option_rule (Q r) (r.get_ranking c.session.calls ask) asked (λ ranking g.
            sends r Encoder.show_ranking (ranking_to_bytes ranking) (call ask c.session) asked)))

  fetch_inventory-Guarded : c.session.user_id ≢ 0 → (Q r) (fetch_inventory r req c)
  unfolding fetch_inventory
  fetch_inventory-Guarded n = option_rule (Q r) (parse_get_character_inventory req) v (λ d e.
      let get = Session.get_character c.session.user_id d.character_name in
      let asked =
        Extends-Guarded r.services c.session (call get c.session) n (call-Extends get c.session)
          v in
      let told =
        sends r receive_message
          (new_global_message (codes "system")
            (codes "Inventory fetch failed, please try sign-in again"))
          (call get c.session) asked in
      character_rule (Q r) (r.services.character c.session.calls c.session.user_id d.character_name)
        (λ character.
          if_rule (Q r) (not (eqb (length character.inventory) 207)) asked (
            sends r Encoder.get_character_inventory character.inventory (call get c.session) asked))
        told told)

-- `InitObserver` calls the lobby, for the user that there is.
send_event_to-Extends :
    (r : Remote) (t : EventType) (content : Content) (to : Text) (s : Session)
    → Extends s (send_event_to r.services r.codec r.decimal t content to s).0
unfolding send_event_to
send_event_to-Extends r t content to s =
    if_rule (λ (x : Session × Outcome). Extends s x.0) s.ws_conn (call-Extends (send_event _) s)
      (refl, refl, [], append_nil s.calls)

join_the_lobby-Extends : (r : Remote) (s : Session) → Extends s (join_the_lobby r s).0
unfolding join_the_lobby
join_the_lobby-Extends r s =
    let event =
      send_event_to r.services r.codec r.decimal join_lobby (player (own_player s)) [] s in
    let sent = send_event_to-Extends r join_lobby (player (own_player s)) [] s in
    let answered =
      Extends-trans s event.0 (call read_event event.0) sent (call-Extends read_event event.0) in
    outcome_rule (λ (x : Session × Outcome). Extends s x.0) event.1
      (option_rule (λ (x : Session × Outcome). Extends s x.0) (r.read_lobby event.0.calls) answered
        (λ answer e. answered))
      sent sent

init_observer-Extends :
    {P : Type 0} (r : Remote) (c : Client P) → Extends c.session (init_observer r c).0.session
unfolding init_observer
init_observer-Extends {P} r c =
    let joined = join_the_lobby-Extends r c.session in
    if_rule (λ (x : Client P × Outcome). Extends c.session x.0.session) c.selected
      (refl, refl, [], append_nil c.session.calls)
      (outcome_rule (λ (x : Client P × Outcome). Extends c.session x.0.session)
        (join_the_lobby r c.session).1 joined joined joined)

pub handle_get_character_inventory-Guarded :
    {P : Type 0} (r : Remote) (req : List ℕ) (c : Client P)
    → Guarded r.services c.session
    → (Q r) (handle_get_character_inventory r req c)
unfolding handle_get_character_inventory
handle_get_character_inventory-Guarded r req c v =
    branch_rule (Q r) (eqb c.session.user_id 0) (λ e. v)
      (λ e.
        let started = init_observer-Extends r c in
        let n = user_ne r c.session e in
        let kept = Extends-Guarded r.services c.session (init_observer r c).0.session n started v in
        outcome_rule (Q r) (init_observer r c).1
          (fetch_inventory-Guarded r req (init_observer r c).0 kept (λ z. n (sym started.0 ∙ z)))
          kept kept)
