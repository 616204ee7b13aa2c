-- ===== src/Backend/Handlers/Lobby.antt =====
-- internal/backend/command_{011,012,014,021,060,068,070}_*.go: the handlers about channels, chat, the characters of a
-- user and the ranking.
use gladiator.Prelude.{
  ℕ, suc, ◌&&◌, ◌||◌, not, none, some, List, [], ◌∷◌, ◌++◌, Text, text_Eq, codes, length,
  if◌then◌else◌, eqb, ltb, ◌==◌, Option,
}
use gladiator.Prelude.Buffers.{bytes_32, u32}
use gladiator.Packet.Encoder.{
  Code, receive_message, ping_clock_time, get_characters, get_character_inventory, show_ranking,
}
use gladiator.Packet.Encoder
use gladiator.Wire.{Player}
use gladiator.Model.Lobby.{ranking_to_bytes}
use gladiator.Backend.Session
use gladiator.Backend.Session.{
  Session, Outcome, done, error, panic, found, not_found, failed, call, send_to_game,
  send_chat_message, list_characters, get_ranking,
}
use gladiator.Backend.Client.{Remote, Client, with_session, init_observer}
use gladiator.Backend.Messages.{append_character_to_lobby, new_global_message, set_channel_name}
use gladiator.Backend.Requests.Characters.{parse_get_character_inventory}
use gladiator.Backend.Requests.Games.{parse_select_channel, parse_send_lobby_message, parse_ranking}

-- `database.Channels`
abbrev pub channels : List Text
channels = codes "DISPEL" ∷ []

abbrev pub null_terminated : List Text → List ℕ
null_terminated [] = []
null_terminated (t ∷ texts) = (t ++ (0 ∷ [])) ++ null_terminated texts

-- A request that does not parse has two empty names.
abbrev pub names_or_empty : Option (Text × Text) → Text × Text
names_or_empty none = ([], [])
names_or_empty (some names) = names

abbrev pub characters_reply : List Text → List ℕ
characters_reply [] = 0 ∷ 0 ∷ 0 ∷ 0 ∷ []
characters_reply (t ∷ texts) =
    1 ∷ 0 ∷ 0 ∷ 0 ∷ (bytes_32 (length (t ∷ texts)) ++ null_terminated (t ∷ texts))

-- The lobby's users, one after another from the index `idx`; a failed write is ignored.
unfoldable pub show_users : Remote → List Player → ℕ → Session → Session
unfolding send_to_game append_character_to_lobby
show_users r [] idx s = s
show_users r (user ∷ users) idx s =
    show_users r users (suc idx)
      (send_to_game r.services receive_message
        (append_character_to_lobby user.username user.class_type (u32 idx)) s).0

-- The message of a failed fetch.
abbrev pub fetch_failed : Remote → Session → Session
fetch_failed r s =
    (send_to_game r.services receive_message
      (new_global_message (codes "system")
        (codes "Inventory fetch failed, please try sign-in again"))
      s).0

module _ {P : Type 0} (r : Remote) where
  unfoldable pub handle_list_channels : List ℕ → Client P → Client P × Outcome
  unfolding send_to_game
  handle_list_channels req c =
      with_session c
        (send_to_game r.services Encoder.list_channels (null_terminated channels) c.session)

  unfoldable pub handle_select_channel : List ℕ → Client P → Client P × Outcome
  unfolding send_to_game show_users set_channel_name
  handle_select_channel req c =
      let (server_name, channel_name) = names_or_empty (parse_select_channel req) in
      let (s, sent) =
        send_to_game r.services receive_message (set_channel_name channel_name) c.session in
      elim sent [
        | error ↦ (record c { session = s }, error)
        | panic ↦ (record c { session = s }, panic)
        | done ↦ (
          record c {
            session =
                if (server_name == codes "DISPEL") && (channel_name == codes "DISPEL")
                then show_users r c.lobby_users 0 s
                else s;
          },
          done,
        )
      ]

  unfoldable pub handle_send_lobby_message : List ℕ → Client P → Client P × Outcome
  unfolding send_chat_message
  handle_send_lobby_message req c = elim (parse_send_lobby_message req) [
    | none ↦ (c, error)
    | some message ↦
        let (s, sent) = send_chat_message r.services r.codec r.decimal message c.session in
        let sent_by : Client P × Outcome = elim sent [
          | done ↦ (record c { session = s }, done)
          | error ↦ (record c { session = s }, done)
          | panic ↦ (record c { session = s }, panic)
        ] in
        if eqb (length message) 0 || ltb 87 (length message) then (c, done) else sent_by
  ]

  unfoldable pub handle_ping : List ℕ → Client P → Client P × Outcome
  unfolding send_to_game
  handle_ping req c =
      with_session c (send_to_game r.services ping_clock_time (1 ∷ 0 ∷ 0 ∷ 0 ∷ []) c.session)

  -- The request is not read.
  unfoldable pub handle_get_characters : List ℕ → Client P → Client P × Outcome
  unfolding send_to_game
  handle_get_characters req c =
      let asked = call (list_characters c.session.user_id) c.session in
      if eqb c.session.user_id 0
      then (c, error)
      else elim (r.list_characters c.session.calls c.session.user_id) [
        | none ↦ (record c { session = asked }, error)
        | some names ↦
            with_session c (send_to_game r.services get_characters (characters_reply names) asked)
      ]

  -- The handler behind `InitObserver`.
  unfoldable pub fetch_inventory : List ℕ → Client P → Client P × Outcome
  unfolding send_to_game new_global_message
  fetch_inventory req c = elim (parse_get_character_inventory req) [
    | none ↦ (c, done)
    | some d ↦
        let s = c.session in
        let asked = call (Session.get_character s.user_id d.character_name) s in
        elim (r.services.character s.calls s.user_id d.character_name) [
          | not_found ↦ (record c { session = fetch_failed r asked }, done)
          | failed ↦ (record c { session = fetch_failed r asked }, error)
          | found character ↦
              if not (eqb (length character.inventory) 207)
              then (record c { session = asked }, done)
              else with_session c
                  (send_to_game r.services get_character_inventory character.inventory asked)
        ]
  ]

  unfoldable pub handle_get_character_inventory : List ℕ → Client P → Client P × Outcome
  unfolding init_observer fetch_inventory
  handle_get_character_inventory req c =
      let (c', started) = init_observer r c in
      if eqb c.session.user_id 0 then (c, error) else elim started [
        | error ↦ (c', error)
        | panic ↦ (c', panic)
        | done ↦ fetch_inventory req c'
      ]

  unfoldable pub handle_show_ranking : List ℕ → Client P → Client P × Outcome
  unfolding send_to_game ranking_to_bytes
  handle_show_ranking req c =
      if eqb c.session.user_id 0 then (c, error) else elim (parse_ranking req) [
        | none ↦ (c, done)
        | some d ↦
            let s = c.session in
            let ask = get_ranking s.user_id d.character_name d.class_type d.offset in
            elim (r.get_ranking s.calls ask) [
              | none ↦ (record c { session = call ask s }, error)
              | some ranking ↦
                  with_session c
                    (send_to_game r.services show_ranking (ranking_to_bytes ranking) (call ask s))
            ]
      ]
