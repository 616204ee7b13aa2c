-- ===== src/Backend/LobbyEvents/Tests.antt =====
-- A client in a lobby.
use gladiator.Prelude.{
  Option, ℕ, ◌≡◌, ◌%◌, ◌+◌, refl, none, some, List, [], ◌∷◌, ◌++◌, true, false, codes,
}
use gladiator.Prelude.Buffers.{u8, bytes_32}
use gladiator.Wire.{Codec, Player}
use gladiator.Backend.Session.{Session, Services, CharacterAnswer}
use gladiator.Backend.Messages.{
  append_character_to_lobby, remove_character_from_lobby, new_global_message, new_lobby_message,
  set_channel_name,
}
use gladiator.Backend.Messages.Layout.{message_layouts, header, unused, terminated_by_null}
use gladiator.Backend.IpRing.{next_addr, new_ip_ring}
use gladiator.Backend.IpRing.Bounds.{after, address_of, next_addr_lem}
use gladiator.Backend.LobbyEvents.Presence.{
  handle_events, handle_events-refines, is_present, apply_changes,
}

abbrev pub services : Services
services = record {
  authenticates = λ calls name password. some (record { user_id = 7; username = name });
  character = λ calls id name. CharacterAnswer.not_found;
  accepts = λ calls c. true;
  write = λ sent data_. true;
}

-- A payload is the identifier of a player.
abbrev named : List ℕ → Player
named payload = record {
  user_id = 0;
  username = payload;
  character_id = 0;
  class_type = 0;
  ip_address = [];
}

abbrev player_of : ℕ → Player
player_of id = record (named []) { user_id = id }

abbrev pub identifiers : List ℕ → Option Player
identifiers [] = none
identifiers (id ∷ rest) = some (player_of id)

abbrev pub codec : Codec
codec = record {
  marshal = λ m. [];
  unmarshal = λ p. none;
  unmarshal_user = λ p. none;
  unmarshal_player = identifiers;
  unmarshal_players = λ p. none;
  unmarshal_chat = λ p. none;
}

abbrev pub user : ℕ → Session
user id = record {
  user_id = id;
  username = [];
  character_id = 0;
  class_type = 0;
  sent = [];
  calls = [];
  ws_conn = false;
}

-- The players 2 and 3 join, the first leaves.
abbrev payloads : List (List ℕ)
payloads = (4 ∷ 2 ∷ []) ∷ (4 ∷ 3 ∷ []) ∷ (6 ∷ 2 ∷ []) ∷ []

handle_events-refines_example :
    let (s', users') = handle_events services codec payloads (user 1, []) in
    (s'.user_id ≡ 1)
    × ((k : ℕ) → is_present users' k ≡ apply_changes 1 codec payloads (is_present []) k)
handle_events-refines_example = handle_events-refines services codec payloads (user 1) []

stays : is_present (handle_events services codec payloads (user 1, [])).1 3 ≡ true
unfolding handle_events
stays = refl

leaves : is_present (handle_events services codec payloads (user 1, [])).1 2 ≡ false
unfolding handle_events
leaves = refl

message_layouts_example :
    (append_character_to_lobby (codes "ab") 3 258
      ≡ header 2 (u8 3) (bytes_32 258) (terminated_by_null (codes "ab")))
    × (remove_character_from_lobby (codes "ab")
        ≡ header 3 0 unused (terminated_by_null (codes "ab")))
    × (new_global_message (codes "ab") (codes "c")
        ≡ header 4 0 unused (terminated_by_null (codes "ab") ++ terminated_by_null (codes "c")))
    × (new_lobby_message (codes "ab") (codes "c")
        ≡ header 5 0 unused (terminated_by_null (codes "ab") ++ terminated_by_null (codes "c")))
    × (set_channel_name (codes "ab") ≡ header 7 0 unused (0 ∷ terminated_by_null (codes "ab")))
message_layouts_example = message_layouts (codes "ab") (codes "c") 3 258

next_addr_lem_example :
    (next_addr (λ n. n ∷ []) (after (λ n. n ∷ []) 4 (some (new_ip_ring false)))).1
    ≡ some (address_of (λ n. n ∷ []) false (2 + 4 % 3))
next_addr_lem_example = next_addr_lem (λ n. n ∷ []) false 4
