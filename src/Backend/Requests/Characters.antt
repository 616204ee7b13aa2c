-- ===== src/Backend/Requests/Characters.antt =====
-- internal/backend/command_{044,060,061,068,072,073,076,092,108}_*.go: the requests about characters,
-- and their `Parse`; `none` is an error.
use gladiator.Prelude.{
  ℕ, suc, Option, none, some, List, [], ◌∷◌, take, eqb, not, if◌then◌else◌, Text,
}
use gladiator.Prelude.Buffers.{index_byte}
use gladiator.Packet.Reader.{Read, ◌>>=◌, pure, read_string, read_n_bytes, read_rest_bytes}
use gladiator.Packet.Reads.{parsed}
use gladiator.Model.Character.{CharacterInfo, parse_character_info}

pub record UpdateCharacterInventoryRequestData : Type 0 where
  pub username : Text
  pub character_name : Text
  pub inventory : List ℕ

abbrev pub read_update_character_inventory : Read UpdateCharacterInventoryRequestData
read_update_character_inventory = do
  username ← read_string
  character_name ← read_string
  inventory ← read_n_bytes 207
  pure (record { username = username; character_name = character_name; inventory = inventory })

unfoldable pub parse_update_character_inventory :
    List ℕ → Option UpdateCharacterInventoryRequestData
parse_update_character_inventory = parsed read_update_character_inventory

-- `bytes.Count` of one byte.
unfoldable pub count : ℕ → List ℕ → ℕ
count c [] = 0
count c (b ∷ bs) = if eqb b c then suc (count c bs) else count c bs

-- `bytes.SplitN(r, []byte{0}, 2)[0]`
abbrev pub before_null : List ℕ → Text
before_null r = elim (index_byte 0 r) [ none ↦ r | some i ↦ take i r ]

unfoldable pub parse_get_characters : List ℕ → Option Text
unfolding count
parse_get_characters r = if not (eqb (count 0 r) 1) then none else some (before_null r)

pub record DeleteCharacterRequestData : Type 0 where
  pub username : Text
  pub character_name : Text

abbrev pub read_delete_character : Read DeleteCharacterRequestData
read_delete_character = do
  username ← read_string
  character_name ← read_string
  pure (record { username = username; character_name = character_name })

unfoldable pub parse_delete_character : List ℕ → Option DeleteCharacterRequestData
parse_delete_character = parsed read_delete_character

pub record GetCharacterInventoryRequestData : Type 0 where
  pub username : Text
  pub character_name : Text
  pub unknown : List ℕ

abbrev pub read_get_character_inventory : Read GetCharacterInventoryRequestData
read_get_character_inventory = do
  username ← read_string
  character_name ← read_string
  unknown ← read_rest_bytes
  pure (record { username = username; character_name = character_name; unknown = unknown })

unfoldable pub parse_get_character_inventory : List ℕ → Option GetCharacterInventoryRequestData
parse_get_character_inventory = parsed read_get_character_inventory

pub record GetCharacterSpellsRequestData : Type 0 where
  pub username : Text
  pub character_name : Text

abbrev pub read_get_character_spells : Read GetCharacterSpellsRequestData
read_get_character_spells = do
  username ← read_string
  character_name ← read_string
  pure (record { username = username; character_name = character_name })

unfoldable pub parse_get_character_spells : List ℕ → Option GetCharacterSpellsRequestData
parse_get_character_spells = parsed read_get_character_spells

pub record UpdateCharacterSpellsRequestData : Type 0 where
  pub username : Text
  pub character_name : Text
  pub spells : List ℕ

abbrev pub read_update_character_spells : Read UpdateCharacterSpellsRequestData
read_update_character_spells = do
  username ← read_string
  character_name ← read_string
  spells ← read_n_bytes 43
  pure (record { username = username; character_name = character_name; spells = spells })

unfoldable pub parse_update_character_spells : List ℕ → Option UpdateCharacterSpellsRequestData
parse_update_character_spells = parsed read_update_character_spells

pub record SelectCharacterRequestData : Type 0 where
  pub username : Text
  pub character_name : Text

abbrev pub read_select_character : Read SelectCharacterRequestData
read_select_character = do
  username ← read_string
  character_name ← read_string
  pure (record { username = username; character_name = character_name })

unfoldable pub parse_select_character : List ℕ → Option SelectCharacterRequestData
parse_select_character = parsed read_select_character

-- `ParseCharacterInfo` panics on data that is too short, here `none`.
abbrev pub read_info : Option CharacterInfo → Read CharacterInfo
read_info none r = none
read_info (some info) r = some (info, r)

pub record CreateCharacterRequestData : Type 0 where
  pub info : List ℕ
  pub parsed_info : CharacterInfo
  pub username : Text
  pub character_name : Text

abbrev pub read_create_character : Read CreateCharacterRequestData
read_create_character = do
  info ← read_n_bytes 56
  parsed_info ← read_info (parse_character_info info)
  username ← read_string
  character_name ← read_string
  pure (record {
    info = info;
    parsed_info = parsed_info;
    username = username;
    character_name = character_name;
  })

unfoldable pub parse_create_character : List ℕ → Option CreateCharacterRequestData
parse_create_character = parsed read_create_character

pub record UpdateCharacterStatsRequestData : Type 0 where
  pub info : List ℕ
  pub parsed_info : CharacterInfo
  pub username : Text
  pub character : Text
  pub unknown : List ℕ

abbrev pub read_update_character_stats : Read UpdateCharacterStatsRequestData
read_update_character_stats = do
  info ← read_n_bytes 56
  parsed_info ← read_info (parse_character_info info)
  username ← read_string
  character ← read_string
  unknown ← read_rest_bytes
  pure (record {
    info = info;
    parsed_info = parsed_info;
    username = username;
    character = character;
    unknown = unknown;
  })

unfoldable pub parse_update_character_stats : List ℕ → Option UpdateCharacterStatsRequestData
parse_update_character_stats = parsed read_update_character_stats
