-- ===== src/Model/Character.antt =====
-- internal/model/character_info.go. The fields keep the widths of the source: `IsCharacterInfo`.
use gladiator.Prelude.{
  ℕ, ◌/◌, ◌<◌, Bool, not, eqb, Option, none, some, List, length, get_or, if◌then◌else◌, ltb,
}
use gladiator.Prelude.Buffers.{
  u8, uint16_at, uint32_at, make_bytes, set, copy_at, bytes_16, bytes_32,
}

pub record CharacterInfo : Type 0 where
  pub strength : ℕ
  pub agility : ℕ
  pub wisdom : ℕ
  pub constitution : ℕ
  pub health_points : ℕ
  pub magic_points : ℕ
  pub experience_points : ℕ
  pub money : ℕ
  pub score_points : ℕ
  pub class_type : ℕ
  pub skin_carnation : ℕ
  pub hair_style : ℕ
  pub light_armour_legs : ℕ
  pub light_armour_torso : ℕ
  pub light_armour_hands : ℕ
  pub light_armour_boots : ℕ
  pub full_armour : ℕ
  pub armour_emblem : ℕ
  pub helmet : ℕ
  pub secondary_weapon : ℕ
  pub primary_weapon : ℕ
  pub shield : ℕ
  pub unknown_equipment_slot : ℕ
  pub gender : ℕ
  pub level : ℕ
  pub edged_weapons : ℕ
  pub blunted_weapons : ℕ
  pub archery : ℕ
  pub polearms : ℕ
  pub wizardry : ℕ
  pub holy_magic : ℕ
  pub dark_magic : ℕ
  pub bonus_points : ℕ

pub record IsCharacterInfo (c : CharacterInfo) : Type 0 where
  pub strength_width : c.strength < 65536
  pub agility_width : c.agility < 65536
  pub wisdom_width : c.wisdom < 65536
  pub constitution_width : c.constitution < 65536
  pub health_points_width : c.health_points < 65536
  pub magic_points_width : c.magic_points < 65536
  pub experience_points_width : c.experience_points < 4294967296
  pub money_width : c.money < 4294967296
  pub score_points_width : c.score_points < 4294967296
  pub class_type_width : c.class_type < 256
  pub skin_carnation_width : c.skin_carnation < 256
  pub hair_style_width : c.hair_style < 256
  pub light_armour_legs_width : c.light_armour_legs < 256
  pub light_armour_torso_width : c.light_armour_torso < 256
  pub light_armour_hands_width : c.light_armour_hands < 256
  pub light_armour_boots_width : c.light_armour_boots < 256
  pub full_armour_width : c.full_armour < 256
  pub armour_emblem_width : c.armour_emblem < 256
  pub helmet_width : c.helmet < 256
  pub secondary_weapon_width : c.secondary_weapon < 256
  pub primary_weapon_width : c.primary_weapon < 256
  pub shield_width : c.shield < 256
  pub unknown_equipment_slot_width : c.unknown_equipment_slot < 256
  pub gender_width : c.gender < 256
  pub level_width : c.level < 256
  pub edged_weapons_width : c.edged_weapons < 65536
  pub blunted_weapons_width : c.blunted_weapons < 65536
  pub archery_width : c.archery < 65536
  pub polearms_width : c.polearms < 65536
  pub wizardry_width : c.wizardry < 65536
  pub holy_magic_width : c.holy_magic < 65536
  pub dark_magic_width : c.dark_magic < 65536
  pub bonus_points_width : c.bonus_points < 65536

abbrev pub read_fields : List ℕ → CharacterInfo
read_fields buf = record {
  strength = uint16_at buf 0;
  agility = uint16_at buf 2;
  wisdom = uint16_at buf 4;
  constitution = uint16_at buf 6;
  health_points = uint16_at buf 8;
  magic_points = uint16_at buf 10;
  experience_points = uint32_at buf 12;
  money = uint32_at buf 16;
  score_points = uint32_at buf 20;
  class_type = get_or buf 24 0;
  skin_carnation = get_or buf 25 0;
  hair_style = get_or buf 26 0;
  light_armour_legs = get_or buf 27 0;
  light_armour_torso = get_or buf 28 0;
  light_armour_hands = get_or buf 29 0;
  light_armour_boots = get_or buf 30 0;
  full_armour = get_or buf 31 0;
  armour_emblem = get_or buf 32 0;
  helmet = get_or buf 33 0;
  secondary_weapon = get_or buf 34 0;
  primary_weapon = get_or buf 35 0;
  shield = get_or buf 36 0;
  unknown_equipment_slot = get_or buf 37 0;
  gender = get_or buf 38 0;
  level = get_or buf 39 0;
  edged_weapons = uint16_at buf 40;
  blunted_weapons = uint16_at buf 42;
  archery = uint16_at buf 44;
  polearms = uint16_at buf 46;
  wizardry = uint16_at buf 48;
  holy_magic = uint16_at buf 50;
  dark_magic = uint16_at buf 52;
  bonus_points = uint16_at buf 54;
}

-- A buffer of fewer than 56 bytes panics: `none`.
unfoldable pub parse_character_info : List ℕ → Option CharacterInfo
parse_character_info buf = if ltb (length buf) 56 then none else some (read_fields buf)

-- `PutUint16(buf[i:i+2], v)` and `PutUint32(buf[i:i+4], v)`
abbrev put_uint16 : ℕ → ℕ → List ℕ → List ℕ
put_uint16 i v buf = copy_at i (bytes_16 v) buf

abbrev put_uint32 : ℕ → ℕ → List ℕ → List ℕ
put_uint32 i v buf = copy_at i (bytes_32 v) buf

unfoldable pub to_bytes : CharacterInfo → List ℕ
to_bytes c =
    let buf = make_bytes 56 in
    let buf = put_uint16 0 c.strength buf in
    let buf = put_uint16 2 c.agility buf in
    let buf = put_uint16 4 c.wisdom buf in
    let buf = put_uint16 6 c.constitution buf in
    let buf = put_uint16 8 c.health_points buf in
    let buf = put_uint16 10 c.magic_points buf in
    let buf = put_uint32 12 c.experience_points buf in
    let buf = put_uint32 16 c.money buf in
    let buf = put_uint32 20 c.score_points buf in
    let buf = set buf 24 c.class_type in
    let buf = set buf 25 c.skin_carnation in
    let buf = set buf 26 c.hair_style in
    let buf = set buf 27 c.light_armour_legs in
    let buf = set buf 28 c.light_armour_torso in
    let buf = set buf 29 c.light_armour_hands in
    let buf = set buf 30 c.light_armour_boots in
    let buf = set buf 31 c.full_armour in
    let buf = set buf 32 c.armour_emblem in
    let buf = set buf 33 c.helmet in
    let buf = set buf 34 c.secondary_weapon in
    let buf = set buf 35 c.primary_weapon in
    let buf = set buf 36 c.shield in
    let buf = set buf 37 c.unknown_equipment_slot in
    let buf = set buf 38 c.gender in
    let buf = set buf 39 c.level in
    let buf = put_uint16 40 c.edged_weapons buf in
    let buf = put_uint16 42 c.blunted_weapons buf in
    let buf = put_uint16 44 c.archery buf in
    let buf = put_uint16 46 c.polearms buf in
    let buf = put_uint16 48 c.wizardry buf in
    let buf = put_uint16 50 c.holy_magic buf in
    let buf = put_uint16 52 c.dark_magic buf in let buf = put_uint16 54 c.bonus_points buf in buf

-- The low byte of a skill word is its level, the high byte counts the kills.
unfoldable pub edged_weapons_level : CharacterInfo → ℕ
edged_weapons_level c = u8 c.edged_weapons

unfoldable pub edged_weapons_kills : CharacterInfo → ℕ
edged_weapons_kills c = u8 (c.edged_weapons / 256)

unfoldable pub blunted_weapons_level : CharacterInfo → ℕ
blunted_weapons_level c = u8 c.blunted_weapons

unfoldable pub blunted_weapons_kills : CharacterInfo → ℕ
blunted_weapons_kills c = u8 (c.blunted_weapons / 256)

unfoldable pub archery_level : CharacterInfo → ℕ
archery_level c = u8 c.archery

unfoldable pub archery_kills : CharacterInfo → ℕ
archery_kills c = u8 (c.archery / 256)

unfoldable pub polearms_level : CharacterInfo → ℕ
polearms_level c = u8 c.polearms

unfoldable pub polearms_kills : CharacterInfo → ℕ
polearms_kills c = u8 (c.polearms / 256)

unfoldable pub wizardry_level : CharacterInfo → ℕ
wizardry_level c = u8 c.wizardry

unfoldable pub wizardry_kills : CharacterInfo → ℕ
wizardry_kills c = u8 (c.wizardry / 256)

unfoldable pub is_equipped : ℕ → Bool
is_equipped slot = not (eqb slot 100)
