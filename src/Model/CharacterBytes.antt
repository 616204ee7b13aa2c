-- ===== src/Model/CharacterBytes.antt =====
-- A character's 56 bytes and its fields say the same.
use mathlib.Core.Option
use gladiator.Prelude.{
  ℕ, zero, suc, ◌+◌, ◌*◌, ◌/◌, ◌≤◌, ◌<◌, ◌≡◌, some, List, [], ◌∷◌, arith, length, get_or, take,
}
use gladiator.Prelude.Buffers.{u8, AllBytes, tabulate, take-tabulate, uint16_at, uint32_at}
use gladiator.Model.Character.{
  CharacterInfo, read_fields, IsCharacterInfo, parse_character_info, to_bytes, edged_weapons_level,
  edged_weapons_kills, blunted_weapons_level, blunted_weapons_kills, archery_level, archery_kills,
  polearms_level, polearms_kills, wizardry_level, wizardry_kills,
}

word_of_bytes : (v : ℕ) → v < 65536 → u8 v + 256 * u8 (v / 256) ≡ v
word_of_bytes v h = omega arith

dword_of_bytes :
    (v : ℕ)
    → v < 4294967296
    → u8 v + 256 * u8 (v / 256) + 65536 * u8 (v / 65536) + 16777216 * u8 (v / 16777216) ≡ v
dword_of_bytes v h = omega arith

-- A character with fields of the source's widths survives being written and read.
pub parse-to_bytes :
    (c : CharacterInfo) → IsCharacterInfo c → parse_character_info (to_bytes c) ≡ some c
unfolding parse_character_info to_bytes
parse-to_bytes c h = λ i. some (record {
  strength = word_of_bytes c.strength h.strength_width i;
  agility = word_of_bytes c.agility h.agility_width i;
  wisdom = word_of_bytes c.wisdom h.wisdom_width i;
  constitution = word_of_bytes c.constitution h.constitution_width i;
  health_points = word_of_bytes c.health_points h.health_points_width i;
  magic_points = word_of_bytes c.magic_points h.magic_points_width i;
  experience_points = dword_of_bytes c.experience_points h.experience_points_width i;
  money = dword_of_bytes c.money h.money_width i;
  score_points = dword_of_bytes c.score_points h.score_points_width i;
  class_type = c.class_type;
  skin_carnation = c.skin_carnation;
  hair_style = c.hair_style;
  light_armour_legs = c.light_armour_legs;
  light_armour_torso = c.light_armour_torso;
  light_armour_hands = c.light_armour_hands;
  light_armour_boots = c.light_armour_boots;
  full_armour = c.full_armour;
  armour_emblem = c.armour_emblem;
  helmet = c.helmet;
  secondary_weapon = c.secondary_weapon;
  primary_weapon = c.primary_weapon;
  shield = c.shield;
  unknown_equipment_slot = c.unknown_equipment_slot;
  gender = c.gender;
  level = c.level;
  edged_weapons = word_of_bytes c.edged_weapons h.edged_weapons_width i;
  blunted_weapons = word_of_bytes c.blunted_weapons h.blunted_weapons_width i;
  archery = word_of_bytes c.archery h.archery_width i;
  polearms = word_of_bytes c.polearms h.polearms_width i;
  wizardry = word_of_bytes c.wizardry h.wizardry_width i;
  holy_magic = word_of_bytes c.holy_magic h.holy_magic_width i;
  dark_magic = word_of_bytes c.dark_magic h.dark_magic_width i;
  bonus_points = word_of_bytes c.bonus_points h.bonus_points_width i;
})

byte_at : (bs : List ℕ) (i : ℕ) → AllBytes bs → get_or bs i 0 < 256
byte_at [] i h = omega arith
byte_at (b ∷ bs) zero h = h.0
byte_at (b ∷ bs) (suc i) h = byte_at bs i h.1

-- The bytes of the words that a buffer holds.
module _ (bs : List ℕ) (h : AllBytes bs) where
  abbrev word : ℕ → ℕ
  word i = uint16_at bs i

  abbrev dword : ℕ → ℕ
  dword i = uint32_at bs i

  word_low : (i : ℕ) → u8 (word i) ≡ get_or bs i 0
  word_low i = omega (arith, byte_at bs i h, byte_at bs (i + 1) h)

  word_high : (i : ℕ) → u8 (word i / 256) ≡ get_or bs (i + 1) 0
  word_high i = omega (arith, byte_at bs i h, byte_at bs (i + 1) h)

  dword_byte_0 : (i : ℕ) → u8 (dword i) ≡ get_or bs i 0
  dword_byte_0 i = omega (arith, byte_at bs i h)

  dword_byte_1 : (i : ℕ) → u8 (dword i / 256) ≡ get_or bs (i + 1) 0
  dword_byte_1 i = omega (arith, byte_at bs i h, byte_at bs (i + 1) h)

  dword_byte_2 : (i : ℕ) → u8 (dword i / 65536) ≡ get_or bs (i + 2) 0
  dword_byte_2 i = omega (arith, byte_at bs i h, byte_at bs (i + 1) h, byte_at bs (i + 2) h)

  dword_byte_3 : (i : ℕ) → u8 (dword i / 16777216) ≡ get_or bs (i + 3) 0
  dword_byte_3 i =
      omega
        (arith, byte_at bs i h, byte_at bs (i + 1) h, byte_at bs (i + 2) h, byte_at bs (i + 3) h)

  to_bytes-read_fields : to_bytes (read_fields bs) ≡ tabulate 56 (λ i. get_or bs i 0)
  unfolding to_bytes tabulate
  to_bytes-read_fields = λ i.
      word_low 0 i
      ∷ word_high 0 i
      ∷ word_low 2 i
      ∷ word_high 2 i
      ∷ word_low 4 i
      ∷ word_high 4 i
      ∷ word_low 6 i
      ∷ word_high 6 i
      ∷ word_low 8 i
      ∷ word_high 8 i
      ∷ word_low 10 i
      ∷ word_high 10 i
      ∷ dword_byte_0 12 i
      ∷ dword_byte_1 12 i
      ∷ dword_byte_2 12 i
      ∷ dword_byte_3 12 i
      ∷ dword_byte_0 16 i
      ∷ dword_byte_1 16 i
      ∷ dword_byte_2 16 i
      ∷ dword_byte_3 16 i
      ∷ dword_byte_0 20 i
      ∷ dword_byte_1 20 i
      ∷ dword_byte_2 20 i
      ∷ dword_byte_3 20 i
      ∷ get_or bs 24 0
      ∷ get_or bs 25 0
      ∷ get_or bs 26 0
      ∷ get_or bs 27 0
      ∷ get_or bs 28 0
      ∷ get_or bs 29 0
      ∷ get_or bs 30 0
      ∷ get_or bs 31 0
      ∷ get_or bs 32 0
      ∷ get_or bs 33 0
      ∷ get_or bs 34 0
      ∷ get_or bs 35 0
      ∷ get_or bs 36 0
      ∷ get_or bs 37 0
      ∷ get_or bs 38 0
      ∷ get_or bs 39 0
      ∷ word_low 40 i
      ∷ word_high 40 i
      ∷ word_low 42 i
      ∷ word_high 42 i
      ∷ word_low 44 i
      ∷ word_high 44 i
      ∷ word_low 46 i
      ∷ word_high 46 i
      ∷ word_low 48 i
      ∷ word_high 48 i
      ∷ word_low 50 i
      ∷ word_high 50 i
      ∷ word_low 52 i
      ∷ word_high 52 i
      ∷ word_low 54 i
      ∷ word_high 54 i
      ∷ []

-- The accessors of a character that was read give the two bytes of each skill's word.
pub skills_of_bytes :
    (bs : List ℕ)
    → AllBytes bs
    → let c = read_fields bs in
      (edged_weapons_level c ≡ get_or bs 40 0)
      × (edged_weapons_kills c ≡ get_or bs 41 0)
      × (blunted_weapons_level c ≡ get_or bs 42 0)
      × (blunted_weapons_kills c ≡ get_or bs 43 0)
      × (archery_level c ≡ get_or bs 44 0)
      × (archery_kills c ≡ get_or bs 45 0)
      × (polearms_level c ≡ get_or bs 46 0)
      × (polearms_kills c ≡ get_or bs 47 0)
      × (wizardry_level c ≡ get_or bs 48 0)
      × (wizardry_kills c ≡ get_or bs 49 0)
unfolding edged_weapons_level edged_weapons_kills blunted_weapons_level blunted_weapons_kills
    archery_level archery_kills polearms_level polearms_kills wizardry_level wizardry_kills
skills_of_bytes bs h = (
  word_low bs h 40,
  word_high bs h 40,
  word_low bs h 42,
  word_high bs h 42,
  word_low bs h 44,
  word_high bs h 44,
  word_low bs h 46,
  word_high bs h 46,
  word_low bs h 48,
  word_high bs h 48,
)

-- Writing what was read gives the first 56 bytes back.
pub to_bytes-parse :
    (bs : List ℕ)
    → 56 ≤ length bs
    → AllBytes bs
    → Option.map to_bytes (parse_character_info bs) ≡ some (take 56 bs)
unfolding parse_character_info
to_bytes-parse bs enough h = ground (arith, to_bytes-read_fields bs h, take-tabulate 56 bs enough)
