-- ===== src/Model/Tests.antt =====
-- A knight and an inventory.
use mathlib.Core.Option
use gladiator.Prelude.{ℕ, zero, suc, ◌<◌, ◌≡◌, some, List, ◌++◌, take, replicate, arith}
use gladiator.Prelude.Buffers.{make_bytes, AllBytes}
use gladiator.Model.Character.{CharacterInfo, IsCharacterInfo, parse_character_info, to_bytes}
use gladiator.Model.CharacterBytes.{parse-to_bytes, to_bytes-parse}
use gladiator.Model.Inventory.{new_character_inventory, inventory_to_bytes}
use gladiator.Model.InventoryBytes.{inventory-read_write}

abbrev pub knight : CharacterInfo
knight = record {
  strength = 20;
  agility = 15;
  wisdom = 11;
  constitution = 21;
  health_points = 300;
  magic_points = 40;
  experience_points = 70000;
  money = 300;
  score_points = 5;
  class_type = 0;
  skin_carnation = 102;
  hair_style = 112;
  light_armour_legs = 2;
  light_armour_torso = 7;
  light_armour_hands = 100;
  light_armour_boots = 12;
  full_armour = 100;
  armour_emblem = 100;
  helmet = 100;
  secondary_weapon = 100;
  primary_weapon = 42;
  shield = 100;
  unknown_equipment_slot = 100;
  gender = 0;
  level = 1;
  edged_weapons = 258;
  blunted_weapons = 2;
  archery = 1;
  polearms = 1;
  wizardry = 1;
  holy_magic = 0;
  dark_magic = 0;
  bonus_points = 9;
}

pub knight-IsCharacterInfo : IsCharacterInfo knight
knight-IsCharacterInfo = record {
  strength_width = omega arith;
  agility_width = omega arith;
  wisdom_width = omega arith;
  constitution_width = omega arith;
  health_points_width = omega arith;
  magic_points_width = omega arith;
  experience_points_width = omega arith;
  money_width = omega arith;
  score_points_width = omega arith;
  class_type_width = omega arith;
  skin_carnation_width = omega arith;
  hair_style_width = omega arith;
  light_armour_legs_width = omega arith;
  light_armour_torso_width = omega arith;
  light_armour_hands_width = omega arith;
  light_armour_boots_width = omega arith;
  full_armour_width = omega arith;
  armour_emblem_width = omega arith;
  helmet_width = omega arith;
  secondary_weapon_width = omega arith;
  primary_weapon_width = omega arith;
  shield_width = omega arith;
  unknown_equipment_slot_width = omega arith;
  gender_width = omega arith;
  level_width = omega arith;
  edged_weapons_width = omega arith;
  blunted_weapons_width = omega arith;
  archery_width = omega arith;
  polearms_width = omega arith;
  wizardry_width = omega arith;
  holy_magic_width = omega arith;
  dark_magic_width = omega arith;
  bonus_points_width = omega arith;
}

parse-to_bytes_example : parse_character_info (to_bytes knight) ≡ some knight
parse-to_bytes_example = parse-to_bytes knight knight-IsCharacterInfo

-- The bytes 1, 1, and so on, one more than a character takes.
abbrev ones : List ℕ
ones = replicate 57 1

replicate-AllBytes : (n b : ℕ) → b < 256 → AllBytes (replicate n b)
replicate-AllBytes zero b h = tt
replicate-AllBytes (suc n) b h = (h, replicate-AllBytes n b h)

ones-AllBytes : AllBytes ones
ones-AllBytes = replicate-AllBytes 57 1 (omega arith)

to_bytes-parse_example : Option.map to_bytes (parse_character_info ones) ≡ some (take 56 ones)
to_bytes-parse_example = to_bytes-parse ones (omega arith) ones-AllBytes

abbrev full_inventory : List ℕ
full_inventory = replicate 207 9

inventory-read_write_example :
    Option.map inventory_to_bytes (new_character_inventory full_inventory)
    ≡ some (take 189 full_inventory ++ make_bytes 18)
inventory-read_write_example = inventory-read_write full_inventory (omega arith)
