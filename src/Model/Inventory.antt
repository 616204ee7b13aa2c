-- ===== src/Model/Inventory.antt =====
-- internal/model/character_inventory.go. `Print` only writes to the console and is left out.
use gladiator.Prelude.{
  ℕ, zero, suc, ◌+◌, ◌*◌, Option, none, some, List, [], ◌∷◌, length, get_or, replicate,
  if◌then◌else◌, ltb,
}
use gladiator.Prelude.Buffers.{make_bytes, copy_at}

pub record InventoryItem : Type 0 where
  pub type_id : ℕ
  pub item_id : ℕ
  pub unknown : ℕ

pub record CharacterInventory : Type 0 where
  pub backpack : List InventoryItem
  pub belt : List InventoryItem

abbrev pub no_item : InventoryItem
no_item = record { type_id = 0; item_id = 0; unknown = 0 }

abbrev pub backpack_size : ℕ
backpack_size = 63

abbrev pub belt_size : ℕ
belt_size = 6

abbrev pub empty_inventory : CharacterInventory
empty_inventory = record {
  backpack = replicate backpack_size no_item;
  belt = replicate belt_size no_item;
}

abbrev pub item_at : List ℕ → ℕ → InventoryItem
item_at buf i = record {
  type_id = get_or buf (0 + i * 3) 0;
  item_id = get_or buf (1 + i * 3) 0;
  unknown = get_or buf (2 + i * 3) 0;
}

abbrev pub set_item : List InventoryItem → ℕ → InventoryItem → List InventoryItem
set_item [] i v = []
set_item (x ∷ xs) zero v = v ∷ xs
set_item (x ∷ xs) (suc i) v = x ∷ set_item xs i v

-- `for i := first; rounds > 0; i++ { inv.Backpack[i] = item i }`. Both loops of the source write to
-- the backpack.
unfoldable pub fill_backpack : List ℕ → ℕ → ℕ → CharacterInventory → CharacterInventory
fill_backpack buf zero i inv = inv
fill_backpack buf (suc rounds) i inv =
    fill_backpack buf rounds (suc i)
      (record inv { backpack = set_item inv.backpack i (item_at buf i) })

-- A buffer of fewer than 189 bytes panics: `none`.
unfoldable pub new_character_inventory : List ℕ → Option CharacterInventory
unfolding fill_backpack
new_character_inventory buf =
    if ltb (length buf) 189
    then none
    else (let inv = fill_backpack buf 63 0 empty_inventory in some (fill_backpack buf 6 0 inv))

-- The loops of `ToBytes`: three bytes for each item, from an offset on.
unfoldable pub put_items : List InventoryItem → ℕ → ℕ → List ℕ → List ℕ
put_items [] offset i out = out
put_items (item ∷ items) offset i out =
    put_items items offset (suc i)
      (copy_at (offset + i * 3) (item.type_id ∷ item.item_id ∷ item.unknown ∷ []) out)

unfoldable pub inventory_to_bytes : CharacterInventory → List ℕ
unfolding put_items
inventory_to_bytes inv = put_items inv.belt 189 0 (put_items inv.backpack 0 0 (make_bytes 207))
