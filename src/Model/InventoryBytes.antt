-- ===== src/Model/InventoryBytes.antt =====
-- Reading an inventory and writing it again.
use mathlib.Core.Option
use gladiator.Prelude.{ℕ, ◌≤◌, ◌≡◌, refl, some, List, ◌++◌, arith, length, get_or, take}
use gladiator.Prelude.Buffers.{make_bytes, tabulate, take-tabulate}
use gladiator.Model.Inventory.{
  CharacterInventory, empty_inventory, fill_backpack, new_character_inventory, inventory_to_bytes,
}

filled : List ℕ → CharacterInventory
filled buf = fill_backpack buf 6 0 (fill_backpack buf 63 0 empty_inventory)

filled-bytes :
    (buf : List ℕ)
    → inventory_to_bytes (filled buf) ≡ tabulate 189 (λ i. get_or buf i 0) ++ make_bytes 18
unfolding filled fill_backpack inventory_to_bytes tabulate
filled-bytes buf = refl

new_filled : (buf : List ℕ) → 189 ≤ length buf → new_character_inventory buf ≡ some (filled buf)
unfolding new_character_inventory filled
new_filled buf enough = ground arith

-- An inventory of at least 189 bytes that is read and written again keeps the 189 bytes of the
-- backpack; the eighteen bytes of the belt come back as zeros, whatever they were.
pub inventory-read_write :
    (buf : List ℕ)
    → 189 ≤ length buf
    → Option.map inventory_to_bytes (new_character_inventory buf)
      ≡ some (take 189 buf ++ make_bytes 18)
inventory-read_write buf enough =
    rw (new_filled buf enough, filled-bytes buf, take-tabulate 189 buf enough)
