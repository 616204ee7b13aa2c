-- ===== src/Model.antt =====
-- internal/model: the records that the game keeps and sends, and their bytes.
pub mod Character
pub mod CharacterBytes
pub mod Inventory
pub mod InventoryBytes
pub mod Lobby
pub mod Tests
