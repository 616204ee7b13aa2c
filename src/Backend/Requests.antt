-- ===== src/Backend/Requests.antt =====
-- internal/backend/command_*.go: what the game client asks for.
pub mod Account
pub mod Characters
pub mod Games
pub mod Bytes
pub mod GameBytes
