-- ===== src/Backend/Handlers.antt =====
-- internal/backend/command_*.go: what the handlers of requests do.
pub mod Account
pub mod Characters
pub mod Login
pub mod Lobby
pub mod Games
pub mod Replies
pub mod Tests
