-- ===== src/Console/Multiplayer.antt =====
-- internal/console/multiplayer.go, session.go and lobby.go: presence, game rooms and matchmaking.
pub mod State
pub mod Rooms
pub mod Sessions
pub mod Quiet
pub mod Invariant
pub mod Host
pub mod Preserved
pub mod Leaving
pub mod Steps
pub mod Effects
pub mod Disconnect
pub mod Tests
