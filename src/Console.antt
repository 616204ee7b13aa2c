-- ===== src/Console.antt =====
-- internal/console: the server that keeps the lobby, the rooms and the relay.
pub mod Relay
pub mod Multiplayer
