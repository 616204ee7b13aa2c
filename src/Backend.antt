-- ===== src/Backend.antt =====
-- internal/backend: the program beside the game client.
pub mod HostManager
pub mod Requests
pub mod Session
pub mod Messages
pub mod LobbyEvents
pub mod Client
pub mod Handlers
pub mod Dispatcher
pub mod Proxy
pub mod RelayProxy
pub mod IpRing
pub mod Tests
pub mod Direct
