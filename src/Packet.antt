-- ===== src/Packet.antt =====
-- internal/backend/packet: the frames and fields of the game's protocol.
pub mod Encoder
pub mod Reader
pub mod Reads
pub mod Split
pub mod Framing
pub mod Tests
