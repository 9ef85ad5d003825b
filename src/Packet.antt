-- ===== src/Packet.antt =====
-- ChattingServer_v1.1/NetworkLib, the packets: `encode` and `decode` of each class, and the factory
-- that makes a packet out of received bytes.
pub mod Types
pub mod Wire
pub mod Encoded
pub mod Sendable
pub mod Decoded
pub mod Bounds
pub mod Factory
unfoldable pub use Types.*
unfoldable pub use Wire.*
