-- ===== src/Server.antt =====
-- ChattingServer_v1.1/ChattingServer: the server's state, its managers, the packet handlers and the
-- loops of its threads.
pub mod World
pub mod Users
pub mod Rooms
pub mod Logic
pub mod Threads
pub mod Cast
pub mod Connect
pub mod Delivery
pub mod Reception
pub mod Shutdown
pub mod Hazards
pub mod Races
pub mod Invariant
