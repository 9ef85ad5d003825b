-- ===== src/Client.antt =====
-- ChattingServer_v1.1/ChattingClient: what a user types, the screens, and how packets from the server
-- change the client's state.
pub mod Commands
pub mod Lobby
pub mod Room
pub mod State
pub mod Threads
pub mod Displays
pub mod Exchange
pub mod Hazards
