-- ===== src/Legacy.antt =====
-- ChattingServer_v1.0: the first version of the chat, whose server keeps a pool of client objects.
pub mod User
pub mod Slots
pub mod Manager
pub mod Packets
pub mod Cast
pub mod Process
pub mod Threads
pub mod Completed
pub mod RoomCast
pub mod Exits
pub mod Client
pub mod Names
pub mod Messages
pub mod Lines
pub mod Typing
pub mod Screen
pub mod Rows
pub mod Heard
pub mod Talk
