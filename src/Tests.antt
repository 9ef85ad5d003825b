-- ===== src/Tests.antt =====
-- Runs on concrete inputs: a small server, and packets on the wire.
pub mod Small
pub mod Handling
pub mod Threads
pub mod Talk
pub mod Stress
pub mod Screen
pub mod Workers
pub mod Wire
pub mod Receiving
pub mod Typing
pub mod Client
pub mod Legacy
