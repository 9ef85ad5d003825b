-- ===== src/Stress.antt =====
-- ChattingServer_v1.0/StressServer: the load generator, a program that connects many clients to the
-- server of version 1.0 and lets them talk.
pub mod Csv
pub mod Clients
pub mod Threads
pub mod Entry
pub mod Steady
pub mod Rounds
pub mod Reach
pub mod Talk
