-- ===== src/Main.antt =====
-- src/main.c: the start of the program and its shutdown.
mod Defs
mod Accept
pub mod Shutdown
pub mod Handover
pub mod Served
pub mod Hangup
pub mod Farewell
mod Tests
