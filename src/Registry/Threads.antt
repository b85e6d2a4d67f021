-- ===== src/Registry/Threads.antt =====
-- src/client_registry.c: registrations and removals by several threads at once.
mod Steps
mod Order
pub mod Present
pub mod Moves
pub mod Entries
pub mod Safety
mod Ranking
pub mod Progress
pub mod Drain
pub mod Alone
mod Tests
unfoldable pub use Steps.*
unfoldable pub use Order.*
