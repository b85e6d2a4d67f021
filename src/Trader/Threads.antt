-- ===== src/Trader/Threads.antt =====
-- src/trader.c: deposits and withdrawals by several threads at once.
mod Steps
pub mod Order
pub mod Serial
unfoldable pub use Steps.*
mod Tests
