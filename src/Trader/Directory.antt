-- ===== src/Trader/Directory.antt =====
-- include/trader.h: what the module promises to its callers, by the names of the traders.
mod Spec
mod Calls
pub mod View
pub mod Refines
pub mod Joins
pub mod History
pub mod Ticker
pub mod Sessions
pub mod Online
unfoldable pub use Spec.*
unfoldable pub use Calls.*
mod Tests
