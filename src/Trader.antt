-- ===== src/Trader.antt =====
-- src/trader.c and include/trader.h: the traders, their accounts, and the packets sent to them.
mod Store
mod Table
mod Session
mod Account
mod Packets
pub mod RefCounts
pub mod Finish
pub mod Login
pub mod LoginLogout
pub mod Balances
pub mod Sending
pub mod Broadcast
pub mod Race
pub mod Threads
pub mod Answers
pub mod Lookup
pub mod Incoming
pub mod Entries
pub mod Newcomers
pub mod Directory
unfoldable pub use Store.*
unfoldable pub use Table.*
unfoldable pub use Session.*
unfoldable pub use Account.*
unfoldable pub use Packets.*
pub mod Tests
