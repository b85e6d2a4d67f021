-- ===== src/Server.antt =====
-- src/server.c: the thread that serves one client.
mod Exchange
mod State
mod Requests
mod Service
mod Reference
pub mod Dispatch
pub mod Rounds
pub mod Session
pub mod Loop
pub mod Conversation
pub mod Thread
pub mod Accounts
pub mod Inventory
pub mod Orders
pub mod Gating
pub mod Login
pub mod Incoming
pub mod Termination
pub mod Hangup
unfoldable pub use Exchange.*
unfoldable pub use State.*
unfoldable pub use Requests.*
unfoldable pub use Service.*
unfoldable pub use Reference.*
pub mod Tests
pub mod ServiceTests
mod SessionTests
