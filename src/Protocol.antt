-- ===== src/Protocol.antt =====
-- src/protocol.c and include/protocol.h: packets in network byte order over a byte stream.
pub mod ByteOrder
pub mod Types
pub mod Payloads
pub mod Messages
pub mod Wire
mod Defs
pub mod Send
pub mod Reliable
pub mod Receive
pub mod Progress
pub mod Incoming
pub mod EndOfFile
pub mod RoundTrip
unfoldable pub use Defs.{stamp, proto_send_packet, proto_recv_packet}
pub mod Tests
