-- ===== src/Protocol.antt =====
-- src/protocol.c: reading and writing of one frame.
pub mod Header
pub mod Body
pub mod Write
pub mod Wire
pub mod Payload
pub mod Written
pub mod Fresh
pub mod WireFormat
pub mod ReadHeader
pub mod ReadBody
pub mod RoundTrip
