-- ===== src/Packet.antt =====
-- parser.h and parser.cpp: the packet format, its writer `buildPacket` and its reader `parseFrames`.
pub mod Bytes
pub mod Outcome
pub mod Build
pub mod Parse
pub mod Wire
pub mod Fields
pub mod Deliver
pub mod RoundTrip
pub mod Post
pub mod Reading
pub mod Safety
pub mod Overrun
pub mod Truncation
