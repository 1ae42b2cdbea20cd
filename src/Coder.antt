-- ===== src/Coder.antt =====
-- src/net/coder: the protobuf protocol, its encoder and its decoder.
pub mod Protocol
pub mod Encode
pub mod Decode
pub mod Wire
pub mod Append
pub mod Fields
pub mod Packet
pub mod RoundTrip
pub mod Noise
pub mod Malformed
pub mod StringCoder
pub mod AbstractCoder
