-- ===== src/Codec.antt =====
-- codec/: frames in bytes, masking, encoding and decoding. codec/doc.go holds a comment only.
pub mod Mask
pub mod Opcode
pub mod Header
pub mod Decoder
pub mod Encoder
pub mod Wire
pub mod RoundTrip
mod Tests
