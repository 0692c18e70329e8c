-- ===== src/Wire.antt =====
-- The binary wire format of core-ffi: messages, the encoder, the decoder and their laws.
pub mod Buffer
pub mod Message
pub mod Encode
pub mod Decode
pub mod Format
pub mod Encoding
pub mod Decoding
pub mod Reads
pub mod Safety
pub mod Sound
mod Tests
