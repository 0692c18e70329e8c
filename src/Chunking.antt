-- ===== src/Chunking.antt =====
-- nodex-kademlia/src/chunking.rs: long messages as datagrams, and their reassembly.
pub mod Chunk
pub mod Format
pub mod Split
pub mod Assembler
pub mod Delivery
mod Tests
