-- ===== src/Rpc.antt =====
-- nodex-kademlia/src/rpc.rs: the typed messages over the wire format.
pub mod Payload
pub mod Convert
pub mod Sendable
pub mod Contacts
pub mod RoundTrip
pub mod Safety
mod Tests
