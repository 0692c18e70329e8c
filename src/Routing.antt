-- ===== src/Routing.antt =====
-- nodex-kademlia/src/node.rs: node ids, buckets and the routing table.
pub mod Distance
pub mod Bucket
pub mod Table
mod Tests
