-- ===== src/Lib.antt =====
-- NodeX: the peer-to-peer core, as a model of the Rust code with its laws.
--
-- NodeX is a messenger without servers. Nodes speak a binary protocol over UDP (core-ffi/src/lib.rs
-- encodes and decodes it, nodex-kademlia/src/rpc.rs turns it into typed messages); a message that is
-- too long for a datagram travels in chunks (nodex-kademlia/src/chunking.rs). Nodes find each other
-- and store records through a Kademlia table (nodex-kademlia/src/node.rs, storage.rs); a node may
-- relay for others (relay_client.rs); what cannot be delivered waits in an outbox
-- (nodex-messenger/src/message_queue.rs).
--
-- Base     lists, maps, words and results that the parts share. A HashMap is an association list
--          whose order stands for the iteration order; an Instant is a number, and a call takes the
--          time that it reads; a panic is `none`, or `panic` of Outcome.
-- Wire     core-ffi/src/lib.rs: Encode is ffi_encode_message, Decode is ffi_decode_message over the
--          cursor operations of Buffer; Format is the layout of the bytes, stated on its own.
-- Net      the addresses of std::net and the contacts of node.rs.
-- Rpc      rpc.rs: Payload has the messages, Convert has to_c_message, from_c_message, encode and
--          decode; Sendable says what a node may send.
-- Routing  node.rs: Distance is the XOR metric, Bucket is KBucket, Table is RoutingTable.
-- Lookup   nodex-kademlia/src/lookup.rs: the rounds of lookup_nodes and lookup_value over a shortlist;
--          the replies of a round are a parameter. The loop runs on fuel, one more than there are ids
--          to hear of; every round asks a candidate that was not asked before.
-- Mailbox  merge_store_value of nodex-kademlia/src/lib.rs, over serde_json as a parameter.
-- Node     nodex-kademlia/src/lib.rs: the handler of requests over Storage, Routing and Mailbox, and
--          put and get over Storage and Lookup.
-- Storage  storage.rs: Storage. The eviction loop runs on fuel, one more than there are records;
--          every round removes one.
-- Chunking chunking.rs: Chunk is UdpChunk, Assembler is ChunkAssembler. The loop of split_data runs
--          on fuel, the number of bytes; every chunk has at least one.
--          Delivery is the arrival of the chunks of a message.
-- Manager  nodex-kademlia/src/rpc.rs: one round of the receive loop of NetworkManager over Chunking,
--          Rpc and Routing, as a function from a datagram to the new state and what is to be done.
-- Stun     nodex-kademlia/src/stun.rs: the parser of binding responses; its loop runs on fuel, the
--          length of the input.
-- Stego    nodex-messenger/src/stego.rs: the packet in the lowest bits of the colour channels, which
--          are a list in the order of the pixels.
-- Attachments
--          nodex-messenger/src/attachments.rs: both ends of a file transfer; the encryption and the
--          checksums are parameters, and `pieces` runs on fuel, the number of bytes.
-- Relay    relay_client.rs: OptInRelayService, its calls as steps.
-- Queue    message_queue.rs: MessageQueue, its calls as steps of the outbox and the messages in
--          flight.
-- Mesh     nodex-messenger/src/mesh.rs: MeshDiscoveryTable.
-- Peers    nodex-kademlia/src/peer_manager.rs: PeerManager.
-- Groups   nodex-messenger/src/groups.rs: P2PGroup.
-- Health, Endpoint  nodex-kademlia/src/health.rs and endpoint.rs: HealthTracker, rank_candidates.
-- Receipts          nodex-messenger/src/receipts.rs, over a signature scheme as a parameter.
-- Blocklist         nodex-messenger/src/blocklist.rs.
--
-- Each part's Tests module has concrete data for its laws. Names follow the source; a `u8`, `u16`,
-- `u32` or `u64` is a native number with its range as a hypothesis or its wrap-around written out,
-- and `usize` has 64 bits. The checksum of the crc32fast crate is a parameter. Not modelled: sockets
-- and tasks, cryptography, voice and the user interfaces.
pub mod Base
pub mod Wire
pub mod Net
pub mod Rpc
pub mod Routing
pub mod Storage
pub mod Queue
pub mod Mesh
pub mod Peers
pub mod Groups
pub mod Lookup
pub mod Mailbox
pub mod Manager
pub mod Node
pub mod Stun
pub mod Stego
pub mod Attachments
pub mod Receipts
pub mod Health
pub mod Blocklist
pub mod Endpoint
pub mod Relay
pub mod Chunking
