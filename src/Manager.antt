-- ===== src/Manager.antt =====
-- The receive loop of `NetworkManager` (nodex-kademlia/src/rpc.rs), by datagrams, and the datagrams
-- that `send_message` sends. A result `none` is a panic. Tasks are counted by the permits they
-- hold; what they do is in the effects. The counters of the metrics are left out.
pub mod Safety
pub mod Receive
mod Tests
use node_x.Base.{
  ℕ, suc, ◌+◌, Bool, true, false, Option, none, some, List, [], ◌∷◌, length, take, map, ltb,
  if◌then◌else◌, ◌==◌, list_eq, nat_eq,
}
use node_x.Base.Map.{get, insert, remove}
use node_x.Base.Outcome.{Outcome, ok, err, panic}
use node_x.Base.Words.{Bytes}
use node_x.Chunking.Assembler.{ChunkAssembler, add_chunk}
use node_x.Chunking.Chunk.{UdpChunk, from_bytes, to_bytes, split_data, binary_magic}
use node_x.Net.{SocketAddr, Contact, new_contact, addr_eq}
use node_x.Routing.Bucket.{UpdateResult, full}
use node_x.Routing.Table.{RoutingTable, update}
use node_x.Rpc.Convert.{decode}
use node_x.Rpc.Payload.{RpcMessage, is_response}

abbrev pub max_tasks : ℕ
max_tasks = 256

abbrev pub chunk_threshold : ℕ
chunk_threshold = 1100

-- "NXCA"
abbrev pub voice_magic : Bytes
voice_magic = 78 ∷ 88 ∷ 67 ∷ 65 ∷ []

-- A pending call has the address that its answer must come from, and its channel. Of the request
-- slots the model counts those in use.
pub record Manager : Type 0 where
  pub assembler : ChunkAssembler
  pub table : RoutingTable
  pub pending : List (ℕ × (SocketAddr × ℕ))
  pub tasks : ℕ

-- What a datagram makes the loop do, but for a probe of the oldest contact of a bucket.
pub data Effect : Type 0 where
  ignored : Effect
  to_messenger : Bytes → SocketAddr → Effect
  delivered : ℕ → RpcMessage → Effect
  canceled : ℕ → Effect
  handled : RpcMessage → SocketAddr → Effect

-- The probe pings the first contact, and puts the second in its place if that fails.
abbrev pub Received : Type 0
Received = Manager × Option (Contact × Contact) × Effect

unfoldable pub probe : Manager → UpdateResult → Contact → Manager × Option (Contact × Contact)
probe m (full oldest) contact =
    if ltb m.tasks max_tasks
    then (record m { tasks = suc m.tasks }, some (oldest, contact))
    else (m, none)
probe m _ contact = (m, none)

unfoldable pub settle : SocketAddr → RpcMessage → Manager → Manager × Effect
settle src msg m =
    if is_response msg
    then elim (get msg.request_id m.pending) [
      | none ↦ (m, ignored)
      | some (expected, channel) ↦ (
        record m { pending = remove msg.request_id m.pending },
        if expected == src then delivered channel msg else canceled channel,
      )
    ]
    else if ltb m.tasks max_tasks
    then (record m { tasks = suc m.tasks }, handled msg src)
    else (m, ignored)

-- From the decoded message on.
unfoldable pub dispatch : ℕ → SocketAddr → RpcMessage → Manager → Option Received
unfolding probe settle
dispatch now src msg m = elim (update m.table (new_contact now msg.sender_id src)) [
  | none ↦ none
  | some (rt, res) ↦
      let probed = probe (record m { table = rt }) res (new_contact now msg.sender_id src) in
      let settled = settle src msg probed.0 in some (settled.0, probed.1, settled.1)
]

unfoldable pub decode_and_dispatch : ℕ → SocketAddr → Bytes → Manager → Option Received
unfolding dispatch
decode_and_dispatch now src bytes m = elim (decode now bytes) [
  | panic ↦ none
  | err e ↦ some (m, none, ignored)
  | ok msg ↦ dispatch now src msg m
]

module _ (compute_checksum : Bytes → ℕ) where
  unfoldable pub receive_chunk : ℕ → SocketAddr → UdpChunk → Manager → Option Received
  unfolding decode_and_dispatch
  receive_chunk now src c m = elim (add_chunk compute_checksum now src c m.assembler) [
    | none ↦ none
    | some (a, none) ↦ some (record m { assembler = a }, none, ignored)
    | some (a, some complete) ↦ decode_and_dispatch now src complete (record m { assembler = a })
  ]

  -- One round of the loop, for a datagram that arrived.
  unfoldable pub receive : ℕ → SocketAddr → Bytes → Manager → Option Received
  unfolding receive_chunk
  receive now src bytes m =
      if take 4 bytes == voice_magic
      then some (m, none, to_messenger bytes src)
      else if take 4 bytes == binary_magic
      then elim (from_bytes bytes) [
        | panic ↦ none
        | err e ↦ some (m, none, ignored)
        | ok c ↦ receive_chunk now src c m
      ]
      else decode_and_dispatch now src bytes m

  -- The datagrams of a message, under a random message id.
  unfoldable pub datagrams : Bytes → Bytes → List (Option Bytes)
  datagrams message_id bytes =
      if ltb chunk_threshold (length bytes)
      then map to_bytes (split_data compute_checksum message_id bytes)
      else some bytes ∷ []
