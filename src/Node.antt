-- ===== src/Node.antt =====
-- `KademliaNode` of nodex-kademlia/src/lib.rs: its handler of incoming requests, and its own puts
-- and gets. What the network answers is a parameter; a result `none` is a panic of the store or of
-- a lookup, or that its fuel does not suffice.
pub mod Handled
pub mod Client
mod Tests
use node_x.Base.{
  ℕ, suc, ◌+◌, Bool, true, false, ◌||◌, Option, none, some, List, [], ◌∷◌, length, ltb,
  if◌then◌else◌, Eq, ◌==◌, list_eq, nat_eq,
}
use node_x.Base.Words.{Bytes}
use node_x.Net.{NodeId, Contact, SocketAddr, addr_eq}
use node_x.Lookup.{Network, LookupValueResult, value, closest_nodes, lookup_nodes, lookup_value}
use node_x.Mailbox.{Json, merge_store_value}
use node_x.Routing.Table.{RoutingTable, find_closest}
use node_x.Rpc.Payload.{
  RpcPayload, ping, pong, store, store_ack, find_node, find_node_resp, find_value, find_value_resp,
  RpcMessage,
}
use node_x.Storage
use node_x.Storage.{Storage}

-- 24 hours, in seconds.
abbrev pub default_ttl : ℕ
default_ttl = 86400

abbrev pub closest_count : ℕ
closest_count = 20

abbrev pub reply_message : NodeId → ℕ → Option RpcPayload → Option RpcMessage
reply_message local_id request_id none = none
reply_message local_id request_id (some p) =
    some (record { request_id = request_id; sender_id = local_id; payload = p })

module _ {V : Type 0} ⦃e : Eq V⦄ (json : Json V) (now : ℕ) where
  -- A request to store: the new store, and whether the value was accepted.
  unfoldable pub accept : NodeId → Bytes → Storage → Option (Storage × Bool)
  accept key v s =
      let merged = merge_store_value json (Storage.get now key s) v in
      if merged.1
      then elim (Storage.put now key merged.0 default_ttl s) [
        | none ↦ none
        | some s' ↦ some (s', true)
      ]
      else some (s, false)

  -- The value of a key, which is repaired if a merge makes it shorter.
  unfoldable pub read_repaired : NodeId → Storage → Option (Storage × Option Bytes)
  read_repaired key s = elim (Storage.get now key s) [
    | none ↦ some (s, none)
    | some v ↦
        let bounded = (merge_store_value json none v).0 in
        if ltb (length bounded) (length v)
        then elim (Storage.put now key bounded default_ttl s) [
          | none ↦ none
          | some s' ↦ some (s', some bounded)
        ]
        else some (s, some v)
  ]

  module _ (rt : RoutingTable) where
    unfoldable pub respond : RpcPayload → Storage → Option (Storage × Option RpcPayload)
    unfolding accept read_repaired
    respond ping s = some (s, some pong)
    respond (store key v) s = elim (accept key v s) [
      | none ↦ none
      | some (s', ok) ↦ some (s', some (store_ack ok))
    ]
    respond (find_node target) s =
        some (s, some (find_node_resp (find_closest rt target closest_count)))
    respond (find_value key) s = elim (read_repaired key s) [
      | none ↦ none
      | some (s', some v) ↦ some (s', some (find_value_resp (some v) []))
      | some (s', none) ↦ some (s', some (find_value_resp none (find_closest rt key closest_count)))
    ]
    respond _ s = some (s, none)

    -- The dispatcher of requests, over the response to the payload.
    unfoldable pub handle : NodeId → RpcMessage → Storage → Option (Storage × Option RpcMessage)
    unfolding respond
    handle local_id msg s = elim (respond msg.payload s) [
      | none ↦ none
      | some (s', p) ↦ some (s', reply_message local_id msg.request_id p)
    ]

-- The node's own requests: the replies to a STORE by contact, where `none` is an error of the call.
module _ (net : Network) (fuel now : ℕ) (rt : RoutingTable) where
  abbrev pub is_stored : Option RpcPayload → Bool
  is_stored (some (store_ack ok)) = ok
  is_stored _ = false

  unfoldable pub replicate_to : (Contact → Option RpcPayload) → List Contact → ℕ → ℕ
  replicate_to call [] count = count
  replicate_to call (c ∷ cs) count = replicate_to call cs (
      if (c.addr == net.local_addr) || (c.id == net.local_id)
      then count
      else if is_stored (call c)
      then suc count
      else count)

  -- The key of a text is its hash, which the caller gives.
  unfoldable pub put :
      (Contact → Option RpcPayload)
      → NodeId
      → Bytes
      → ℕ
      → Storage
      → Option (RoutingTable × Storage × ℕ)
  unfolding replicate_to
  put call key_id v ttl s = elim (Storage.put now key_id v ttl s) [
    | none ↦ none
    | some s' ↦ elim (lookup_nodes fuel net rt key_id) [
      | none ↦ none
      | some (rt', closest) ↦ some (rt', s', replicate_to call closest 1)
    ]
  ]

  unfoldable pub get :
      NodeId → ℕ → Storage → Option (RoutingTable × Storage × Option (Bytes × SocketAddr))
  get key_id ttl s = elim (Storage.get now key_id s) [
    | some v ↦ some (rt, s, some (v, net.local_addr))
    | none ↦ elim (lookup_value fuel net rt key_id) [
      | none ↦ none
      | some (rt', closest_nodes cs) ↦ some (rt', s, none)
      | some (rt', value v from) ↦ elim (Storage.put now key_id v ttl s) [
        | none ↦ none
        | some s' ↦ some (rt', s', some (v, from.addr))
      ]
    ]
  ]
