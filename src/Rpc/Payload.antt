-- ===== src/Rpc/Payload.antt =====
-- The messages of nodex-kademlia/src/rpc.rs.
use node_x.Base.{ℕ, Bool, true, false, Option, List}
use node_x.Base.Words.{Bytes}
use node_x.Net.{NodeId, Contact}

pub data RpcPayload : Type 0 where
  ping : RpcPayload
  pong : RpcPayload
  store : NodeId → Bytes → RpcPayload
  store_ack : Bool → RpcPayload
  find_node : NodeId → RpcPayload
  find_node_resp : List Contact → RpcPayload
  find_value : NodeId → RpcPayload
  find_value_resp : Option Bytes → List Contact → RpcPayload

pub record RpcMessage : Type 0 where
  pub request_id : ℕ
  pub sender_id : NodeId
  pub payload : RpcPayload

unfoldable pub is_response_payload : RpcPayload → Bool
is_response_payload pong = true
is_response_payload (store_ack ok) = true
is_response_payload (find_node_resp cs) = true
is_response_payload (find_value_resp v cs) = true
is_response_payload _ = false

unfoldable pub is_response : RpcMessage → Bool
unfolding is_response_payload
is_response m = is_response_payload m.payload
