-- ===== src/Rpc/Sendable.antt =====
-- What a node of nodex-kademlia/src/rpc.rs may send and accepts.
use node_x.Base.{ℕ, ◌^◌, ◌≤◌, ◌<◌, ◌≡◌, false, none, some, [], length, All}
use node_x.Base.Words.{IsByte, IsArray}
use node_x.Net.{IpAddr, v4, v6, Contact, is_unspecified, is_multicast, is_broadcast}
use node_x.Wire.Message.{max_contacts, max_value_size, id_size}
use node_x.Rpc.Payload.{
  RpcPayload, ping, pong, store, store_ack, find_node, find_node_resp, find_value, find_value_resp,
  RpcMessage,
}

-- An address that a peer accepts.
abbrev pub IsRoutable : IpAddr → Type 0
IsRoutable (v4 o) =
    IsArray 4 o
    × (is_unspecified (v4 o) ≡ false)
    × (is_broadcast o ≡ false)
    × (is_multicast (v4 o) ≡ false)
IsRoutable (v6 o) = IsArray 16 o × (is_unspecified (v6 o) ≡ false) × (is_multicast (v6 o) ≡ false)

-- A contact that a peer accepts at the time `now`, which it takes for the contact's last sign.
pub record IsSendable (now : ℕ) (c : Contact) : Type 0 where
  pub id : IsArray id_size c.id
  pub ip : IsRoutable c.addr.ip
  pub port_pos : 0 < c.addr.port
  pub port_bound : c.addr.port < 256 ^ 2
  pub seen : c.last_seen ≡ now

-- What a node may send: lists and values within the limits of the format.
abbrev pub IsSendablePayload : ℕ → RpcPayload → Type 0
IsSendablePayload now ping = Unit
IsSendablePayload now pong = Unit
IsSendablePayload now (store key value) =
    IsArray id_size key × All IsByte value × (length value ≤ max_value_size)
IsSendablePayload now (store_ack accepted) = Unit
IsSendablePayload now (find_node target) = IsArray id_size target
IsSendablePayload now (find_node_resp cs) = All (IsSendable now) cs × (length cs ≤ max_contacts)
IsSendablePayload now (find_value key) = IsArray id_size key
IsSendablePayload now (find_value_resp (some value) cs) =
    All IsByte value × (length value ≤ max_value_size) × (cs ≡ [])
IsSendablePayload now (find_value_resp none cs) =
    All (IsSendable now) cs × (length cs ≤ max_contacts)

pub record IsSendableMessage (now : ℕ) (m : RpcMessage) : Type 0 where
  pub request_id : m.request_id < 256 ^ 8
  pub sender_id : IsArray id_size m.sender_id
  pub payload : IsSendablePayload now m.payload
