-- ===== src/Lookup/Tests.antt =====
-- A network of three nodes for the laws of the lookups.
use node_x.Lookup.{Network, Reply}
use node_x.Routing.Table.{RoutingTable, num_buckets}
use node_x.Rpc.Payload.{RpcPayload, find_node_resp, find_value_resp}
use node_x.Net.{NodeId, Contact, SocketAddr, v4}
use node_x.Base.{ℕ, List, [], ◌∷◌, map, some, none, set, replicate, nat_beq, if◌then◌else◌}

abbrev own_id : NodeId
own_id = replicate 20 1

abbrev at_port : ℕ → SocketAddr
at_port port = record { ip = v4 (10 ∷ 0 ∷ 0 ∷ 8 ∷ []); port = port }

abbrev peer : Contact
peer = record { id = replicate 20 3; addr = at_port 4000; last_seen = 50 }

abbrev remote : Contact
remote = record { id = replicate 20 7; addr = at_port 5000; last_seen = 60 }

abbrev ids : List NodeId
ids = peer.id ∷ remote.id ∷ []

-- The peer knows the remote node, and that one has the value.
abbrev answer : ℕ → RpcPayload
answer hop =
    if nat_beq hop 1 then find_value_resp none (remote ∷ []) else find_value_resp (some (9 ∷ [])) []

abbrev answers : (ℕ → RpcPayload) → List Contact → ℕ → List Reply
answers f cs hop = map (λ c. (c, some (f hop))) cs

abbrev value_net : Network
value_net = record {
  local_id = own_id;
  local_addr = at_port 3000;
  replies = λ hop queries. answers answer queries hop;
}

abbrev nodes_net : Network
nodes_net = record {
  local_id = own_id;
  local_addr = at_port 3000;
  replies = λ hop queries. answers (λ _. find_node_resp (remote ∷ [])) queries hop;
}

abbrev start : RoutingTable
start = record { local_id = own_id; buckets = set (replicate num_buckets []) 6 (peer ∷ []) }
