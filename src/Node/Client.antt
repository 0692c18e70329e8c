-- ===== src/Node/Client.antt =====
-- The node's own puts and gets (nodex-kademlia/src/lib.rs).
use node_x.Node.{put, get, replicate_to, closest_count}
use node_x.Lookup.Finds.{lookup_nodes-IsResult}
use node_x.Lookup.Correct.{AreAmong}
use node_x.Lookup.Replies.{AreKnown}
use node_x.Lookup.{Network}
use node_x.Routing.Table.Laws.{IsTable}
use node_x.Routing.Table.{RoutingTable, all_contacts}
use node_x.Storage.Invariant.{IsStorage}
use node_x.Storage.Laws.{get-Stored}
use node_x.Storage.Put.{put-IsStorage}
use node_x.Storage.{Storage, new_record, max_storage_bytes}
use node_x.Rpc.Payload.{RpcPayload}
use node_x.Net.{NodeId, Contact}
use node_x.Base.Words.{Bytes}
use node_x.Base.{ℕ, suc, ◌+◌, ◌≤◌, ◌<◌, ◌≡◌, refl, Option, some, List, [], ◌∷◌, length, arith}

-- A put that returns, and what a get of the key says then.
pub record IsPut (net : Network) (fuel now : ℕ) (key : NodeId) (v : Bytes) (ttl : ℕ)
    (r : Option (RoutingTable × Storage × ℕ)) : Type 0 where
  pub table : RoutingTable
  pub store' : Storage
  pub copies : ℕ
  pub returns : r ≡ some (table, store', copies)
  pub valid_table : IsTable table
  pub valid_store : IsStorage store'
  pub local_copy : 1 ≤ copies
  pub few : copies ≤ suc closest_count
  pub readable :
      length v ≤ max_storage_bytes
      → get net fuel now table key ttl store' ≡ some (table, store', some (v, net.local_addr))

replicate_to_bounds :
    (net : Network) (fuel now : ℕ) (rt : RoutingTable) (call : Contact → Option RpcPayload)
    (cs : List Contact) (n : ℕ)
    → (n ≤ replicate_to net fuel now rt call cs n)
      × (replicate_to net fuel now rt call cs n ≤ n + length cs)
unfolding replicate_to
replicate_to_bounds net fuel now rt call [] n = (omega arith, omega arith)
replicate_to_bounds net fuel now rt call (c ∷ cs) n = ground (
  arith,
  replicate_to_bounds net fuel now rt call cs n,
  replicate_to_bounds net fuel now rt call cs (suc n),
)

module _ (net : Network) (ids : List NodeId) (rt : RoutingTable) (fuel now : ℕ) (t : IsTable rt)
    (k : AreAmong ids (all_contacts rt))
    (closed : (hop : ℕ) (queries : List Contact) → AreKnown ids (net.replies hop queries))
    (enough : length ids < fuel) where
  -- A put ends, whatever the peers answer: from a well-formed store and table, where finitely many
  -- ids occur in the table and in the replies, and with more fuel than there are ids. Store and
  -- table stay well formed, the count is from 1 to 21, and a value of at most 64 MiB is read back
  -- from the node's own store by a get at the same time.
  pub put-IsPut :
      (call : Contact → Option RpcPayload) (key : NodeId) (v : Bytes) (ttl : ℕ) (s : Storage)
      → IsStorage s
      → IsPut net fuel now key v ttl (put net fuel now rt call key v ttl s)
  unfolding put get
  put-IsPut call key v ttl s w =
      let st = put-IsStorage now key v ttl s w in
      let (rt', cs, found, t', res) = lookup_nodes-IsResult net key ids rt fuel t k closed enough in
      let bounds = replicate_to_bounds net fuel now rt call cs 1 in
      rw (put, st.returns, found)
        (record {
          table = rt';
          store' = st.store';
          copies = replicate_to net fuel now rt call cs 1;
          returns = refl;
          valid_table = t';
          valid_store = st.valid;
          local_copy = bounds.0;
          few = omega (arith, bounds.1, res.bounded);
          readable = λ small.
              rw
                (
                  get,
                  get-Stored now ttl key v st.store' (new_record now v ttl) refl (st.holds small),
                )
                refl;
        })
