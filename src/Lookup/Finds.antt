-- ===== src/Lookup/Finds.antt =====
-- The results of the lookups (nodex-kademlia/src/lookup.rs).
use node_x.Lookup.{
  Network, Search, done, value_found, panicked, out_of_fuel, closest_known, node_search,
  lookup_nodes, nodes_result, LookupValueResult, value, closest_nodes,
}
use node_x.Lookup.Correct.{AreAmong, node_search-Ends}
use node_x.Lookup.Result.{IsResult, closest_known-IsResult}
use node_x.Lookup.Kept.{Knows, AtEnd, first_contacts, node_search-Knows}
use node_x.Lookup.Rounds.{node_names, value_names}
use node_x.Lookup.Ends.{Ends, IsAnswer}
use node_x.Lookup.Replies.{AreKnown, Never, Carry}
use node_x.Routing.Table.Laws.{IsTable}
use node_x.Routing.Table.{RoutingTable, all_contacts}
use node_x.Net.{NodeId, Contact}
use node_x.Base.{ℕ, ◌<◌, ◌≡◌, refl, List, length, some}

-- A value, when the search ended with it, as a peer answered it; or the nearest nodes.
abbrev pub IsOutcome :
    Network
    → NodeId
    → List NodeId
    → List Contact
    → Search
    → RoutingTable
    → LookupValueResult
    → Type 0
IsOutcome net key ids first s rt (value v from) =
    (s ≡ value_found rt v from) × IsAnswer Carry net v from
IsOutcome net key ids first s rt (closest_nodes cs) =
    IsResult net key ids (value_names net) first s rt cs

-- A search that ended, and what it returns.
nodes_result-IsResult :
    (net : Network) (target : NodeId) (ids : List NodeId) (first : List Contact) (s : Search)
    → Ends Never net target ids s
    → AtEnd (Knows net (node_names net) first) s
    → (rt : RoutingTable) × (cs : List Contact) × (nodes_result s ≡ some (rt, cs))
      × IsTable rt
      × IsResult net target ids (node_names net) first s rt cs
nodes_result-IsResult net target ids first (done rt cs hop) (t, v, s, x, le) k = (
  rt,
  closest_known cs,
  refl,
  t,
  closest_known-IsResult net target ids (node_names net) first rt cs hop v s x k,
)
nodes_result-IsResult net target ids first (value_found rt v from) h k = absurd h.1.answered
nodes_result-IsResult net target ids first panicked h k = absurd h
nodes_result-IsResult net target ids first out_of_fuel h k = absurd h

module _ (net : Network) (target : NodeId) (ids : List NodeId) (rt : RoutingTable) (fuel : ℕ)
    (t : IsTable rt) (k : AreAmong ids (all_contacts rt))
    (closed : (hop : ℕ) (queries : List Contact) → AreKnown ids (net.replies hop queries))
    (enough : length ids < fuel) where
  pub lookup_nodes-IsResult :
      (rt' : RoutingTable) × (cs : List Contact) × (lookup_nodes fuel net rt target
        ≡ some (rt', cs))
      × IsTable rt'
      × IsResult net target ids
          (node_names net)
          (first_contacts net rt target)
          (node_search fuel net rt target)
          rt'
          cs
  unfolding lookup_nodes
  lookup_nodes-IsResult =
      nodes_result-IsResult net target ids (first_contacts net rt target)
        (node_search fuel net rt target) (node_search-Ends net target ids rt fuel t k closed enough)
        (node_search-Knows net rt target fuel)
