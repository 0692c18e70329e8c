-- ===== src/Lookup/Correct.antt =====
-- The lookups as a whole, from the table to the result (nodex-kademlia/src/lookup.rs).
use node_x.Lookup.{
  candidate, Network, read_nodes, read_values, nearer, bucket_size, is_foreign, first_shortlist,
  node_search, value_search,
}
use node_x.Lookup.Ends.{Ends, search_loop-Ends, sort_by-nearer}
use node_x.Lookup.Replies.{Never, Carry, AreKnown, read_nodes-IsRound, read_values-IsRound}
use node_x.Lookup.Result.{AreCandidates, contact_id}
use node_x.Lookup.Shortlist.{candidate_id, sort_by-IsShortlist, IsShortlist}
use node_x.Routing.Table.Ids.{find_closest-Distinct}
use node_x.Routing.Table.Laws.{IsTable}
use node_x.Routing.Table.{RoutingTable, all_contacts, find_closest, closer}
use node_x.Net.{NodeId, Contact}
use node_x.Base.Sort.{sort_by, IsSorted, All-sort_by}
use node_x.Base.{
  ℕ, ◌<◌, ◌≡◌, refl, false, true, List, [], ◌∷◌, arith, map, All, All-take, All-filter, Bool-cases,
  inl, inr, filter, length, list_eq, nat_eq, ◌==◌,
}
use node_x.Base.Distinct.{has, filter-Distinct, map-Distinct}

-- The ids stand in the list.
abbrev pub AreAmong : List NodeId → List Contact → Type 0
AreAmong ids cs = All (λ c. has (λ (i : NodeId). i) ids c.id ≡ true) cs

module _ (net : Network) (target : NodeId) (ids : List NodeId) where
  map-candidates :
      (cs : List Contact)
      → AreAmong ids cs
      → All (λ c. (c.id == net.local_id) ≡ false) cs
      → AreCandidates net target ids (map (candidate target) cs)
  map-candidates [] k h = tt
  map-candidates (c ∷ cs) k h =
      (record { measured = refl; other = h.0; known = k.0 }, map-candidates cs k.1 h.1)

  foreign-others :
      (cs : List Contact) → All (λ c. (c.id == net.local_id) ≡ false) (filter (is_foreign net) cs)
  foreign-others [] = tt
  foreign-others (c ∷ cs) = elim (Bool-cases (is_foreign net c)) [
    | inl e ↦ rw e (ground arith, foreign-others cs)
    | inr e ↦ rw e (foreign-others cs)
  ]

  first_shortlist-IsShortlist :
      (rt : RoutingTable)
      → IsTable rt
      → AreAmong ids (all_contacts rt)
      → IsShortlist net.local_id target ids (first_shortlist net rt target)
  unfolding first_shortlist find_closest
  first_shortlist-IsShortlist rt t k =
      let cs = find_closest rt target bucket_size in
      let near : AreAmong ids cs =
        All-take (λ c. has (λ (i : NodeId). i) ids c.id ≡ true) bucket_size
          (sort_by (closer target) (all_contacts rt))
          (All-sort_by (closer target) (λ c. has (λ (i : NodeId). i) ids c.id ≡ true)
            (all_contacts rt) k) in
      let foreign = filter (is_foreign net) cs in
      sort_by-IsShortlist net.local_id target ids (map (candidate target) foreign) (record {
        candidates =
            map-candidates foreign
              (All-filter (λ c. has (λ (i : NodeId). i) ids c.id ≡ true) (is_foreign net) cs near)
              (foreign-others cs);
        distinct = map-Distinct candidate_id (candidate target) foreign (
            filter-Distinct contact_id (is_foreign net) cs
              (find_closest-Distinct rt target bucket_size t));
      })

  first_shortlist-IsSorted : (rt : RoutingTable) → IsSorted nearer (first_shortlist net rt target)
  unfolding first_shortlist
  first_shortlist-IsSorted rt =
      sort_by-nearer
        (map (candidate target) (filter (is_foreign net) (find_closest rt target bucket_size)))

  module _ (rt : RoutingTable) (fuel : ℕ) (t : IsTable rt) (k : AreAmong ids (all_contacts rt))
      (closed : (hop : ℕ) (queries : List Contact) → AreKnown ids (net.replies hop queries))
      (enough : length ids < fuel) where
    pub node_search-Ends : Ends Never net target ids (node_search fuel net rt target)
    node_search-Ends =
        search_loop-Ends Never net target ids (read_nodes net)
          (λ n rs cs a v le. read_nodes-IsRound net target ids n rs cs [] a v tt le) closed fuel 0
          rt (first_shortlist net rt target) t (first_shortlist-IsShortlist rt t k)
          (first_shortlist-IsSorted rt) (omega arith) (omega arith)

    pub value_search-Ends : Ends Carry net target ids (value_search fuel net rt target)
    value_search-Ends =
        search_loop-Ends Carry net target ids (read_values net)
          (λ n rs cs a v le. read_values-IsRound net target ids n rs cs [] a v tt le) closed fuel 0
          rt (first_shortlist net rt target) t (first_shortlist-IsShortlist rt t k)
          (first_shortlist-IsSorted rt) (omega arith) (omega arith)
