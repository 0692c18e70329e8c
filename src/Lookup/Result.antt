-- ===== src/Lookup/Result.antt =====
-- The result of a lookup (nodex-kademlia/src/lookup.rs).
use mathlib.Core.List.{Memᴰ}
use mathlib.Core.List.Memᴰ
use node_x.Lookup.{Candidate, Network, Search, done, closest_known, nearer, bucket_size, is_failed}
use node_x.Lookup.Ends.{IsExhausted}
use node_x.Lookup.Kept.{Knows}
use node_x.Lookup.Nearest.{
  All-filter_back, TakenOrAfter, filter-All, filter-IsSorted, take-TakenOrAfter, All-zip,
}
use node_x.Lookup.Shortlist.{candidate_id, IsShortlist, IsCandidate}
use node_x.Routing.Table.{RoutingTable, closer}
use node_x.Rpc.Payload.{RpcPayload}
use node_x.Net.{NodeId, Contact}
use node_x.Base.Sort.{IsSorted, take-IsSorted}
use node_x.Base.{
  ℕ, ◌≤◌, ◌≡◌, ◌⊎◌, ◌∙◌, refl, false, true, not, List, [], ◌∷◌, arith, map, All, All-map, All-Memᴰ,
  All-take, All-filter, Option, Bool, inl, inr, filter, take, length, length-take, length-map,
  list_eq, nat_eq, ◌==◌,
}
use node_x.Base.Distinct.{Distinct, filter-Distinct, map-Distinct, take-Distinct}

abbrev pub contact_id : Contact → NodeId
contact_id c = c.id

-- The contact of a candidate that has not failed.
abbrev pub IsAlive : List Candidate → Contact → Type 0
IsAlive shortlist c =
    (d : Candidate) × Memᴰ d shortlist × (d.contact ≡ c) × (is_failed d.state ≡ false)

-- A candidate that failed, or is in the result, or is not nearer than any of a full result.
abbrev pub IsPlaced : NodeId → List Contact → Candidate → Type 0
IsPlaced target cs d =
    (is_failed d.state ≡ true)
    ⊎ (Memᴰ d.contact cs
        ⊎ ((length cs ≡ bucket_size) × All (λ c. closer target c d.contact ≡ true) cs))

-- A result of a search from the contacts `first`: the nearest of its last shortlist that have not
-- failed, at most 20, in order of distance, none twice and none the node itself. The first 20 of the
-- shortlist were all asked; the states are what the replies said; and the shortlist has the contacts
-- that it began with and all those that the replies of its queried candidates name.
pub record IsResult (net : Network) (target : NodeId) (ids : List NodeId)
    (named : RpcPayload → Option (List Contact)) (first : List Contact) (s : Search)
    (rt : RoutingTable) (cs : List Contact) : Type 0 where
  pub shortlist : List Candidate
  pub hops : ℕ
  pub search : s ≡ done rt shortlist hops
  pub listed : IsShortlist net.local_id target ids shortlist
  pub exhausted : IsExhausted shortlist
  pub knows : Knows net named first shortlist
  pub alive : All (IsAlive shortlist) cs
  pub nearest : All (IsPlaced target cs) shortlist
  pub bounded : length cs ≤ bucket_size
  pub sorted : IsSorted (closer target) cs
  pub distinct : Distinct contact_id cs
  pub others : All (λ c. (c.id == net.local_id) ≡ false) cs

module _ (net : Network) (target : NodeId) (ids : List NodeId) where
  abbrev pub AreCandidates : List Candidate → Type 0
  AreCandidates cs = All (IsCandidate net.local_id target ids) cs

  map-others :
      (cs : List Candidate)
      → AreCandidates cs
      → All (λ c. (c.id == net.local_id) ≡ false) (map (λ (c : Candidate). c.contact) cs)
  map-others [] h = tt
  map-others (c ∷ cs) h = (h.0.other, map-others cs h.1)

  map-below :
      (c : Candidate) (cs : List Candidate)
      → IsCandidate net.local_id target ids c
      → AreCandidates cs
      → All (λ d. nearer c d ≡ true) cs
      → All (λ d. closer target c.contact d ≡ true) (map (λ (d : Candidate). d.contact) cs)
  map-below c [] v h s = tt
  map-below c (d ∷ cs) v h s = (rw (← v.measured, ← h.0.measured) s.0, map-below c cs v h.1 s.1)

  map-IsSorted :
      (cs : List Candidate)
      → AreCandidates cs
      → IsSorted nearer cs
      → IsSorted (closer target) (map (λ (c : Candidate). c.contact) cs)
  map-IsSorted [] h s = tt
  map-IsSorted (c ∷ cs) h s = (map-below c cs h.0 h.1 s.0, map-IsSorted cs h.1 s.1)

  map-IsAlive :
      (shortlist cs : List Candidate)
      → All (λ d. Memᴰ d shortlist × (is_failed d.state ≡ false)) cs
      → All (IsAlive shortlist) (map (λ (d : Candidate). d.contact) cs)
  map-IsAlive shortlist [] h = tt
  map-IsAlive shortlist (d ∷ cs) h = ((d, h.0.0, refl, h.0.1), map-IsAlive shortlist cs h.1)

  map-above :
      (c : Candidate) (cs : List Candidate)
      → IsCandidate net.local_id target ids c
      → AreCandidates cs
      → All (λ d. nearer d c ≡ true) cs
      → All (λ d. closer target d c.contact ≡ true) (map (λ (d : Candidate). d.contact) cs)
  map-above c [] v h s = tt
  map-above c (d ∷ cs) v h s = (rw (← v.measured, ← h.0.measured) s.0, map-above c cs v h.1 s.1)

  placed :
      (top : List Candidate) (d : Candidate)
      → AreCandidates top
      → IsCandidate net.local_id target ids d
      → (not (is_failed d.state) ≡ false) ⊎ TakenOrAfter nearer bucket_size top d
      → IsPlaced target (map (λ (c : Candidate). c.contact) top) d
  placed top d h v (inl e) = inl (ground arith)
  placed top d h v (inr (inl m)) = inr (inl (Memᴰ.map (λ (c : Candidate). c.contact) m))
  placed top d h v (inr (inr (n, k))) =
      inr (inr (length-map (λ (c : Candidate). c.contact) top ∙ n, map-above d top v h k))

  pub closest_known-IsResult :
      (named : RpcPayload → Option (List Contact)) (first : List Contact) (rt : RoutingTable)
      (cs : List Candidate) (hops : ℕ)
      → IsShortlist net.local_id target ids cs
      → IsSorted nearer cs
      → IsExhausted cs
      → Knows net named first cs
      → IsResult net target ids named first (done rt cs hops) rt (closest_known cs)
  unfolding closest_known
  closest_known-IsResult named first rt cs hops v s x k =
      let alive : Candidate → Bool = λ c. not (is_failed c.state) in
      let good = filter alive cs in
      let top = take bucket_size good in
      let h : AreCandidates top =
        All-take (IsCandidate net.local_id target ids) bucket_size good
          (All-filter (IsCandidate net.local_id target ids) alive cs v.candidates) in
      let members : All (λ (d : Candidate). Memᴰ d cs) good =
        All-filter (λ (d : Candidate). Memᴰ d cs) alive cs (All-Memᴰ cs) in
      let unfailed : All (λ (d : Candidate). is_failed d.state ≡ false) good =
        All-map (λ (d : Candidate) y. ground arith) good (filter-All alive cs) in
      let taken =
        All-filter_back (TakenOrAfter nearer bucket_size top) alive cs
          (take-TakenOrAfter nearer bucket_size good (filter-IsSorted nearer alive cs s)) in
      record {
        shortlist = cs;
        hops = hops;
        search = refl;
        listed = v;
        exhausted = x;
        knows = k;
        alive = map-IsAlive cs top (
            All-take (λ (d : Candidate). Memᴰ d cs × (is_failed d.state ≡ false)) bucket_size good
              (All-zip (λ (d : Candidate). Memᴰ d cs) (λ (d : Candidate). is_failed d.state ≡ false)
                good members unfailed));
        nearest =
            All-map (λ (d : Candidate) y. placed top d h y.0 y.1) cs
              (All-zip (IsCandidate net.local_id target ids)
                (λ (d : Candidate). (alive d ≡ false) ⊎ TakenOrAfter nearer bucket_size top d) cs
                v.candidates taken);
        bounded =
            omega
              (arith, length-map (λ (c : Candidate). c.contact) top, length-take bucket_size good);
        sorted =
            map-IsSorted top h
              (take-IsSorted nearer bucket_size good (filter-IsSorted nearer alive cs s));
        distinct =
            map-Distinct contact_id (λ (c : Candidate). c.contact) top
              (take-Distinct candidate_id bucket_size good
                (filter-Distinct candidate_id alive cs v.distinct));
        others = map-others top h;
      }
