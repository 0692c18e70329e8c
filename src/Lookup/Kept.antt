-- ===== src/Lookup/Kept.antt =====
-- What a lookup knows to its end (nodex-kademlia/src/lookup.rs).
use node_x.Lookup.{
  Candidate, candidate, Network, Reply, Round, learned, Search, done, nearer, select, learn,
  read_nodes, read_values, first_shortlist, is_foreign, search_loop, node_search, value_search,
  stops, alpha, bucket_size,
}
use node_x.Lookup.Ends.{List-cases, Round-cases}
use node_x.Lookup.Rounds.{
  RoundTold, Reading, node_names, value_names, read_nodes-RoundTold, read_values-RoundTold,
}
use node_x.Lookup.Shortlist.{select-Moved}
use node_x.Lookup.Told.{
  listed, named_in, named_in-All, listed-Moved, listed-candidates, IsReply, IsTold, IsTold-map,
  select-IsTold, learn-Grown, Heard,
}
use node_x.Net.{NodeId, Contact}
use node_x.Routing.Table.{RoutingTable, find_closest}
use node_x.Rpc.Payload.{RpcPayload}
use node_x.Base.Sort.{sort_by, any-sort_by, All-sort_by}
use node_x.Base.{
  ==→eq, ℕ, zero, suc, Bool-cases, Option-cases, inl, inr, true, ◌≡◌, ◌∙◌, sym, subst, Option, some,
  List, [], ◌∷◌, filter, map, All, All-map, All-Memᴰ, list_eq, nat_eq, ◌==◌, arith,
}

-- The states are what the replies say; the shortlist has the contacts that it began with, and those
-- that the replies of queried candidates name.
pub record Knows (net : Network) (named : RpcPayload → Option (List Contact)) (first : List Contact)
    (cs : List Candidate) : Type 0 where
  pub told : All (IsTold net named (λ id. listed cs id ≡ true)) cs
  pub began : All (λ c. listed cs c.id ≡ true) first

module _ (P : List Candidate → Type 0) where
  abbrev pub AtEnd : Search → Type 0
  AtEnd (done rt cs hop) = P cs
  AtEnd _ = Unit

  module _ (net : Network) (read : List Reply → List Candidate → List Contact → Round)
      (target : NodeId)
      (step : (hop : ℕ) (queries : List Contact) (cs cs' cs'' : List Candidate) (new : List Contact)
          (rt rt' : RoutingTable)
        → P cs
        → read (net.replies hop queries) (select alpha cs).0 [] ≡ learned cs' new
        → learn target new rt cs' ≡ some (rt', cs'')
        → P (sort_by nearer cs'')) where
    search_loop-AtEnd :
        (fuel hop : ℕ) (rt : RoutingTable) (cs : List Candidate)
        → P cs
        → AtEnd (search_loop net read target fuel hop rt cs)
    unfolding search_loop
    search_loop-AtEnd zero hop rt cs h = tt
    search_loop-AtEnd (suc fuel) hop rt cs h = elim (List-cases (select alpha cs).1) [
      | inl e ↦ rw (search_loop, e) h
      | inr (q, qs, e) ↦
          elim (Round-cases (read (net.replies (suc hop) (q ∷ qs)) (select alpha cs).0 [])) [
            | inr (value, from, p) ↦ rw (search_loop, e, p) tt
            | inl (cs', new, p) ↦ elim (Option-cases (learn target new rt cs')) [
              | inl l ↦ rw (search_loop, e, p, l) tt
              | inr ((rt', cs''), l) ↦
                  let h' = step (suc hop) (q ∷ qs) cs cs' cs'' new rt rt' h p l in
                  elim (Bool-cases (stops (sort_by nearer cs''))) [
                    | inl b ↦ rw (search_loop, e, p, l, b) h'
                    | inr b ↦
                        rw (search_loop, e, p, l, b)
                          (search_loop-AtEnd fuel (suc hop) rt' (sort_by nearer cs'') h')
                  ]
            ]
          ]
    ]

module _ (net : Network) (named : RpcPayload → Option (List Contact)) (target : NodeId)
    (read : List Reply → List Candidate → List Contact → Round)
    (reads : (known : List Candidate) (rs : List Reply) (cs : List Candidate) (acc : List Contact)
      → All (IsReply net) rs
      → Reading net named known cs acc
      → RoundTold net named known (read rs cs acc))
    (first : List Contact) where
  -- The round after the scan for candidates, the replies and the new contacts.
  round-Knows :
      (hop : ℕ) (queries : List Contact) (cs cs' cs'' : List Candidate) (new : List Contact)
      (rt rt' : RoutingTable)
      → Knows net named first cs
      → read (net.replies hop queries) (select alpha cs).0 [] ≡ learned cs' new
      → learn target new rt cs' ≡ some (rt', cs'')
      → Knows net named first (sort_by nearer cs'')
  round-Knows hop queries cs cs' cs'' new rt rt' h e l =
      let rs = net.replies hop queries in
      let start : Reading net named cs (select alpha cs).0 [] = record {
        same = λ id. listed-Moved (select-Moved alpha cs) id;
        told =
            IsTold-map net named (λ id x. ground arith) (select alpha cs).0
              (select-IsTold net named (λ id. listed cs id ≡ true) alpha cs h.told);
      } in
      let replies : All (IsReply net) rs =
        All-map (λ (r : Reply) m. (hop, queries, m)) rs (All-Memᴰ rs) in
      let t = subst (RoundTold net named cs) e (reads cs rs (select alpha cs).0 [] replies start) in
      let g = learn-Grown net named (Heard cs new) target new rt rt' cs' cs'' t.0 l in
      let kept : (id : NodeId) → listed cs id ≡ true → listed (sort_by nearer cs'') id ≡ true =
        λ id x.
          any-sort_by nearer (λ (d : Candidate). d.contact.id == id) cs''
          ∙ g.kept id (sym (t.1 id) ∙ x) in
      let added : All (λ (c : Contact). listed (sort_by nearer cs'') c.id ≡ true) new =
        All-map
          (λ (c : Contact) x. any-sort_by nearer (λ (d : Candidate). d.contact.id == c.id) cs'' ∙ x)
          new g.added in
      record {
        told =
            IsTold-map net named (heard-kept (sort_by nearer cs'') kept added) (sort_by nearer cs'')
              (All-sort_by nearer (IsTold net named (Heard cs new)) cs'' g.told);
        began = All-map (λ (c : Contact) x. kept c.id x) first h.began;
      }
    where
      named-kept :
          (ds : List Candidate) (new : List Contact) (id : NodeId)
          → All (λ c. listed ds c.id ≡ true) new
          → named_in new id ≡ true
          → listed ds id ≡ true
      named-kept ds [] id a x = absurd (cc)
      named-kept ds (c ∷ new) id a x = elim (Bool-cases (c.id == id)) [
        | inl f ↦ subst (λ (i : NodeId). listed ds i ≡ true) (==→eq f) a.0
        | inr f ↦ named-kept ds new id a.1 (rw f at x)
      ]

      heard-kept :
          (ds : List Candidate)
          → ((id : NodeId) → listed cs id ≡ true → listed ds id ≡ true)
          → All (λ c. listed ds c.id ≡ true) new
          → (id : NodeId) → Heard cs new id
          → listed ds id ≡ true
      heard-kept ds f a id x = elim (Bool-cases (listed cs id)) [
        | inl y ↦ f id y
        | inr y ↦ named-kept ds new id a (rw y at x)
      ]

abbrev pub first_contacts : Network → RoutingTable → NodeId → List Contact
first_contacts net rt target = filter (is_foreign net) (find_closest rt target bucket_size)

module _ (net : Network) (named : RpcPayload → Option (List Contact)) (rt : RoutingTable)
    (target : NodeId) where
  first_shortlist-Knows :
      Knows net named (first_contacts net rt target) (first_shortlist net rt target)
  unfolding first_shortlist
  first_shortlist-Knows =
      let first = first_contacts net rt target in
      let cs = map (candidate target) first in
      record {
        told =
            All-sort_by nearer (IsTold net named (λ id. listed (sort_by nearer cs) id ≡ true)) cs
              (unasked (λ id. listed (sort_by nearer cs) id ≡ true) first);
        began =
            All-map
              (λ (c : Contact) x.
                any-sort_by nearer (λ (d : Candidate). d.contact.id == c.id) cs
                ∙ (listed-candidates target first c.id ∙ x))
              first (named_in-All first);
      }
    where
      unasked :
          (H : NodeId → Type 0) (ds : List Contact)
          → All (IsTold net named H) (map (candidate target) ds)
      unasked H [] = tt
      unasked H (d ∷ ds) = (tt, unasked H ds)

module _ (net : Network) (rt : RoutingTable) (target : NodeId) (fuel : ℕ) where
  pub node_search-Knows :
      AtEnd
        (Knows net (node_names net) (first_contacts net rt target))
        (node_search fuel net rt target)
  node_search-Knows =
      let first = first_contacts net rt target in
      search_loop-AtEnd (Knows net (node_names net) first) net (read_nodes net) target
        (round-Knows net (node_names net) target (read_nodes net)
          (λ known rs cs acc. read_nodes-RoundTold net known rs cs acc) first)
        fuel 0 rt (first_shortlist net rt target)
        (first_shortlist-Knows net (node_names net) rt target)

  pub value_search-Knows :
      AtEnd
        (Knows net (value_names net) (first_contacts net rt target))
        (value_search fuel net rt target)
  value_search-Knows =
      let first = first_contacts net rt target in
      search_loop-AtEnd (Knows net (value_names net) first) net (read_values net) target
        (round-Knows net (value_names net) target (read_values net)
          (λ known rs cs acc. read_values-RoundTold net known rs cs acc) first)
        fuel 0 rt (first_shortlist net rt target)
        (first_shortlist-Knows net (value_names net) rt target)
