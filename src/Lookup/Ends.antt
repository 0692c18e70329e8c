-- ===== src/Lookup/Ends.antt =====
-- The ends of a lookup (nodex-kademlia/src/lookup.rs).
use node_x.Lookup.{
  Candidate, Network, Reply, Round, learned, found, Search, done, value_found, panicked,
  out_of_fuel, search_loop, stops, select, nearer, is_settled, is_queried, is_unqueried,
  bucket_size, alpha,
}
use node_x.Lookup.Replies.{Answers, AreKnown, IsRound}
use node_x.Lookup.Learning.{learn-Learned}
use node_x.Lookup.Shortlist.{
  asked, asked-le, asked-select, select-Moved, asked-sort_by, sort_by-IsShortlist, IsShortlist,
  length-IsShortlist, Moved-IsShortlist,
}
use node_x.Routing.Table.Laws.{IsTable}
use node_x.Routing.Table.{RoutingTable}
use node_x.Net.{NodeId, Contact}
use node_x.Base.Words.{Bytes}
use node_x.Routing.Distance.Metric.{id_le_total, id_le_trans}
use node_x.Base.Sort.{sort_by, IsSorted, sort_by-IsSorted}
use node_x.Base.{
  subst, ap, ℕ, zero, suc, ◌+◌, ◌≤◌, ◌<◌, ◌≡◌, ◌⊎◌, refl, false, true, List, [], ◌∷◌, arith, All,
  All-take, Bool-cases, inl, inr, any, all, &&-true, take, length,
}

-- The value as a round of the search had it.
pub record IsAnswer (Q : Answers) (net : Network) (v : Bytes) (from : Contact) : Type 0 where
  pub hop : ℕ
  pub queries : List Contact
  pub answered : Q (net.replies hop queries) v from

-- The first candidates have all been asked.
abbrev pub IsExhausted : List Candidate → Type 0
IsExhausted cs = All (λ c. is_unqueried c.state ≡ false) (take bucket_size cs)

-- A search that ended with the table and the shortlist well formed, the nearest candidates all
-- asked, in at most as many rounds as there are ids; or with a value that a peer answered.
abbrev pub Ends : Answers → Network → NodeId → List NodeId → Search → Type 0
Ends Q net target ids (done rt cs hop) =
    IsTable rt
    × IsShortlist net.local_id target ids cs
    × IsSorted nearer cs
    × IsExhausted cs
    × (hop ≤ length ids)
Ends Q net target ids (value_found rt v from) = IsTable rt × IsAnswer Q net v from
Ends Q net target ids panicked = ⊥
Ends Q net target ids out_of_fuel = ⊥

pub sort_by-nearer : (cs : List Candidate) → IsSorted nearer (sort_by nearer cs)
sort_by-nearer cs =
    sort_by-IsSorted nearer (λ a b. id_le_total a.distance b.distance)
      (λ a b c. id_le_trans a.distance b.distance c.distance) cs

select-none :
    (n : ℕ) (cs : List Candidate)
    → (select (suc n) cs).1 ≡ []
    → All (λ c. is_unqueried c.state ≡ false) cs
unfolding select
select-none n [] h = tt
select-none n (c ∷ cs) h = elim (Bool-cases (is_unqueried c.state)) [
  | inl e ↦ absurd (ground arith)
  | inr e ↦ (e, select-none n cs (ground arith))
]

settled-asked :
    (cs : List Candidate)
    → all (λ c. is_settled c.state) cs ≡ true
    → All (λ c. is_unqueried c.state ≡ false) cs
settled-asked [] h = tt
settled-asked (c ∷ cs) h = (ground arith, settled-asked cs (ground arith))

stops-IsExhausted : (cs : List Candidate) → stops cs ≡ true → IsExhausted cs
unfolding stops
stops-IsExhausted cs h =
    settled-asked (take bucket_size cs)
      (&&-true (all (λ c. is_settled c.state) (take bucket_size cs))
        (any (λ c. is_queried c.state) (take bucket_size cs)) h).0

pub List-cases {ℓ} :
    {A : Type ℓ} (xs : List A) → (xs ≡ []) ⊎ ((x : A) × (rest : List A) × (xs ≡ x ∷ rest))
List-cases [] = inl refl
List-cases (x ∷ xs) = inr (x, xs, refl)

pub Round-cases :
    (r : Round)
    → ((cs : List Candidate) × (new : List Contact) × (r ≡ learned cs new))
      ⊎ ((v : Bytes) × (from : Contact) × (r ≡ found v from))
Round-cases (learned cs new) = inl (cs, new, refl)
Round-cases (found v from) = inr (v, from, refl)

module _ (Q : Answers) (net : Network) (target : NodeId) (ids : List NodeId)
    (read : List Reply → List Candidate → List Contact → Round)
    (reads : (n : ℕ) (rs : List Reply) (cs : List Candidate)
      → AreKnown ids rs
      → IsShortlist net.local_id target ids cs
      → n ≤ asked cs
      → IsRound Q net target ids n rs (read rs cs []))
    (closed : (hop : ℕ) (queries : List Contact) → AreKnown ids (net.replies hop queries)) where
  -- Every round asks a candidate that was not asked before.
  pub search_loop-Ends :
      (fuel hop : ℕ) (rt : RoutingTable) (cs : List Candidate)
      → IsTable rt
      → IsShortlist net.local_id target ids cs
      → IsSorted nearer cs
      → hop ≤ asked cs
      → length ids < fuel + asked cs
      → Ends Q net target ids (search_loop net read target fuel hop rt cs)
  unfolding search_loop
  search_loop-Ends zero hop rt cs t v s le f =
      absurd (omega (arith, asked-le cs, length-IsShortlist net.local_id target ids cs v))
  search_loop-Ends (suc fuel) hop rt cs t v s le f = elim (List-cases (select alpha cs).1) [
    | inl e ↦
        rw (search_loop, e)
          (
            t,
            v,
            s,
            All-take (λ c. is_unqueried c.state ≡ false) bucket_size cs (select-none 2 cs e),
            omega (arith, asked-le cs, length-IsShortlist net.local_id target ids cs v),
          )
    | inr (q, qs, e) ↦
        let picked = (select alpha cs).0 in
        let rs = net.replies (suc hop) (q ∷ qs) in
        let more : suc (asked cs) ≤ asked picked =
          omega (arith, asked-select alpha cs, ap length e) in
        let w = Moved-IsShortlist net.local_id target ids (select-Moved alpha cs) v in
        let ri = reads (asked picked) rs picked (closed (suc hop) (q ∷ qs)) w (omega arith) in
        elim (Round-cases (read rs picked [])) [
          | inr (value, from, p) ↦
              let m = subst (IsRound Q net target ids (asked picked) rs) p ri in
              rw (search_loop, e, p) (t, record { hop = suc hop; queries = q ∷ qs; answered = m })
          | inl (cs', new, p) ↦
              let (v', le', h) = subst (IsRound Q net target ids (asked picked) rs) p ri in
              let l = learn-Learned net.local_id target ids new rt cs' h t v' in
              let ordered = sort_by nearer l.shortlist in
              let v'' = sort_by-IsShortlist net.local_id target ids l.shortlist l.listed in
              let up : suc (asked cs) ≤ asked ordered =
                omega (arith, asked-sort_by l.shortlist, l.same_asked) in
              elim (Bool-cases (stops ordered)) [
                | inl b ↦
                    rw (search_loop, e, p, l.returns, b)
                      (
                        l.valid,
                        v'',
                        sort_by-nearer l.shortlist,
                        stops-IsExhausted ordered b,
                        omega (
                          arith,
                          asked-le ordered,
                          length-IsShortlist net.local_id target ids ordered v'',
                        ),
                      )
                | inr b ↦
                    rw (search_loop, e, p, l.returns, b)
                      (search_loop-Ends fuel (suc hop) l.table ordered l.valid v''
                        (sort_by-nearer l.shortlist) (omega arith) (omega arith))
              ]
        ]
  ]
