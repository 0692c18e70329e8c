-- ===== src/Endpoint/Ranking.antt =====
-- Laws of the ranking of endpoints (nodex-kademlia/src/endpoint.rs).
use mathlib.Core.List.{Memᴰ}
use node_x.Base.{
  Bool, ◌&&◌, Bool-cases, inl, inr, All-append, All-Memᴰ, any-append, ◌≡◌, refl, true, false, List,
  [], ◌∷◌, ◌++◌, arith, any, All, if-elim, append-nil, append_assoc,
}
use node_x.Base.Sort.{sort_by, IsSorted, sort_by-IsSorted, All-sort_by, All-sort_by_back}
use node_x.Net.{addr_eq}
use node_x.Endpoint.{EndpointCandidate, ranks_before, has_addr, take_unique, rank_candidates}

-- No address twice.
abbrev pub IsUnique : List EndpointCandidate → Type 0
IsUnique [] = Unit
IsUnique (c ∷ cs) = (any (has_addr c.addr) cs ≡ false) × IsUnique cs

All-without :
    (P : EndpointCandidate → Type 0) (u : List EndpointCandidate) (c : EndpointCandidate)
    (cs : List EndpointCandidate)
    → All P (u ++ c ∷ cs)
    → All P (u ++ cs)
All-without P [] c cs h = h.1
All-without P (x ∷ u) c cs h = (h.0, All-without P u c cs h.1)

IsSorted-without :
    (u : List EndpointCandidate) (c : EndpointCandidate) (cs : List EndpointCandidate)
    → IsSorted ranks_before (u ++ c ∷ cs)
    → IsSorted ranks_before (u ++ cs)
IsSorted-without [] c cs h = h.1
IsSorted-without (x ∷ u) c cs h =
    (All-without (λ y. ranks_before x y ≡ true) u c cs h.0, IsSorted-without u c cs h.1)

IsUnique-snoc :
    (u : List EndpointCandidate) (c : EndpointCandidate)
    → IsUnique u
    → any (has_addr c.addr) u ≡ false
    → IsUnique (u ++ c ∷ [])
IsUnique-snoc [] c h e = (refl, tt)
IsUnique-snoc (x ∷ u) c h e = ground (
  arith,
  any-append (has_addr x.addr) u (c ∷ []),
  addr_eq.eqb_iff x.addr c.addr,
  addr_eq.eqb_iff c.addr x.addr,
  IsUnique-snoc u c h.1,
)

-- The list of what is taken, with the candidates still to come.
take_unique-IsSorted :
    (u cs : List EndpointCandidate)
    → IsSorted ranks_before (u ++ cs)
    → IsSorted ranks_before (take_unique u cs)
unfolding take_unique
take_unique-IsSorted u [] h = rw (← append-nil u) h
take_unique-IsSorted u (c ∷ cs) h =
    if-elim (λ v. IsSorted ranks_before (take_unique v cs)) (any (has_addr c.addr) u)
      (λ _. take_unique-IsSorted u cs (IsSorted-without u c cs h))
      (λ _. take_unique-IsSorted (u ++ c ∷ []) cs (rw (append_assoc u (c ∷ []) cs) h))

take_unique-IsUnique : (u cs : List EndpointCandidate) → IsUnique u → IsUnique (take_unique u cs)
unfolding take_unique
take_unique-IsUnique u [] h = h
take_unique-IsUnique u (c ∷ cs) h =
    if-elim (λ v. IsUnique (take_unique v cs)) (any (has_addr c.addr) u)
      (λ _. take_unique-IsUnique u cs h)
      (λ e. take_unique-IsUnique (u ++ c ∷ []) cs (IsUnique-snoc u c h e))

-- A candidate that stands for another: it has the address, and a type of no lower priority.
abbrev pub serves : EndpointCandidate → EndpointCandidate → Bool
serves c u = has_addr c.addr u && ranks_before u c

take_unique-keeps :
    (p : EndpointCandidate → Bool) (u cs : List EndpointCandidate)
    → any p u ≡ true
    → any p (take_unique u cs) ≡ true
unfolding take_unique
take_unique-keeps p u [] h = h
take_unique-keeps p u (c ∷ cs) h =
    if-elim (λ v. any p (take_unique v cs) ≡ true) (any (has_addr c.addr) u)
      (λ _. take_unique-keeps p u cs h)
      (λ _. take_unique-keeps p (u ++ c ∷ []) cs (rw (any-append p u (c ∷ []), h) refl))

All-middle :
    (P : EndpointCandidate → Type 0) (u : List EndpointCandidate) (c : EndpointCandidate)
    (cs : List EndpointCandidate)
    → All P (u ++ c ∷ cs)
    → P c
All-middle P [] c cs h = h.0
All-middle P (x ∷ u) c cs h = All-middle P u c cs h.1

-- In a sorted list an earlier one of the same address serves.
earlier-serves :
    (u : List EndpointCandidate) (c : EndpointCandidate) (cs : List EndpointCandidate)
    → IsSorted ranks_before (u ++ c ∷ cs)
    → any (has_addr c.addr) u ≡ true
    → any (serves c) u ≡ true
earlier-serves [] c cs s h = absurd (cc)
earlier-serves (x ∷ u) c cs s h =
    let first : ranks_before x c ≡ true = All-middle (λ y. ranks_before x y ≡ true) u c cs s.0 in
    elim (Bool-cases (has_addr c.addr x)) [
      | inl e ↦ rw (e, first) refl
      | inr e ↦ rw e (earlier-serves u c cs s.1 (rw e at h))
    ]

serves_refl : (c : EndpointCandidate) → serves c c ≡ true
serves_refl c = ground (arith, addr_eq.eqb_iff c.addr c.addr)

take_unique-covers :
    (u cs : List EndpointCandidate)
    → IsSorted ranks_before (u ++ cs)
    → All (λ c. any (serves c) (take_unique u cs) ≡ true) cs
unfolding take_unique
take_unique-covers u [] s = tt
take_unique-covers u (c ∷ cs) s =
    if-elim (λ v. All (λ d. any (serves d) (take_unique v cs) ≡ true) (c ∷ cs))
      (any (has_addr c.addr) u)
      (λ e. (
        take_unique-keeps (serves c) u cs (earlier-serves u c cs s e),
        take_unique-covers u cs (IsSorted-without u c cs s),
      ))
      (λ e. (
        take_unique-keeps (serves c) (u ++ c ∷ []) cs
            (ground (arith, any-append (serves c) u (c ∷ []), serves_refl c)),
        take_unique-covers (u ++ c ∷ []) cs (rw (append_assoc u (c ∷ []) cs) s),
      ))

take_unique-All :
    (P : EndpointCandidate → Type 0) (u cs : List EndpointCandidate)
    → All P u
    → All P cs
    → All P (take_unique u cs)
unfolding take_unique
take_unique-All P u [] h k = h
take_unique-All P u (c ∷ cs) h k =
    if-elim (λ v. All P (take_unique v cs)) (any (has_addr c.addr) u)
      (λ _. take_unique-All P u cs h k.1)
      (λ _. take_unique-All P (u ++ c ∷ []) cs (All-append P u (c ∷ []) h (k.0, tt)) k.1)

-- Candidates in order of their types, no address twice, and of every address that a candidate has
-- one of the highest priority among its candidates.
pub record IsRanked (candidates ranked : List EndpointCandidate) : Type 0 where
  pub sorted : IsSorted ranks_before ranked
  pub unique : IsUnique ranked
  pub among : All (λ r. Memᴰ r candidates) ranked
  pub covers : All (λ c. any (serves c) ranked ≡ true) candidates

-- `rank_candidates` returns some of the candidates, with types of higher priority first (IPv6, then
-- UPnP, STUN and local), no address twice, and for every candidate one with its address and a type
-- of the same or a higher priority.
pub rank_candidates-IsRanked :
    (candidates : List EndpointCandidate) → IsRanked candidates (rank_candidates candidates)
unfolding rank_candidates
rank_candidates-IsRanked candidates =
    let ordered = sort_by ranks_before candidates in
    let s : IsSorted ranks_before ordered =
      sort_by-IsSorted ranks_before (λ a b h. ground arith) (λ a b c h k. ground arith)
        candidates in
    record {
      sorted = take_unique-IsSorted [] ordered s;
      unique = take_unique-IsUnique [] ordered tt;
      among =
          take_unique-All (λ r. Memᴰ r candidates) [] ordered tt
            (All-sort_by ranks_before (λ r. Memᴰ r candidates) candidates (All-Memᴰ candidates));
      covers =
          All-sort_by_back ranks_before (λ c. any (serves c) (take_unique [] ordered) ≡ true)
            candidates (take_unique-covers [] ordered s);
    }
