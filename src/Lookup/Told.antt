-- ===== src/Lookup/Told.antt =====
-- What the states of a shortlist's candidates say of the replies (nodex-kademlia/src/lookup.rs).
use mathlib.Core.List.{Memᴰ}
use node_x.Lookup.{
  Candidate, CandidateState, unqueried, in_flight, queried, failed, Network, Reply, candidate,
  is_unqueried, mark, select, push_new, learn,
}
use node_x.Lookup.Shortlist.{Moved, none_moved, moved}
use node_x.Net.{NodeId, Contact}
use node_x.Routing.Table.{RoutingTable, update}
use node_x.Rpc.Payload.{RpcPayload}
use node_x.Base.{
  zero, suc, suc, ℕ, Bool, Bool-cases, Option-cases, inl, inr, true, ◌||◌, ◌≡◌, refl, sym, subst,
  Option, none, some, List, [], ◌∷◌, any, any-append, map, All, All-map, All-append, if-elim,
  list_eq, nat_eq, ◌==◌, ==→eq, ==_refl, arith,
}

abbrev pub listed : List Candidate → NodeId → Bool
listed cs id = any (λ d. d.contact.id == id) cs

abbrev pub named_in : List Contact → NodeId → Bool
named_in cs id = any (λ c. c.id == id) cs

pub named_in-All : (cs : List Contact) → All (λ c. named_in cs c.id ≡ true) cs
named_in-All [] = tt
named_in-All (c ∷ cs) =
    (rw (==_refl c.id) refl, All-map (λ (d : Contact) h. ground arith) cs (named_in-All cs))

pub listed-Moved :
    {cs ds : List Candidate} → Moved cs ds → (id : NodeId) → listed cs id ≡ listed ds id
listed-Moved none_moved id = refl
listed-Moved (moved e f m) id = rw (e, listed-Moved m id) refl

pub listed-push_new :
    (target : NodeId) (c : Contact) (cs : List Candidate) (id : NodeId)
    → listed (push_new target c cs) id ≡ (listed cs id || c.id == id)
listed-push_new target c cs id = elim (Bool-cases (listed cs c.id)) [
  | inr e ↦ rw e (
      ground
        (arith, any-append (λ (d : Candidate). d.contact.id == id) cs (candidate target c ∷ [])))
  | inl e ↦ rw e (elim (Bool-cases (c.id == id)) [
    | inr f ↦ ground arith
    | inl f ↦
        let p : listed cs id ≡ true = subst (λ (i : NodeId). listed cs i ≡ true) (==→eq f) e in
        rw (f, p) refl
  ])
]

pub listed-candidates :
    (target : NodeId) (cs : List Contact) (id : NodeId)
    → listed (map (candidate target) cs) id ≡ named_in cs id
listed-candidates target [] id = refl
listed-candidates target (c ∷ cs) id = ground (arith, listed-candidates target cs id)

module _ (net : Network) where
  -- The reply, `none` for an error, of a peer with the id in some round.
  abbrev pub Said : NodeId → Option RpcPayload → Type 0
  Said id reply =
      (hop : ℕ) × (queries : List Contact) × (peer : Contact) × Memᴰ (peer, reply)
        (net.replies hop queries)
      × (peer.id ≡ id)

  abbrev pub IsReply : Reply → Type 0
  IsReply r = (hop : ℕ) × (queries : List Contact) × Memᴰ r (net.replies hop queries)

module _ (net : Network) (named : RpcPayload → Option (List Contact)) where
  -- A failed candidate's call ended in an error; a queried one replied, and `H` has the ids of the
  -- contacts that the reply names.
  abbrev pub StateTold : (NodeId → Type 0) → NodeId → CandidateState → Type 0
  StateTold H id queried =
      (reply : RpcPayload) × (cs : List Contact) × Said net id (some reply)
      × (named reply ≡ some cs)
      × All (λ c. H c.id) cs
  StateTold H id failed = Said net id none
  StateTold H id _ = Unit

  abbrev pub IsTold : (NodeId → Type 0) → Candidate → Type 0
  IsTold H d = StateTold H d.contact.id d.state

  StateTold-map :
      {H H' : NodeId → Type 0}
      → ((id : NodeId) → H id → H' id)
      → (id : NodeId) (st : CandidateState) → StateTold H id st
      → StateTold H' id st
  StateTold-map f id unqueried h = tt
  StateTold-map f id in_flight h = tt
  StateTold-map f id failed h = h
  StateTold-map f id queried (reply, cs, s, e, k) =
      (reply, cs, s, e, All-map (λ (c : Contact) x. f c.id x) cs k)

  pub IsTold-map :
      {H H' : NodeId → Type 0}
      → ((id : NodeId) → H id → H' id)
      → (cs : List Candidate) → All (IsTold H) cs
      → All (IsTold H') cs
  IsTold-map f cs h = All-map (λ (d : Candidate) x. StateTold-map f d.contact.id d.state x) cs h

  module _ (H : NodeId → Type 0) where
    pub select-IsTold :
        (n : ℕ) (cs : List Candidate) → All (IsTold H) cs → All (IsTold H) (select n cs).0
    unfolding select
    select-IsTold zero cs h = h
    select-IsTold (suc n) [] h = tt
    select-IsTold (suc n) (c ∷ cs) h = elim (Bool-cases (is_unqueried c.state)) [
      | inl e ↦ rw e (tt, select-IsTold n cs h.1)
      | inr e ↦ rw e (h.0, select-IsTold (suc n) cs h.1)
    ]

    pub mark-IsTold :
        (id : NodeId) (st : CandidateState) (cs : List Candidate)
        → StateTold H id st
        → All (IsTold H) cs
        → All (IsTold H) (mark id st cs)
    unfolding mark
    mark-IsTold id st [] s h = tt
    mark-IsTold id st (c ∷ cs) s h = elim (Bool-cases (c.contact.id == id)) [
      | inl e ↦ rw e (subst (λ (i : NodeId). StateTold H i st) (sym (==→eq e)) s, h.1)
      | inr e ↦ rw e (h.0, mark-IsTold id st cs s h.1)
    ]

    -- The new contacts are in the shortlist, with what was there.
    pub record Grown (new : List Contact) (cs cs' : List Candidate) : Type 0 where
      pub kept : (id : NodeId) → listed cs id ≡ true → listed cs' id ≡ true
      pub added : All (λ c. listed cs' c.id ≡ true) new
      pub told : All (IsTold H) cs'

    push_new-IsTold :
        (target : NodeId) (c : Contact) (cs : List Candidate)
        → All (IsTold H) cs
        → All (IsTold H) (push_new target c cs)
    push_new-IsTold target c cs h =
        if-elim (All (IsTold H)) (listed cs c.id) (λ _. h)
          (λ _. All-append (IsTold H) cs (candidate target c ∷ []) h (tt, tt))

    pub learn-Grown :
        (target : NodeId) (new : List Contact) (rt rt' : RoutingTable) (cs cs' : List Candidate)
        → All (IsTold H) cs
        → learn target new rt cs ≡ some (rt', cs')
        → Grown new cs cs'
    unfolding learn
    learn-Grown target [] rt rt' cs cs' h e =
        let p : cs ≡ cs' = cc in
        subst (Grown [] cs) p (record { kept = λ id x. x; added = tt; told = h })
    learn-Grown target (c ∷ new) rt rt' cs cs' h e = elim (Option-cases (update rt c)) [
      | inl u ↦ absurd (let q = rw (learn, u) at e in cc)
      | inr ((rt1, res), u) ↦
          let q : learn target new rt1 (push_new target c cs) ≡ some (rt', cs') =
            rw (learn, u) at e in
          let g =
            learn-Grown target new rt1 rt' (push_new target c cs) cs'
              (push_new-IsTold target c cs h) q in
          record {
            kept = λ id x. g.kept id (rw (listed-push_new target c cs id, x) refl);
            added = (
              g.kept c.id (ground (arith, listed-push_new target c cs c.id, ==_refl c.id)),
              g.added,
            );
            told = g.told;
          }
    ]

-- Of an id that the shortlist or the new contacts have.
abbrev pub Heard : List Candidate → List Contact → NodeId → Type 0
Heard known acc id = (listed known id || named_in acc id) ≡ true
