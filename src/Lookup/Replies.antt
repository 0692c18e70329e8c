-- ===== src/Lookup/Replies.antt =====
-- What a lookup makes of the replies of a round (nodex-kademlia/src/lookup.rs).
use node_x.Base.Words.{Bytes}
use node_x.Lookup.{
  read_values, Candidate, CandidateState, Network, Reply, Round, learned, found, mark, queried,
  failed, read_nodes, contacts_of, is_foreign,
}
use node_x.Lookup.Shortlist.{
  asked, IsShortlist, IsHeardOf, Moved-IsShortlist, mark-Moved, asked-mark,
}
use node_x.Rpc.Payload.{RpcPayload, find_node_resp, find_value_resp}
use node_x.Net.{NodeId, Contact}
use node_x.Base.{
  not, ℕ, ◌≤◌, ◌≡◌, refl, false, true, List, [], ◌∷◌, ◌++◌, arith, All, All-append, Bool,
  Bool-cases, inl, inr, list_eq, nat_eq, ◌==◌, filter, Option, none, some,
}
use mathlib.Core.List.{Memᴰ}
use node_x.Base.Distinct.{has}

-- The contacts that a reply mentions.
unfoldable pub mentioned : Option RpcPayload → List Contact
mentioned (some (find_node_resp cs)) = cs
mentioned (some (find_value_resp value cs)) = cs
mentioned _ = []

-- Of the values that a round finds: that one of its replies has them, or that there are none.
abbrev pub Answers : Type 1
Answers = List Reply → Bytes → Contact → Type 0

abbrev pub Carry : Answers
Carry rs v from =
    (contacts : List Contact) × Memᴰ (from, some (find_value_resp (some v) contacts)) rs

abbrev pub Never : Answers
Never rs v from = ⊥

abbrev pub AreKnown : List NodeId → List Reply → Type 0
AreKnown ids rs = All (λ r. All (λ c. has (λ (i : NodeId). i) ids c.id ≡ true) (mentioned r.1)) rs

-- After the replies: a shortlist as good, with no candidate unasked again, and contacts heard of;
-- or a value as the replies have it.
abbrev pub IsRound : Answers → Network → NodeId → List NodeId → ℕ → List Reply → Round → Type 0
IsRound Q net target ids n rs (learned cs new) =
    IsShortlist net.local_id target ids cs × (n ≤ asked cs) × All (IsHeardOf net.local_id ids) new
IsRound Q net target ids n rs (found v from) = Q rs v from

module _ (net : Network) (target : NodeId) (ids : List NodeId) where
  IsRound-cons :
      (n : ℕ) (r : Reply) (rs : List Reply) (round : Round)
      → IsRound Carry net target ids n rs round
      → IsRound Carry net target ids n (r ∷ rs) round
  IsRound-cons n r rs (learned cs new) h = h
  IsRound-cons n r rs (found v from) h = (h.0, Memᴰ.tail h.1)

  Never-cons :
      (n : ℕ) (r : Reply) (rs : List Reply) (round : Round)
      → IsRound Never net target ids n rs round
      → IsRound Never net target ids n (r ∷ rs) round
  Never-cons n r rs (learned cs new) h = h
  Never-cons n r rs (found v from) h = h

  -- The contacts of a reply that pass a test which refuses the node itself.
  filter-IsHeardOf :
      (p : Contact → Bool)
      → ((c : Contact) → p c ≡ true → (c.id == net.local_id) ≡ false)
      → (cs : List Contact) → All (λ c. has (λ (i : NodeId). i) ids c.id ≡ true) cs
      → All (IsHeardOf net.local_id ids) (filter p cs)
  filter-IsHeardOf p sound [] h = tt
  filter-IsHeardOf p sound (c ∷ cs) h = elim (Bool-cases (p c)) [
    | inl e ↦ rw e (record { other = sound c e; known = h.0 }, filter-IsHeardOf p sound cs h.1)
    | inr e ↦ rw e (filter-IsHeardOf p sound cs h.1)
  ]

  mark-IsShortlist :
      (id : NodeId) (st : CandidateState) (cs : List Candidate)
      → IsShortlist net.local_id target ids cs
      → IsShortlist net.local_id target ids (mark id st cs)
  mark-IsShortlist id st cs v = Moved-IsShortlist net.local_id target ids (mark-Moved id st cs) v

  module _ (n : ℕ) where
    pub read_nodes-IsRound :
        (rs : List Reply) (cs : List Candidate) (acc : List Contact)
        → AreKnown ids rs
        → IsShortlist net.local_id target ids cs
        → All (IsHeardOf net.local_id ids) acc
        → n ≤ asked cs
        → IsRound Never net target ids n rs (read_nodes net rs cs acc)
    unfolding read_nodes
    read_nodes-IsRound [] cs acc k v a le = (v, le, a)
    read_nodes-IsRound ((c, none) ∷ rs) cs acc k v a le =
        Never-cons n (c, none) rs (read_nodes net rs (mark c.id failed cs) acc)
          (read_nodes-IsRound rs (mark c.id failed cs) acc k.1 (mark-IsShortlist c.id failed cs v) a
            (omega (arith, asked-mark c.id failed cs refl)))
    read_nodes-IsRound ((c, some reply) ∷ rs) cs acc k v a le =
        Never-cons n (c, some reply) rs
          (read_nodes net rs (mark c.id queried cs) (acc ++ contacts_of net reply))
          (read_nodes-IsRound rs (mark c.id queried cs) (acc ++ contacts_of net reply) k.1
            (mark-IsShortlist c.id queried cs v)
            (All-append (IsHeardOf net.local_id ids) acc (contacts_of net reply) a
              (heard reply k.0))
            (omega (arith, asked-mark c.id queried cs refl)))
      where
        heard :
            (reply : RpcPayload)
            → All (λ c. has (λ (i : NodeId). i) ids c.id ≡ true) (mentioned (some reply))
            → All (IsHeardOf net.local_id ids) (contacts_of net reply)
        heard (find_node_resp cs) h =
            unfold contacts_of mentioned in
            filter-IsHeardOf (is_foreign net) (λ c e. ground arith) cs h
        heard _ h = unfold contacts_of in tt

    pub read_values-IsRound :
        (rs : List Reply) (cs : List Candidate) (acc : List Contact)
        → AreKnown ids rs
        → IsShortlist net.local_id target ids cs
        → All (IsHeardOf net.local_id ids) acc
        → n ≤ asked cs
        → IsRound Carry net target ids n rs (read_values net rs cs acc)
    unfolding read_values
    read_values-IsRound [] cs acc k v a le = (v, le, a)
    read_values-IsRound ((c, none) ∷ rs) cs acc k v a le =
        IsRound-cons n (c, none) rs (read_values net rs (mark c.id failed cs) acc)
          (read_values-IsRound rs (mark c.id failed cs) acc k.1 (mark-IsShortlist c.id failed cs v)
            a (omega (arith, asked-mark c.id failed cs refl)))
    read_values-IsRound ((c, some (find_value_resp (some value) contacts)) ∷ rs) cs acc k v a le =
        (contacts, Memᴰ.head refl)
    read_values-IsRound ((c, some (find_value_resp none contacts)) ∷ rs) cs acc k v a le =
        let foreign : Contact → Bool = λ d. not (d.id == net.local_id) in
        IsRound-cons n (c, some (find_value_resp none contacts)) rs
          (read_values net rs (mark c.id queried cs) (acc ++ filter foreign contacts))
          (read_values-IsRound rs (mark c.id queried cs) (acc ++ filter foreign contacts) k.1
            (mark-IsShortlist c.id queried cs v)
            (All-append (IsHeardOf net.local_id ids) acc (filter foreign contacts) a
              (unfold mentioned in filter-IsHeardOf foreign (λ d e. ground arith) contacts k.0))
            (omega (arith, asked-mark c.id queried cs refl)))
    read_values-IsRound ((c, some reply) ∷ rs) cs acc k v a le =
        IsRound-cons n (c, some reply) rs (read_values net rs (mark c.id queried cs) acc)
          (read_values-IsRound rs (mark c.id queried cs) acc k.1
            (mark-IsShortlist c.id queried cs v) a (omega (arith, asked-mark c.id queried cs refl)))
