-- ===== src/Routing/Table/Ids.antt =====
-- The ids of a well-formed table (nodex-kademlia/src/node.rs).
use node_x.Routing.Table.{RoutingTable, bucket_index, concat, all_contacts, closer, find_closest}
use node_x.Routing.Table.Laws.{IsTable, IsPlaced, ArePlaced}
use node_x.Routing.Bucket.Laws.{IsDistinct}
use node_x.Routing.Bucket.{contains}
use node_x.Net.{NodeId, Contact}
use node_x.Base.Sort.{sort_by}
use node_x.Base.{
  nat_eq, ℕ, suc, ◌≤◌, ◌≡◌, false, List, [], ◌∷◌, arith, ap, All, All-append, list_beq_iff,
}
use node_x.Base.Distinct.{Absent, Distinct, append-Distinct, sort_by-Distinct, take-Distinct}

abbrev contact_id : Contact → NodeId
contact_id c = c.id

contains-Absent :
    (id : NodeId) (cs : List Contact) → contains id cs ≡ false → Absent contact_id id cs
unfolding contains
contains-Absent id [] h = tt
contains-Absent id (c ∷ cs) h =
    (λ p. ground (arith, list_beq_iff c.id id), contains-Absent id cs (ground arith))

IsDistinct-Distinct : (cs : List Contact) → IsDistinct cs → Distinct contact_id cs
IsDistinct-Distinct [] h = tt
IsDistinct-Distinct (c ∷ cs) h = (contains-Absent c.id cs h.0, IsDistinct-Distinct cs h.1)

-- Contacts from the buckets from `i` on.
abbrev AreFrom : NodeId → ℕ → List Contact → Type 0
AreFrom l i cs = All (λ c. i ≤ bucket_index l c.id) cs

later : (l : NodeId) (i : ℕ) (cs : List Contact) → AreFrom l (suc i) cs → AreFrom l i cs
later l i [] h = tt
later l i (c ∷ cs) h = (omega (arith, h.0), later l i cs h.1)

placed-AreFrom : (l : NodeId) (i : ℕ) (cs : List Contact) → All (IsPlaced l i) cs → AreFrom l i cs
placed-AreFrom l i [] h = tt
placed-AreFrom l i (c ∷ cs) h = (omega (arith, h.0.index), placed-AreFrom l i cs h.1)

concat-AreFrom :
    (l : NodeId) (i : ℕ) (bs : List (List Contact)) → ArePlaced l i bs → AreFrom l i (concat bs)
unfolding concat
concat-AreFrom l i [] h = tt
concat-AreFrom l i (b ∷ bs) h =
    All-append (λ c. i ≤ bucket_index l c.id) b (concat bs) (placed-AreFrom l i b h.0.1)
      (later l i (concat bs) (concat-AreFrom l (suc i) bs h.1))

-- A contact of a later bucket is not in this one.
apart-Absent :
    (l id : NodeId) (i : ℕ) (cs : List Contact)
    → suc i ≤ bucket_index l id
    → All (IsPlaced l i) cs
    → Absent contact_id id cs
apart-Absent l id i [] h p = tt
apart-Absent l id i (c ∷ cs) h p = (
  λ e.
      let q : bucket_index l c.id ≡ bucket_index l id = ap (bucket_index l) e in
      omega (arith, p.0.index),
  apart-Absent l id i cs h p.1,
)

apart :
    (l : NodeId) (i : ℕ) (cs ds : List Contact)
    → AreFrom l (suc i) ds
    → All (IsPlaced l i) cs
    → All (λ d. Absent contact_id d.id cs) ds
apart l i cs [] h p = tt
apart l i cs (d ∷ ds) h p = (apart-Absent l d.id i cs h.0 p, apart l i cs ds h.1 p)

concat-Distinct :
    (l : NodeId) (i : ℕ) (bs : List (List Contact))
    → ArePlaced l i bs
    → Distinct contact_id (concat bs)
unfolding concat
concat-Distinct l i [] h = tt
concat-Distinct l i (b ∷ bs) h =
    append-Distinct contact_id b (concat bs) (IsDistinct-Distinct b h.0.0.distinct)
      (concat-Distinct l (suc i) bs h.1)
      (apart l i b (concat bs) (concat-AreFrom l (suc i) bs h.1) h.0.1)

-- No id twice among what the table answers.
pub find_closest-Distinct :
    (t : RoutingTable) (target : NodeId) (count : ℕ)
    → IsTable t
    → Distinct (λ c. c.id) (find_closest t target count)
unfolding find_closest all_contacts
find_closest-Distinct t target count v =
    take-Distinct contact_id count (sort_by (closer target) (concat t.buckets)) (
      sort_by-Distinct contact_id (closer target) (concat t.buckets)
        (concat-Distinct t.local_id 0 t.buckets v.placed))
