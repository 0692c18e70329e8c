-- ===== src/Routing/Table.antt =====
-- `RoutingTable` of nodex-kademlia/src/node.rs. `none` is a panic: an index out of the buckets.
pub mod Laws
pub mod Closest
pub mod Ids
use node_x.Base.{
  ℕ, zero, suc, ◌+◌, ◌-◌, Bool, true, false, ◌||◌, Option, none, some, List, [], ◌∷◌, ◌++◌, length,
  get_elem?, set, take, replicate, ltb, leb, nat_beq, if◌then◌else◌, ◌==◌, list_eq, nat_eq,
}
use node_x.Base.Sort.{sort_by}
use node_x.Net.{NodeId, Contact, is_unspecified, is_multicast}
use node_x.Routing.Distance.{shared_prefix_bits, distance, id_le}
use node_x.Routing.Bucket
use node_x.Routing.Bucket.{UpdateResult, self_ignored}

abbrev pub num_buckets : ℕ
num_buckets = 160

pub record RoutingTable : Type 0 where
  pub local_id : NodeId
  pub buckets : List (List Contact)

unfoldable pub new : NodeId → RoutingTable
new local_id = record { local_id = local_id; buckets = replicate num_buckets [] }

-- `self.local_id` and the id.
unfoldable pub bucket_index : NodeId → NodeId → ℕ
bucket_index local_id id =
    let prefix = shared_prefix_bits local_id id in
    if leb num_buckets prefix then num_buckets - 1 else prefix

-- `port() == 0 || ip().is_unspecified() || ip().is_multicast()`
unfoldable pub is_unusable : Contact → Bool
is_unusable c = nat_beq c.addr.port 0 || (is_unspecified c.addr.ip || is_multicast c.addr.ip)

-- An operation on the bucket of an id, which is then written back.
unfoldable pub on_bucket {ℓ} :
    {A : Type ℓ}
    → RoutingTable
    → NodeId
    → (List Contact → Option (List Contact × A))
    → Option (RoutingTable × A)
on_bucket t id f = elim (get_elem? t.buckets (bucket_index t.local_id id)) [
  | none ↦ none
  | some bucket ↦ elim (f bucket) [
    | none ↦ none
    | some (bucket', r) ↦
        some (record t { buckets = set t.buckets (bucket_index t.local_id id) bucket' }, r)
  ]
]

unfoldable pub update : RoutingTable → Contact → Option (RoutingTable × UpdateResult)
update t contact =
    if contact.id == t.local_id
    then some (t, self_ignored)
    else if is_unusable contact
    then some (t, self_ignored)
    else on_bucket t contact.id (Bucket.update contact)

unfoldable pub force_update : RoutingTable → Contact → Option (RoutingTable × UpdateResult)
force_update t contact =
    if contact.id == t.local_id
    then some (t, self_ignored)
    else if is_unusable contact
    then some (t, self_ignored)
    else on_bucket t contact.id (Bucket.force_update contact)

unfoldable pub remove : RoutingTable → NodeId → Option (RoutingTable × Option Contact)
remove t id = on_bucket t id (λ bucket. some (Bucket.remove id bucket))

unfoldable pub replace_oldest : RoutingTable → Contact → Option (RoutingTable × Unit {0})
replace_oldest t contact =
    on_bucket t contact.id (λ bucket. some (Bucket.replace_oldest contact bucket, tt))

unfoldable pub concat : List (List Contact) → List Contact
concat [] = []
concat (b ∷ bs) = b ++ concat bs

unfoldable pub all_contacts : RoutingTable → List Contact
unfolding concat
all_contacts t = concat t.buckets

unfoldable pub sum_lens : List (List Contact) → ℕ
sum_lens [] = 0
sum_lens (b ∷ bs) = length b + sum_lens bs

unfoldable pub total_contacts : RoutingTable → ℕ
unfolding sum_lens
total_contacts t = sum_lens t.buckets

abbrev pub closer : NodeId → Contact → Contact → Bool
closer target a b = id_le (distance a.id target) (distance b.id target)

unfoldable pub find_closest : RoutingTable → NodeId → ℕ → List Contact
find_closest t target count = take count (sort_by (closer target) (all_contacts t))
