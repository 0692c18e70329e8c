-- ===== src/Routing/Table/Laws.antt =====
-- The well-formed routing tables, and laws of the table operations (nodex-kademlia/src/node.rs).
use node_x.Routing.Bucket.Laws.{IsBucket, Kept, update-Kept, force_update-Kept}
use node_x.Routing.Bucket
use node_x.Routing.Bucket.{UpdateResult, self_ignored}
use node_x.Routing.Table.{
  new, RoutingTable, bucket_index, is_unusable, num_buckets, on_bucket, update, force_update,
}
use node_x.Net.{NodeId, Contact}
use node_x.Base.{
  length-replicate, replicate, sym, subst, ap, inl, inr, Bool-cases, All, list_eq, nat_eq, ℕ, zero,
  suc, ◌+◌, ◌<◌, ◌≡◌, refl, false, Option, some, List, [], ◌∷◌, arith, length, get_elem?, set, ◌==◌,
}

-- A contact in its place: in the bucket of its id, not the node itself, with a usable address.
pub record IsPlaced (local_id : NodeId) (i : ℕ) (c : Contact) : Type 0 where
  pub index : bucket_index local_id c.id ≡ i
  pub other : (c.id == local_id) ≡ false
  pub usable : is_unusable c ≡ false

-- The buckets from index `i` on.
abbrev pub ArePlaced : NodeId → ℕ → List (List Contact) → Type 0
ArePlaced local_id i [] = Unit
ArePlaced local_id i (b ∷ bs) =
    (IsBucket b × All (IsPlaced local_id i) b) × ArePlaced local_id (suc i) bs

pub record IsTable (t : RoutingTable) : Type 0 where
  pub size : length t.buckets ≡ num_buckets
  pub placed : ArePlaced t.local_id 0 t.buckets

-- An update that returns, with a valid table of the same node.
pub record Maintained (t : RoutingTable) (r : Option (RoutingTable × UpdateResult)) : Type 0 where
  pub table : RoutingTable
  pub result : UpdateResult
  pub returns : r ≡ some (table, result)
  pub valid : IsTable table
  pub same_node : table.local_id ≡ t.local_id

bucket_index-lt : (local_id id : NodeId) → bucket_index local_id id < num_buckets
unfolding bucket_index
bucket_index-lt local_id id = ground arith

length-set : (bs : List (List Contact)) (i : ℕ) (b : List Contact) → length (set bs i b) ≡ length bs
length-set [] i b = refl
length-set (c ∷ bs) zero b = refl
length-set (c ∷ bs) (suc i) b = ap suc (length-set bs i b)

get-ArePlaced :
    (l : NodeId) (k i : ℕ) (bs : List (List Contact))
    → ArePlaced l k bs
    → i < length bs
    → (b : List Contact) × (get_elem? bs i ≡ some b) × IsBucket b × All (IsPlaced l (k + i)) b
get-ArePlaced l k i [] p h = absurd (omega arith)
get-ArePlaced l k zero (b ∷ bs) p h =
    let e : k + 0 ≡ k = omega arith in rw e (b, refl, p.0.0, p.0.1)
get-ArePlaced l k (suc i) (b ∷ bs) p h =
    let e : k + suc i ≡ suc k + i = omega arith in
    rw e (get-ArePlaced l (suc k) i bs p.1 (omega arith))

pub set-ArePlaced :
    (l : NodeId) (k i : ℕ) (bs : List (List Contact)) (b : List Contact)
    → ArePlaced l k bs
    → IsBucket b
    → All (IsPlaced l (k + i)) b
    → ArePlaced l k (set bs i b)
set-ArePlaced l k i [] b p v a = tt
set-ArePlaced l k zero (c ∷ bs) b p v a =
    let e : k + 0 ≡ k = omega arith in ((v, subst (λ (n : ℕ). All (IsPlaced l n) b) e a), p.1)
set-ArePlaced l k (suc i) (c ∷ bs) b p v a =
    let e : k + suc i ≡ suc k + i = omega arith in
    (p.0, set-ArePlaced l (suc k) i bs b p.1 v (subst (λ (n : ℕ). All (IsPlaced l n) b) e a))

-- The bucket operation may use that the bucket it gets is well formed.
on_bucket-Maintained :
    (t : RoutingTable) (id : NodeId) (f : List Contact → Option (List Contact × UpdateResult))
    → IsTable t
    → ((b : List Contact)
        → IsBucket b
        → All (IsPlaced t.local_id (bucket_index t.local_id id)) b
        → Kept (IsPlaced t.local_id (bucket_index t.local_id id)) (f b))
    → Maintained t (on_bucket t id f)
unfolding on_bucket
on_bucket-Maintained t id f v keeps =
    let i = bucket_index t.local_id id in
    let small : i < length t.buckets = omega (arith, v.size, bucket_index-lt t.local_id id) in
    let (b, found, vb, ab) = get-ArePlaced t.local_id 0 i t.buckets v.placed small in
    let e : 0 + i ≡ i = omega arith in
    let k = keeps b vb (subst (λ (n : ℕ). All (IsPlaced t.local_id n) b) e ab) in
    record {
      table = record t { buckets = set t.buckets i k.bucket };
      result = k.result;
      returns = rw (on_bucket, found, k.returns);
      valid = record {
        size = omega (arith, length-set t.buckets i k.bucket, v.size);
        placed =
            set-ArePlaced t.local_id 0 i t.buckets k.bucket v.placed k.valid
              (subst (λ (n : ℕ). All (IsPlaced t.local_id n) k.bucket) (sym e) k.all);
      };
      same_node = refl;
    }

ignored : (t : RoutingTable) → IsTable t → Maintained t (some (t, self_ignored))
ignored t v = record {
  table = t;
  result = self_ignored;
  returns = refl;
  valid = v;
  same_node = refl;
}

empty-ArePlaced : (l : NodeId) (n i : ℕ) → ArePlaced l i (replicate n [])
empty-ArePlaced l zero i = tt
empty-ArePlaced l (suc n) i =
    ((record { bounded = omega arith; distinct = tt }, tt), empty-ArePlaced l n (suc i))

pub new-IsTable : (local_id : NodeId) → IsTable (new local_id)
unfolding new
new-IsTable local_id = record {
  size = length-replicate {A = List Contact} num_buckets [];
  placed = empty-ArePlaced local_id num_buckets 0;
}

-- A well-formed table takes any contact: `update` does not panic, and the table stays well formed:
-- 160 buckets of at most 20 contacts, no id twice, each contact in the bucket of its id, none of
-- them the node itself or at an unusable address.
pub update-IsTable : (t : RoutingTable) (c : Contact) → IsTable t → Maintained t (update t c)
unfolding update is_unusable
update-IsTable t c v = elim (Bool-cases (c.id == t.local_id)) [
  | inl e ↦ rw (update, e) (ignored t v)
  | inr e ↦ elim (Bool-cases (is_unusable c)) [
    | inl u ↦ rw (update, e, u) (ignored t v)
    | inr u ↦
        rw (update, e, u)
          (on_bucket-Maintained t c.id (Bucket.update c) v (λ b vb ab.
            update-Kept (IsPlaced t.local_id (bucket_index t.local_id c.id)) c b vb ab
              (record { index = refl; other = e; usable = u })
              (λ d p. record { index = p.index; other = p.other; usable = p.usable })))
  ]
]

-- `force_update` of any contact into a well-formed table does not panic, and the table stays well
-- formed: 160 buckets of at most 20 contacts, no id twice, each contact in the bucket of its id,
-- none of them the node itself or at an unusable address.
pub force_update-IsTable :
    (t : RoutingTable) (c : Contact) → IsTable t → Maintained t (force_update t c)
unfolding force_update
force_update-IsTable t c v = elim (Bool-cases (c.id == t.local_id)) [
  | inl e ↦ rw (force_update, e) (ignored t v)
  | inr e ↦ elim (Bool-cases (is_unusable c)) [
    | inl u ↦ rw (force_update, e, u) (ignored t v)
    | inr u ↦
        rw (force_update, e, u)
          (on_bucket-Maintained t c.id (Bucket.force_update c) v (λ b vb ab.
            force_update-Kept (IsPlaced t.local_id (bucket_index t.local_id c.id)) c b vb ab
              (record { index = refl; other = e; usable = u })))
  ]
]
