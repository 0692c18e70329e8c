-- ===== src/Storage/Laws.antt =====
-- Laws of reading and republishing (nodex-kademlia/src/storage.rs).
use node_x.Base.Words.{Bytes}
use node_x.Storage.Put.{put-IsStorage}
use node_x.Base.Map.{IsMap}
use node_x.Storage.{
  get, new_record, is_expired, Record, Storage, Bytes, NodeId, put, remove, is_due, republish,
  republish_interval, get_keys_to_republish, sizes, max_storage_bytes,
}
use node_x.Base.{
  ap, leb, ◌&&◌, not, filter, map, inl, inr, Bool-cases, false, ℕ, ◌+◌, ◌-◌, ◌≤◌, ◌<◌, ◌≡◌, refl,
  Option, none, some, List, [], ◌∷◌, length, arith, list_eq, nat_eq,
}
use node_x.Base.Map
use node_x.Storage.Invariant.{get-remove_same, IsStorage}

-- What a `get` at `later` sees of a record made by `put`.
abbrev pub Readable : ℕ → ℕ → NodeId → Bytes → ℕ → Option Storage → Type 0
Readable now later k value ttl r =
    (s : Storage) × (r ≡ some s)
    × (later - now ≤ ttl → get later k s ≡ some value)
    × (ttl < later - now → get later k s ≡ none)

-- After `put` of a value of at most 64 MiB into a well-formed store, `get` returns the value while
-- its age is at most its time to live, and nothing afterwards.
pub get-put :
    (now later : ℕ) (k : NodeId) (value : Bytes) (ttl : ℕ) (s : Storage)
    → IsStorage s
    → length value ≤ max_storage_bytes
    → Readable now later k value ttl (put now k value ttl s)
unfolding get is_expired new_record
get-put now later k value ttl s v h =
    let p = put-IsStorage now k value ttl s v in
    let held = p.holds h in
    (
      p.store',
      p.returns,
      λ young. rw (get, held) (ground arith),
      λ old. rw (get, held) (ground arith),
    )

-- `get` of a removed key.
pub get-remove : (now : ℕ) (k : NodeId) (s : Storage) → get now k (remove k s).0 ≡ none
unfolding get
get-remove now k s = rw (get, get-remove_same k s) refl

due_of :
    (now : ℕ) (r : Record)
    → is_due now (record r { republish_at = now + republish_interval }) ≡ false
unfolding is_expired
due_of now r = ground arith

quiet : (now : ℕ) (m : List (NodeId × Record)) → (republish now (republish now m).0).1 ≡ []
unfolding republish
quiet now [] = refl
quiet now ((k, r) ∷ m) = elim (Bool-cases (is_due now r)) [
  | inl e ↦ rw e (rw (due_of now r) (quiet now m))
  | inr e ↦ rw (e, e) (quiet now m)
]

get-republish-none :
    (now : ℕ) (k : NodeId) (m : List (NodeId × Record))
    → Map.get k m ≡ none
    → Map.get k (republish now m).0 ≡ none
unfolding republish
get-republish-none now k [] h = refl
get-republish-none now k ((j, r) ∷ m) h = ground (arith, get-republish-none now k m)

republish-IsMap : (now : ℕ) (m : List (NodeId × Record)) → IsMap m → IsMap (republish now m).0
unfolding republish
republish-IsMap now [] h = tt
republish-IsMap now ((j, r) ∷ m) h = elim (Bool-cases (is_due now r)) [
  | inl e ↦ rw e (get-republish-none now j m h.0, republish-IsMap now m h.1)
  | inr e ↦ rw e (get-republish-none now j m h.0, republish-IsMap now m h.1)
]

sizes-republish : (now : ℕ) (m : List (NodeId × Record)) → sizes (republish now m).0 ≡ sizes m
unfolding republish sizes
sizes-republish now [] = refl
sizes-republish now ((j, r) ∷ m) = ground (arith, sizes-republish now m)

length-republish : (now : ℕ) (m : List (NodeId × Record)) → length (republish now m).0 ≡ length m
unfolding republish
length-republish now [] = refl
length-republish now ((j, r) ∷ m) = ground (arith, length-republish now m)

republish-due :
    (now : ℕ) (m : List (NodeId × Record))
    → (republish now m).1
      ≡ map
          (λ x. (x.0, x.1.value))
          (filter (λ x. not (is_expired now x.1) && leb x.1.republish_at now) m)
unfolding republish
republish-due now [] = refl
republish-due now ((k, r) ∷ m) = elim (Bool-cases (is_due now r)) [
  | inl e ↦ rw e (ap (λ (xs : List (NodeId × Bytes)). (k, r.value) ∷ xs) (republish-due now m))
  | inr e ↦ rw e (republish-due now m)
]

-- `get_keys_to_republish` keeps the store well formed, and returns the keys and values of exactly
-- the records that have not expired and whose time to republish has come; a second call at the same
-- instant has nothing left to republish.
pub get_keys_to_republish-IsStorage :
    (now : ℕ) (s : Storage)
    → IsStorage s
    → IsStorage (get_keys_to_republish now s).0
      × ((get_keys_to_republish now s).1
          ≡ map
              (λ x. (x.0, x.1.value))
              (filter (λ x. not (is_expired now x.1) && leb x.1.republish_at now) s.records))
      × ((get_keys_to_republish now (get_keys_to_republish now s).0).1 ≡ [])
unfolding get_keys_to_republish
get_keys_to_republish-IsStorage now s v = (
  record {
    distinct = republish-IsMap now s.records v.distinct;
    counted = omega (arith, v.counted, sizes-republish now s.records);
    bytes = v.bytes;
    few = omega (arith, v.few, length-republish now s.records);
  },
  republish-due now s.records,
  quiet now s.records,
)

-- A value just stored can be read.
pub get-Stored :
    (now ttl : ℕ) (key : NodeId) (v : Bytes) (s : Storage) (r : Record)
    → r ≡ new_record now v ttl
    → Map.get key s.records ≡ some r
    → get now key s ≡ some v
unfolding get is_expired new_record
get-Stored now ttl key v s r h p =
    let live : is_expired now (new_record now v ttl) ≡ false = ground arith in
    rw (get, p, h, live) refl
