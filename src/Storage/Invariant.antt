-- ===== src/Storage/Invariant.antt =====
-- The well-formed stores, and laws of the operations that change a store
-- (nodex-kademlia/src/storage.rs).
use node_x.Base.{
  ◌≢◌, subst, ==→eq, ℕ, zero, suc, ◌+◌, ◌≤◌, ◌<◌, ◌≡◌, refl, inl, inr, Bool, true, false, Option,
  none, some, List, [], ◌∷◌, length, arith, leb, Bool-cases, Option-cases, list_eq, nat_eq, ==_refl,
  ◌==◌,
}
use node_x.Base.Map.{
  IsMap, insert, retain, length-remove-le, length-remove_present, length-insert-le,
  length-retain-le, insert-IsMap, remove-IsMap, retain-IsMap, get-insert, get-remove, remove_absent,
}
use node_x.Base.Map
use node_x.Net.{NodeId}
use node_x.Storage.{
  new, Record, Storage, sizes, remove, oldest_key, has_no_room, make_room, max_storage_bytes,
  max_storage_records,
}

-- No key twice; the byte count is the records' total; both bounds hold.
pub record IsStorage (s : Storage) : Type 0 where
  pub distinct : IsMap s.records
  pub counted : s.stored_bytes ≡ sizes s.records
  pub bytes : s.stored_bytes ≤ max_storage_bytes
  pub few : length s.records ≤ max_storage_records

pub new-IsStorage : IsStorage new
unfolding new sizes
new-IsStorage = record { distinct = tt; counted = refl; bytes = omega arith; few = omega arith }

pub sizes-remove :
    (k : NodeId) (r : Record) (m : List (NodeId × Record))
    → IsMap m
    → Map.get k m ≡ some r
    → sizes (Map.remove k m) + length r.value ≡ sizes m
unfolding sizes
sizes-remove k r [] v h = absurd (cc)
sizes-remove k r ((j, o) ∷ m) v h = elim (Bool-cases (j == k)) [
  | inl e ↦
      let p : o ≡ r = ground arith in
      let q : j ≡ k = ==→eq e in
      rw (e, remove_absent k m (subst (λ i. Map.get i m ≡ none) q v.0), p) (omega arith)
  | inr e ↦ rw e (omega (arith, sizes-remove k r m v.1 (ground arith)))
]

pub sizes-insert :
    (k : NodeId) (r : Record) (m : List (NodeId × Record))
    → Map.get k m ≡ none
    → sizes (insert k r m) ≡ sizes m + length r.value
unfolding sizes
sizes-insert k r [] h = omega arith
sizes-insert k r ((j, o) ∷ m) h = ground (arith, sizes-insert k r m)

pub sizes-retain-le :
    (p : NodeId → Record → Bool) (m : List (NodeId × Record)) → sizes (retain p m) ≤ sizes m
unfolding sizes
sizes-retain-le p [] = omega arith
sizes-retain-le p ((j, o) ∷ m) = ground (arith, sizes-retain-le p m)

pub remove-IsStorage : (k : NodeId) (s : Storage) → IsStorage s → IsStorage (remove k s).0
unfolding remove
remove-IsStorage k s v = elim (Option-cases (Map.get k s.records)) [
  | inl e ↦ rw (remove, e) v
  | inr (r, e) ↦
      rw (remove, e)
        (let total = sizes-remove k r s.records v.distinct e in
          record {
            distinct = remove-IsMap k s.records v.distinct;
            counted = omega (arith, v.counted, total);
            bytes = omega (arith, v.bytes);
            few = omega (arith, v.few, length-remove-le k s.records);
          })
]

pub get-remove_same : (k : NodeId) (s : Storage) → Map.get k (remove k s).0.records ≡ none
unfolding remove
get-remove_same k s = elim (Option-cases (Map.get k s.records)) [
  | inl e ↦ rw (remove, e) e
  | inr (r, e) ↦ rw (remove, e) (rw (get-remove k k s.records, ==_refl k) refl)
]

oldest_key-get :
    (m : List (NodeId × Record)) (k : NodeId) (r : Record)
    → IsMap m
    → oldest_key m ≡ some (k, r)
    → Map.get k m ≡ some r
unfolding oldest_key
oldest_key-get [] k r v h = absurd (cc)
oldest_key-get ((j, o) ∷ m) k r v h = elim (Option-cases (oldest_key m)) [
  | inl e ↦ first (cc) (cc)
  | inr ((i, q), e) ↦ elim (Bool-cases (leb o.created_at q.created_at)) [
    | inl c ↦ first (ground arith) (ground arith)
    | inr c ↦
        let p : i ≡ k = ground arith in
        let w : q ≡ r = ground arith in
        let found : Map.get k m ≡ some r = rw (← p, ← w) (oldest_key-get m i q v.1 e) in
        elim (Bool-cases (j == k)) [
          | inl d ↦
              let same : j ≡ k = ==→eq d in
              let gone : Map.get k m ≡ none = subst (λ a. Map.get a m ≡ none) same v.0 in
              absurd (cc)
          | inr d ↦ rw d found
        ]
  ]
]
  where
    first : j ≡ k → o ≡ r → Map.get k ((j, o) ∷ m) ≡ some r
    first p q = rw p (rw (==_refl k, q) refl)

oldest_key-none : (m : List (NodeId × Record)) → oldest_key m ≡ none → m ≡ []
unfolding oldest_key
oldest_key-none [] h = refl
oldest_key-none ((j, o) ∷ m) h = ground (arith, Option-cases (oldest_key m))

-- The eviction loop ends within a round more than there are records, with room for the value.
pub record Emptied (size : ℕ) (s : Storage) (r : Option Storage) : Type 0 where
  pub store' : Storage
  pub returns : r ≡ some store'
  pub valid : IsStorage store'
  pub room : has_no_room size store' ≡ false
  pub no_new : (k : NodeId) → Map.get k s.records ≡ none → Map.get k store'.records ≡ none

no_room-nonempty :
    (size : ℕ) (s : Storage)
    → IsStorage s
    → size ≤ max_storage_bytes
    → has_no_room size s ≡ true
    → s.records ≢ []
unfolding has_no_room sizes
no_room-nonempty size s v h e p =
    let empty : sizes s.records ≡ 0 = rw p refl in
    let none_left : length s.records ≡ 0 = rw p refl in
    let counted : s.stored_bytes ≡ 0 = cc (v.counted, empty) in ground arith

get-remove_other :
    (k j : NodeId) (s : Storage)
    → Map.get k s.records ≡ none
    → Map.get k (remove j s).0.records ≡ none
unfolding remove
get-remove_other k j s h = elim (Option-cases (Map.get j s.records)) [
  | inl e ↦ rw (remove, e) h
  | inr (r, e) ↦ rw (remove, e) (rw (get-remove j k s.records, h) (ground arith))
]

length-remove_key :
    (k : NodeId) (r : Record) (s : Storage)
    → Map.get k s.records ≡ some r
    → length (remove k s).0.records + 1 ≤ length s.records
unfolding remove
length-remove_key k r s h = rw (remove, h) (length-remove_present k r s.records h)

pub make_room-Emptied :
    (fuel size : ℕ) (s : Storage)
    → IsStorage s
    → size ≤ max_storage_bytes
    → length s.records < fuel
    → Emptied size s (make_room fuel size s)
unfolding make_room
make_room-Emptied zero size s v h f = absurd (omega arith)
make_room-Emptied (suc fuel) size s v h f = elim (Bool-cases (has_no_room size s)) [
  | inr e ↦ record {
    store' = s;
    returns = rw (make_room, e) refl;
    valid = v;
    room = e;
    no_new = λ k g. g;
  }
  | inl e ↦ elim (Option-cases (oldest_key s.records)) [
    | inl o ↦ absurd (no_room-nonempty size s v h e (oldest_key-none s.records o))
    | inr ((key, r), o) ↦
        let found = oldest_key-get s.records key r v.distinct o in
        let rest =
          make_room-Emptied fuel size (remove key s).0 (remove-IsStorage key s v) h
            (omega (arith, length-remove_key key r s found)) in
        record {
          store' = rest.store';
          returns = rw (make_room, e, o) rest.returns;
          valid = rest.valid;
          room = rest.room;
          no_new = λ k g. rest.no_new k (get-remove_other k key s g);
        }
  ]
]
