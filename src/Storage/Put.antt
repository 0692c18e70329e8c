-- ===== src/Storage/Put.antt =====
-- Laws of `put` and `cleanup_stale` (nodex-kademlia/src/storage.rs).
use node_x.Storage.Invariant.{
  IsStorage, sizes-insert, sizes-retain-le, remove-IsStorage, get-remove_same, make_room-Emptied,
}
use node_x.Base.{
  not, ℕ, suc, ◌+◌, ◌≤◌, ◌<◌, ◌≡◌, refl, inl, inr, Bool, false, Option, none, some, length, arith,
  ltb, if◌then◌else◌, Bool-cases, Option-cases, list_eq, nat_eq, ==_refl,
}
use node_x.Base.Words.{Bytes}
use node_x.Base.Map.{
  IsMap, insert, retain, length-remove-le, length-remove_present, length-insert-le,
  length-retain-le, insert-IsMap, remove-IsMap, retain-IsMap, get-retain, get-retain-none,
  get-insert, get-remove, remove_absent,
}
use node_x.Base.Map
use node_x.Net.{NodeId}
use node_x.Storage.{
  Record, Storage, sizes, remove, has_no_room, store, put, clear, cleanup_stale, max_storage_bytes,
  new_record, is_expired,
}

length-remove_lt :
    (k : NodeId) (s : Storage) → length (remove k s).0.records < suc (length s.records)
unfolding remove
length-remove_lt k s = elim (Option-cases (Map.get k s.records)) [
  | inl h ↦ rw (remove, h) (omega arith)
  | inr (r, h) ↦ rw (remove, h) (omega (arith, length-remove-le k s.records))
]

store-IsStorage :
    (now : ℕ) (k : NodeId) (value : Bytes) (ttl : ℕ) (s : Storage)
    → IsStorage s
    → Map.get k s.records ≡ none
    → has_no_room (length value) s ≡ false
    → IsStorage (store now k value ttl s)
unfolding store new_record has_no_room
store-IsStorage now k value ttl s v g e =
    let r = new_record now value ttl in
    let total : sizes (insert k r s.records) ≡ sizes s.records + length value =
      sizes-insert k r s.records g in
    let counted : s.stored_bytes ≡ sizes s.records = v.counted in
    record {
      distinct = insert-IsMap k r s.records v.distinct;
      counted = ground arith;
      bytes = ground arith;
      few = ground (arith, length-insert-le k r s.records);
    }

-- What `put` does to a well-formed store: it returns, the store stays well formed, and a value that
-- is not too large is in it.
pub record Stored (now : ℕ) (k : NodeId) (value : Bytes) (ttl : ℕ) (r : Option Storage)
    : Type 0 where
  pub store' : Storage
  pub returns : r ≡ some store'
  pub valid : IsStorage store'
  pub holds :
      length value ≤ max_storage_bytes → Map.get k store'.records ≡ some (new_record now value ttl)

-- On a well-formed store (its byte count is the sum of its records, at most 64 MiB, and it has at
-- most 50 000 records) `put` ends, the store stays well formed, and a value of at most 64 MiB is
-- in it under its key.
pub put-IsStorage :
    (now : ℕ) (k : NodeId) (value : Bytes) (ttl : ℕ) (s : Storage)
    → IsStorage s
    → Stored now k value ttl (put now k value ttl s)
unfolding put store
put-IsStorage now k value ttl s v = elim (Bool-cases (ltb max_storage_bytes (length value))) [
  | inl e ↦
      rw (put, e)
        (record { store' = s; returns = refl; valid = v; holds = λ h. absurd (ground arith) })
  | inr e ↦
      let room =
        make_room-Emptied (suc (length s.records)) (length value) (remove k s).0
          (remove-IsStorage k s v) (ground arith) (length-remove_lt k s) in
      let gone = room.no_new k (get-remove_same k s) in
      record {
        store' = store now k value ttl room.store';
        returns = rw (put, e, room.returns) refl;
        valid = store-IsStorage now k value ttl room.store' room.valid gone room.room;
        holds =
            λ h. rw (get-insert k k (new_record now value ttl) room.store'.records, ==_refl k) refl;
      }
]

clear-IsStorage : (s : Storage) → IsStorage (clear s)
unfolding clear sizes
clear-IsStorage s = record { distinct = tt; counted = refl; bytes = omega arith; few = omega arith }

-- A record that is read is one whose time is not out.
abbrev pub unexpired : ℕ → Option Record → Option Record
unexpired now none = none
unexpired now (some r) = if is_expired now r then none else some r

-- `cleanup_stale` keeps a store well formed. Afterwards every key has the record that it had before
-- if that has not expired, and none otherwise; the result is the number of records removed.
pub cleanup_stale-IsStorage :
    (now : ℕ) (s : Storage) (k : NodeId)
    → IsStorage s
    → IsStorage (cleanup_stale now s).0
      × (Map.get k (cleanup_stale now s).0.records ≡ unexpired now (Map.get k s.records))
      × (length (cleanup_stale now s).0.records + (cleanup_stale now s).1 ≡ length s.records)
unfolding cleanup_stale
cleanup_stale-IsStorage now s k v =
    let live : NodeId → Record → Bool = λ k r. not (is_expired now r) in
    (
      record {
        distinct = retain-IsMap live s.records v.distinct;
        counted = refl;
        bytes = omega (arith, v.bytes, v.counted, sizes-retain-le live s.records);
        few = omega (arith, v.few, length-retain-le live s.records);
      },
      elim (Option-cases (Map.get k s.records)) [
        | inl e ↦ rw (e, get-retain-none live k s.records e) refl
        | inr (r, e) ↦
            rw (e, get-retain live k r s.records v.distinct e)
              (elim (Bool-cases (is_expired now r)) [ inl f ↦ rw f refl | inr f ↦ rw f refl ])
      ],
      omega (arith, length-retain-le live s.records),
    )
