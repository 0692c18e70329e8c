-- ===== src/Storage.antt =====
-- `Storage` of nodex-kademlia/src/storage.rs: the records that a node keeps for the network. Times
-- are seconds on the clock of `Instant`; `usize` has 64 bits.
pub mod Invariant
pub mod Put
pub mod Laws
mod Tests
use node_x.Base.{
  ℕ, zero, suc, ◌+◌, ◌-◌, ◌*◌, ◌^◌, min, Bool, true, false, not, ◌&&◌, ◌||◌, Option, none, some,
  List, [], ◌∷◌, length, ltb, leb, if◌then◌else◌, ◌==◌, list_eq, nat_eq,
}
use node_x.Base.Words.{Bytes}
use node_x.Base.Map
use node_x.Base.Map.{insert, retain}
use node_x.Net.{NodeId}

abbrev pub republish_interval : ℕ
republish_interval = 3600

abbrev pub max_storage_bytes : ℕ
max_storage_bytes = 67108864

abbrev pub max_storage_records : ℕ
max_storage_records = 50000

abbrev pub saturating_add : ℕ → ℕ → ℕ
saturating_add a b = min (a + b) 18446744073709551615

pub record Record : Type 0 where
  pub value : Bytes
  pub created_at : ℕ
  pub ttl : ℕ
  pub republish_at : ℕ

unfoldable pub new_record : ℕ → Bytes → ℕ → Record
new_record now value ttl = record {
  value = value;
  created_at = now;
  ttl = ttl;
  republish_at = now + republish_interval;
}

unfoldable pub is_expired : ℕ → Record → Bool
is_expired now r = ltb r.ttl (now - r.created_at)

pub record Storage : Type 0 where
  pub records : List (NodeId × Record)
  pub stored_bytes : ℕ

unfoldable pub new : Storage
new = record { records = []; stored_bytes = 0 }

unfoldable pub remove : NodeId → Storage → Storage × Option Record
remove key s = elim (Map.get key s.records) [
  | none ↦ (s, none)
  | some r ↦ (
    record { records = Map.remove key s.records; stored_bytes = s.stored_bytes - length r.value },
    some r,
  )
]

-- `min_by_key(created_at)`: the first of the oldest.
unfoldable pub oldest_key : List (NodeId × Record) → Option (NodeId × Record)
oldest_key [] = none
oldest_key ((k, r) ∷ m) = elim (oldest_key m) [
  | none ↦ some (k, r)
  | some (j, o) ↦ if leb r.created_at o.created_at then some (k, r) else some (j, o)
]

unfoldable pub has_no_room : ℕ → Storage → Bool
has_no_room size s =
    ltb max_storage_bytes (saturating_add s.stored_bytes size)
    || leb max_storage_records (length s.records)

-- The eviction loop, by at most so many rounds; `none` when they do not suffice.
unfoldable pub make_room : ℕ → ℕ → Storage → Option Storage
unfolding has_no_room oldest_key remove
make_room zero size s = none
make_room (suc fuel) size s = elim (has_no_room size s) [
  | false ↦ some s
  | true ↦ elim (oldest_key s.records) [
    | none ↦ some s
    | some (key, r) ↦ make_room fuel size (remove key s).0
  ]
]

unfoldable pub store : ℕ → NodeId → Bytes → ℕ → Storage → Storage
unfolding new_record
store now key value ttl s = record {
  records = insert key (new_record now value ttl) s.records;
  stored_bytes = saturating_add s.stored_bytes (length value);
}

-- A round more than there are records is enough for the loop.
unfoldable pub put : ℕ → NodeId → Bytes → ℕ → Storage → Option Storage
unfolding remove make_room store
put now key value ttl s =
    if ltb max_storage_bytes (length value)
    then some s
    else elim (make_room (suc (length s.records)) (length value) (remove key s).0) [
      | none ↦ none
      | some s' ↦ some (store now key value ttl s')
    ]

unfoldable pub get : ℕ → NodeId → Storage → Option Bytes
unfolding is_expired
get now key s = elim (Map.get key s.records) [
  | none ↦ none
  | some r ↦ if not (is_expired now r) then some r.value else none
]

unfoldable pub sizes : List (NodeId × Record) → ℕ
sizes [] = 0
sizes ((k, r) ∷ m) = length r.value + sizes m

-- Nothing calls it.
unfoldable pub clear : Storage → Storage
clear s = record { records = []; stored_bytes = 0 }

unfoldable pub cleanup_stale : ℕ → Storage → Storage × ℕ
unfolding is_expired sizes
cleanup_stale now s =
    let kept = retain (λ k r. not (is_expired now r)) s.records in
    (record { records = kept; stored_bytes = sizes kept }, length s.records - length kept)

abbrev pub is_due : ℕ → Record → Bool
is_due now r = not (is_expired now r) && leb r.republish_at now

unfoldable pub republish :
    ℕ → List (NodeId × Record) → List (NodeId × Record) × List (NodeId × Bytes)
unfolding is_expired
republish now [] = ([], [])
republish now ((k, r) ∷ m) =
    let rest = republish now m in
    if is_due now r
    then ((k, record r { republish_at = now + republish_interval }) ∷ rest.0, (k, r.value) ∷ rest.1)
    else ((k, r) ∷ rest.0, rest.1)

unfoldable pub get_keys_to_republish : ℕ → Storage → Storage × List (NodeId × Bytes)
unfolding republish
get_keys_to_republish now s =
    (record s { records = (republish now s.records).0 }, (republish now s.records).1)
