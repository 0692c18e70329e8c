-- ===== src/Storage/Tests.antt =====
-- A concrete store for the laws of the storage.
use node_x.Storage.Put.{put-IsStorage, Stored, cleanup_stale-IsStorage}
use node_x.Base.{
  ◌&&◌, leb, not, filter, map, ◌+◌, ◌≡◌, refl, [], ◌∷◌, arith, length, replicate, list_eq, nat_eq,
}
use node_x.Base.Words.{Bytes}
use node_x.Net.{NodeId}
use node_x.Storage.{is_expired, Storage, put, cleanup_stale, get_keys_to_republish, sizes}
use node_x.Storage.Put.{unexpired}
use node_x.Base.Map.{get}
use node_x.Storage.Invariant.{IsStorage}
use node_x.Storage.Laws.{Readable, get-put, get_keys_to_republish-IsStorage}

abbrev key : NodeId
key = replicate 20 4

abbrev value : Bytes
value = 1 ∷ 2 ∷ 3 ∷ []

-- A record stored at time 10, for a minute.
abbrev store : Storage
store = record {
  records = (key, record { value = value; created_at = 10; ttl = 60; republish_at = 40 }) ∷ [];
  stored_bytes = 3;
}

store-IsStorage : IsStorage store
unfolding sizes
store-IsStorage = record {
  distinct = (refl, tt);
  counted = refl;
  bytes = omega arith;
  few = omega arith;
}

put-IsStorage_example : Stored 20 key value 60 (put 20 key value 60 store)
put-IsStorage_example = put-IsStorage 20 key value 60 store store-IsStorage

get-put_example : Readable 20 50 key value 60 (put 20 key value 60 store)
get-put_example = get-put 20 50 key value 60 store store-IsStorage (omega arith)

cleanup_stale-IsStorage_example :
    IsStorage (cleanup_stale 90 store).0
    × (get key (cleanup_stale 90 store).0.records ≡ unexpired 90 (get key store.records))
    × (length (cleanup_stale 90 store).0.records + (cleanup_stale 90 store).1 ≡ 1)
cleanup_stale-IsStorage_example = cleanup_stale-IsStorage 90 store key store-IsStorage

get_keys_to_republish-IsStorage_example :
    IsStorage (get_keys_to_republish 50 store).0
    × ((get_keys_to_republish 50 store).1
        ≡ map
            (λ x. (x.0, x.1.value))
            (filter (λ x. not (is_expired 50 x.1) && leb x.1.republish_at 50) store.records))
    × ((get_keys_to_republish 50 (get_keys_to_republish 50 store).0).1 ≡ [])
get_keys_to_republish-IsStorage_example = get_keys_to_republish-IsStorage 50 store store-IsStorage
