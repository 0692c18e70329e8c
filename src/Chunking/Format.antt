-- ===== src/Chunking/Format.antt =====
-- Laws of the binary form of a chunk (nodex-kademlia/src/chunking.rs).
use node_x.Base.{
  zero, suc, ℕ, ◌+◌, ◌<◌, ◌≡◌, refl, false, some, [], ◌∷◌, ◌++◌, arith, length, length-append, drop,
  take-append_length, ltb, ltb-false,
}
use node_x.Base.Words.{Bytes, to_be_bytes, from_be_bytes-to_be_bytes}
use node_x.Base.Outcome.{ok}
use node_x.Chunking.Chunk.{slice, UdpChunk, hex, datagram, to_bytes, from_bytes}

-- A chunk with its payload, whose fields are in the range of their types.
pub record IsBinary (c : UdpChunk) : Type 0 where
  pub raw : Bytes
  pub has_raw : c.raw_data ≡ some raw
  pub has_hex : c.payload_hex ≡ hex raw
  pub id : length c.message_id ≡ 16
  pub index : c.chunk_index < 65536
  pub count : c.chunk_count < 65536
  pub sum : c.checksum < 4294967296

pub drop-append_more : (xs ys : Bytes) (n k : ℕ) → n ≡ length xs + k → drop n (xs ++ ys) ≡ drop k ys
drop-append_more [] ys n k h = let e : n ≡ k = omega arith in rw e refl
drop-append_more (x ∷ xs) ys zero k h = absurd (omega arith)
drop-append_more (x ∷ xs) ys (suc n) k h = drop-append_more xs ys n k (omega arith)

-- What follows the id.
abbrev fields : UdpChunk → Bytes → Bytes
fields c raw =
    to_be_bytes 2 c.chunk_index
    ++ (to_be_bytes 2 c.chunk_count ++ (to_be_bytes 4 c.checksum ++ raw))

length-fields : (c : UdpChunk) (raw : Bytes) → length (fields c raw) ≡ 8 + length raw
unfolding to_be_bytes
length-fields c raw = omega arith

pub length-datagram :
    (c : UdpChunk) (raw : Bytes)
    → length c.message_id ≡ 16
    → length (datagram c raw) ≡ 28 + length raw
length-datagram c raw h =
    omega (arith, h, length-append c.message_id (fields c raw), length-fields c raw)

module _ (c : UdpChunk) (raw : Bytes) (h : length c.message_id ≡ 16) where
  index_bytes : slice 20 22 (datagram c raw) ≡ to_be_bytes 2 c.chunk_index
  unfolding to_be_bytes
  index_bytes = rw (drop-append_more c.message_id (fields c raw) 16 0 (omega (arith, h))) refl

  count_bytes : slice 22 24 (datagram c raw) ≡ to_be_bytes 2 c.chunk_count
  unfolding to_be_bytes
  count_bytes = rw (drop-append_more c.message_id (fields c raw) 18 2 (omega (arith, h))) refl

  sum_bytes : slice 24 28 (datagram c raw) ≡ to_be_bytes 4 c.checksum
  unfolding to_be_bytes
  sum_bytes = rw (drop-append_more c.message_id (fields c raw) 20 4 (omega (arith, h))) refl

  raw_bytes : drop 28 (datagram c raw) ≡ raw
  unfolding to_be_bytes
  raw_bytes = rw (drop-append_more c.message_id (fields c raw) 24 8 (omega (arith, h))) refl

  id_bytes : slice 4 20 (datagram c raw) ≡ c.message_id
  id_bytes = take-append_length c.message_id (fields c raw) 16 (omega (arith, h))

-- A chunk with its payload, whose fields are in the range of their types, is written as a datagram
-- that `from_bytes` reads back.
pub from_bytes-to_bytes :
    (c : UdpChunk)
    → IsBinary c
    → (bytes : Bytes) × (to_bytes c ≡ some bytes) × (from_bytes bytes ≡ ok c)
unfolding to_bytes from_bytes
from_bytes-to_bytes c v =
    let wire = datagram c v.raw in
    let long : ltb (length wire) 28 ≡ false =
      ltb-false (length wire) 28 (omega (arith, length-datagram c v.raw v.id)) in
    (
      wire,
      rw (to_bytes, v.has_raw) refl,
      rw
          (
            from_bytes,
            long,
            id_bytes c v.raw v.id,
            index_bytes c v.raw v.id,
            count_bytes c v.raw v.id,
            sum_bytes c v.raw v.id,
            raw_bytes c v.raw v.id,
            from_be_bytes-to_be_bytes 2 c.chunk_index v.index,
            from_be_bytes-to_be_bytes 2 c.chunk_count v.count,
            from_be_bytes-to_be_bytes 4 c.checksum v.sum,
            ← v.has_raw,
            ← v.has_hex,
          )
          refl,
    )
