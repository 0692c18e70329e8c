-- ===== src/Chunking/Tests.antt =====
-- Concrete chunks for the laws of chunking; the checksum is the sum of the bytes.
use node_x.Chunking.Delivery.Whole.{split_data-arrive}
use node_x.Chunking.Delivery.{arrive}
use node_x.Base.{
  ℕ, ◌+◌, ◌%◌, ◌<◌, ◌≡◌, refl, some, [], ◌∷◌, arith, length, replicate, length-replicate,
}
use node_x.Base.Words.{Bytes}
use node_x.Base.Outcome.{ok}
use node_x.Net.{SocketAddr, v4}
use node_x.Chunking.Chunk.{chunk_of, split_from, UdpChunk, hex, to_bytes, from_bytes, split_data}
use node_x.Chunking.Format.{IsBinary, from_bytes-to_bytes}
use node_x.Chunking.Split.{IsSplit, split_data-IsSplit}
use node_x.Chunking.Assembler.{
  new, cleanup_expired, is_refused, per_ip_count, ChunkAssembler, add_chunk,
}
use node_x.Chunking.Assembler.Limits.{new-IsAssembler, IsAssembler}
use node_x.Chunking.Assembler.Bounds.{Handled, add_chunk-IsAssembler}

abbrev sum : Bytes → ℕ
sum [] = 0
sum (b ∷ bs) = b + sum bs

abbrev checksum : Bytes → ℕ
checksum bytes = sum bytes % 4294967296

checksum-lt : (bytes : Bytes) → checksum bytes < 4294967296
checksum-lt bytes = omega arith

abbrev id : Bytes
id = replicate 16 5

id-length : length id ≡ 16
id-length = refl

abbrev chunk : UdpChunk
chunk = record {
  message_id = id;
  chunk_index = 0;
  chunk_count = 2;
  checksum = 6;
  payload_hex = hex (1 ∷ 2 ∷ 3 ∷ []);
  raw_data = some (1 ∷ 2 ∷ 3 ∷ []);
}

chunk-IsBinary : IsBinary chunk
chunk-IsBinary = record {
  raw = 1 ∷ 2 ∷ 3 ∷ [];
  has_raw = refl;
  has_hex = refl;
  id = id-length;
  index = omega arith;
  count = omega arith;
  sum = omega arith;
}

from_bytes-to_bytes_example :
    (bytes : Bytes) × (to_bytes chunk ≡ some bytes) × (from_bytes bytes ≡ ok chunk)
from_bytes-to_bytes_example = from_bytes-to_bytes chunk chunk-IsBinary

abbrev message : Bytes
message = replicate 600 65

split_data-IsSplit_example : IsSplit checksum id message (split_data checksum id message)
split_data-IsSplit_example =
    split_data-IsSplit checksum checksum-lt id id-length message
      (omega (arith, length-replicate {A = ℕ} 600 65))

abbrev sender : SocketAddr
sender = record { ip = v4 (10 ∷ 0 ∷ 0 ∷ 8 ∷ []); port = 4000 }

abbrev assembler : ChunkAssembler
assembler = record { pending = []; reassembly_timeout = 30 }

assembler-IsAssembler : IsAssembler assembler
unfolding per_ip_count
assembler-IsAssembler = record {
  distinct = tt;
  few = omega arith;
  few_per_ip = λ ip. omega arith;
  waiting = tt;
}

add_chunk-IsAssembler_example : Handled (add_chunk checksum 100 sender chunk assembler)
add_chunk-IsAssembler_example =
    add_chunk-IsAssembler checksum 100 sender chunk (1 ∷ 2 ∷ 3 ∷ []) assembler refl
      assembler-IsAssembler

abbrev first_chunk : UdpChunk
first_chunk = chunk_of checksum id 2 0 (replicate 500 65)

abbrev last_chunk : UdpChunk
last_chunk = chunk_of checksum id 2 1 (replicate 100 65)

-- The last chunk comes first.
split_data-arrive_example :
    (a' : ChunkAssembler) × (arrive checksum sender
        ((100, last_chunk) ∷ (101, first_chunk) ∷ [])
        (new 30)
      ≡ some (a', message ∷ []))
unfolding split_data split_from cleanup_expired is_refused new per_ip_count
split_data-arrive_example =
    split_data-arrive checksum id sender message (new 30) (100, last_chunk)
      ((101, first_chunk) ∷ []) checksum-lt id-length
      (omega (arith, length-replicate {A = ℕ} 600 65))
      (omega (arith, length-replicate {A = ℕ} 600 65)) (new-IsAssembler 30) refl refl refl
      (
        record { placed = refl; in_time = omega arith },
        (record { placed = refl; in_time = omega arith }, tt),
      )
      ((λ p. absurd (omega arith), tt), (tt, tt))
