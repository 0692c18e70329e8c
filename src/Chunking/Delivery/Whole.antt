-- ===== src/Chunking/Delivery/Whole.antt =====
-- A message from `split_data` to `add_chunk` (nodex-kademlia/src/chunking.rs).
use node_x.Chunking.Assembler.Limits.{IsAssembler}
use node_x.Chunking.Assembler.{ChunkAssembler, is_refused, cleanup_expired}
use node_x.Chunking.Delivery.AnyOrder.{IsFed, first-arrive}
use node_x.Chunking.Delivery.{arrive}
use node_x.Chunking.Split.{joined, IsPart, AreParts, split_data-IsSplit}
use node_x.Chunking.Chunk.{UdpChunk, split_data}
use node_x.Net.{SocketAddr, addr_eq}
use node_x.Base.Map.{get}
use node_x.Base.Words.{Bytes}
use node_x.Base.{
  ℕ, zero, suc, ◌+◌, ◌-◌, ◌≤◌, ◌<◌, ◌≡◌, refl, subst, some, none, false, List, [], ◌∷◌, All, length,
  get_elem?, lt→ltb, pair_eq, list_eq, nat_eq, arith,
}
use node_x.Base.Distinct.{Distinct}

-- One of the chunks, with a time of arrival that is in time.
pub record IsArrival (cs : List UdpChunk) (timeout t0 : ℕ) (x : ℕ × UdpChunk) : Type 0 where
  pub placed : get_elem? cs x.1.chunk_index ≡ some x.1
  pub in_time : x.0 - t0 < timeout

module _ (compute_checksum : Bytes → ℕ) (id : Bytes) where
  AreParts-get :
      (n i j : ℕ) (cs : List UdpChunk) (c : UdpChunk)
      → AreParts compute_checksum id n i cs
      → get_elem? cs j ≡ some c
      → IsPart compute_checksum id n (i + j) c
  AreParts-get n i j [] c p h = absurd (cc)
  AreParts-get n i zero (d ∷ cs) c p h =
      let e : d ≡ c = cc in
      let z : i + 0 ≡ i = omega arith in
      rw z (subst (λ (x : UdpChunk). IsPart compute_checksum id n i x) e p.0)
  AreParts-get n i (suc j) (d ∷ cs) c p h =
      let e : i + suc j ≡ suc i + j = omega arith in rw e (AreParts-get n (suc i) j cs c p.1 h)

  fed :
      (src : SocketAddr) (cs : List UdpChunk) (two : 2 ≤ length cs) (few : length cs ≤ 256)
      (timeout t0 : ℕ) (xs : List (ℕ × UdpChunk))
      → AreParts compute_checksum id (length cs) 0 cs
      → All (IsArrival cs timeout t0) xs
      → All (IsFed compute_checksum src id cs two few timeout t0) xs
  fed src cs two few timeout t0 [] p h = tt
  fed src cs two few timeout t0 (x ∷ xs) p h =
      let z : 0 + x.1.chunk_index ≡ x.1.chunk_index = omega arith in
      (
        record {
          placed = h.0.placed;
          part =
              subst (λ (i : ℕ). IsPart compute_checksum id (length cs) i x.1) z
                (AreParts-get (length cs) 0 x.1.chunk_index cs x.1 p h.0.placed);
          in_time = lt→ltb (x.0 - t0) timeout h.0.in_time;
        },
        fed src cs two few timeout t0 xs p h.1,
      )

  -- A message of more than 500 and at most 128 000 bytes gets through in whatever order its chunks
  -- arrive: where `split_data` makes `cs` of it, and all of `cs` arrive, each once and within the
  -- timeout after the first, at a well-formed assembler that has no assembly of the key and takes a
  -- new one, the message comes out whole, once, and no panic happens. The id has 16 bytes and the
  -- checksum 32 bits.
  pub split_data-arrive :
      (src : SocketAddr) (message : Bytes) (a : ChunkAssembler) (x : ℕ × UdpChunk)
      (xs : List (ℕ × UdpChunk))
      → ((bytes : Bytes) → compute_checksum bytes < 4294967296)
      → length id ≡ 16
      → 500 < length message
      → length message ≤ 128000
      → IsAssembler a
      → get (src, id) (cleanup_expired x.0 a).pending ≡ none
      → is_refused (src, id) (cleanup_expired x.0 a) ≡ false
      → length (x ∷ xs) ≡ length (split_data compute_checksum id message)
      → All (IsArrival (split_data compute_checksum id message) a.reassembly_timeout x.0) (x ∷ xs)
      → Distinct (λ y. y.1.chunk_index) (x ∷ xs)
      → (a' : ChunkAssembler) × (arrive compute_checksum src (x ∷ xs) a ≡ some (a', message ∷ []))
  split_data-arrive src message a x xs in_range sixteen long short v absent room size h d =
      let s = split_data-IsSplit compute_checksum in_range id sixteen message short in
      let cs = split_data compute_checksum id message in
      let two : 2 ≤ length cs = omega (arith, s.size) in
      let few : length cs ≤ 256 = omega (arith, s.size) in go xs two few s.parts s.whole size h d
    where
      go :
          (xs : List (ℕ × UdpChunk)) (two : 2 ≤ length (split_data compute_checksum id message))
          (few : length (split_data compute_checksum id message) ≤ 256)
          → AreParts compute_checksum id
              (length (split_data compute_checksum id message))
              0
              (split_data compute_checksum id message)
          → joined (split_data compute_checksum id message) ≡ message
          → length (x ∷ xs) ≡ length (split_data compute_checksum id message)
          → All
              (IsArrival (split_data compute_checksum id message) a.reassembly_timeout x.0)
              (x ∷ xs)
          → Distinct (λ y. y.1.chunk_index) (x ∷ xs)
          → (a' : ChunkAssembler) × (arrive compute_checksum src (x ∷ xs) a
              ≡ some (a', message ∷ []))
      go [] two few parts whole size h d = absurd (omega (arith, two, size))
      go (y ∷ ys) two few parts whole size h d =
          let cs = split_data compute_checksum id message in
          let t = a.reassembly_timeout in
          subst
            (λ (m : Bytes).
              (a' : ChunkAssembler) × (arrive compute_checksum src (x ∷ y ∷ ys) a
                ≡ some (a', m ∷ [])))
            whole
            (first-arrive compute_checksum src id cs two few t x y ys a v.distinct refl absent room
              size (fed src cs two few t x.0 (x ∷ y ∷ ys) parts h) d)
