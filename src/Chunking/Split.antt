-- ===== src/Chunking/Split.antt =====
-- Laws of `split_data` (nodex-kademlia/src/chunking.rs).
use node_x.Base.{
  subst, sym, ℕ, zero, suc, ◌+◌, ◌%◌, ◌≤◌, ◌<◌, ◌≡◌, refl, ap, max, none, some, List, [], ◌∷◌, ◌++◌,
  arith, length, take, drop, take-append-drop, length-take, length-drop,
}
use node_x.Base.Words.{Bytes}
use node_x.Chunking.Chunk.{
  UdpChunk, hex, datagram, to_bytes, split_from, split_data, chunks_needed, chunk_payload_size,
  max_udp_packet_size, chunk_of,
}
use node_x.Chunking.Format.{IsBinary, length-datagram}

abbrev pub raw_of : UdpChunk → Bytes
raw_of c = elim c.raw_data [ none ↦ [] | some raw ↦ raw ]

-- The payloads, one after the other.
abbrev pub joined : List UdpChunk → Bytes
joined [] = []
joined (c ∷ cs) = raw_of c ++ joined cs

module _ (compute_checksum : Bytes → ℕ) where
  -- One chunk of `n`, at place `i`: it fits a datagram, and a receiver takes it as valid.
  pub record IsPart (message_id : Bytes) (n i : ℕ) (c : UdpChunk) : Type 0 where
    pub binary : IsBinary c
    pub same_id : c.message_id ≡ message_id
    pub index : c.chunk_index ≡ i
    pub count : c.chunk_count ≡ n
    pub checksum : c.checksum ≡ compute_checksum (raw_of c)
    pub fits : (bytes : Bytes) × (to_bytes c ≡ some bytes) × (length bytes ≤ max_udp_packet_size)

  -- The chunks from place `i` on.
  abbrev pub AreParts : Bytes → ℕ → ℕ → List UdpChunk → Type 0
  AreParts message_id n i [] = Unit
  AreParts message_id n i (c ∷ cs) = IsPart message_id n i c × AreParts message_id n (suc i) cs

  pub record IsSplit (message_id : Bytes) (message : Bytes) (cs : List UdpChunk) : Type 0 where
    pub whole : joined cs ≡ message
    pub size : length cs ≡ max 1 (chunks_needed (length message))
    pub parts : AreParts message_id (length cs) 0 cs

module _ (compute_checksum : Bytes → ℕ)
    (in_range : (bytes : Bytes) → compute_checksum bytes < 4294967296) (message_id : Bytes)
    (id_length : length message_id ≡ 16) where
  part :
      (n i : ℕ) (bytes : Bytes)
      → n ≤ 256
      → i < n
      → length bytes ≤ chunk_payload_size
      → IsPart compute_checksum message_id n i (chunk_of compute_checksum message_id n i bytes)
  unfolding to_bytes
  part n i bytes few small short = record {
    binary = record {
      raw = bytes;
      has_raw = refl;
      has_hex = refl;
      id = id_length;
      index = omega arith;
      count = omega arith;
      sum = in_range bytes;
    };
    same_id = refl;
    index = omega arith;
    count = refl;
    checksum = refl;
    fits = (
      datagram (chunk_of compute_checksum message_id n i bytes) bytes,
      refl,
      omega
          (arith, length-datagram (chunk_of compute_checksum message_id n i bytes) bytes id_length),
    );
  }

  length-split_from :
      (fuel n i : ℕ) (bytes : Bytes)
      → length bytes ≤ fuel
      → length (split_from compute_checksum fuel message_id n i bytes)
        ≡ chunks_needed (length bytes)
  unfolding split_from
  length-split_from zero n i [] h = omega arith
  length-split_from zero n i (b ∷ bs) h = absurd (omega arith)
  length-split_from (suc fuel) n i [] h = omega arith
  length-split_from (suc fuel) n i (b ∷ bs) h = omega (
    arith,
    length-drop 499 bs,
    length-split_from fuel n (suc i) (drop 499 bs) (omega (arith, length-drop 499 bs)),
  )

  joined-split_from :
      (fuel n i : ℕ) (bytes : Bytes)
      → length bytes ≤ fuel
      → joined (split_from compute_checksum fuel message_id n i bytes) ≡ bytes
  unfolding split_from
  joined-split_from zero n i [] h = refl
  joined-split_from zero n i (b ∷ bs) h = absurd (omega arith)
  joined-split_from (suc fuel) n i [] h = refl
  joined-split_from (suc fuel) n i (b ∷ bs) h =
      rw (joined-split_from fuel n (suc i) (drop 499 bs) (omega (arith, length-drop 499 bs)))
        (ap (◌∷◌ b) (take-append-drop 499 bs))

  parts-split_from :
      (fuel n i : ℕ) (bytes : Bytes)
      → length bytes ≤ fuel
      → n ≤ 256
      → i + chunks_needed (length bytes) ≤ n
      → AreParts compute_checksum message_id n i
          (split_from compute_checksum fuel message_id n i bytes)
  unfolding split_from
  parts-split_from zero n i bytes h few room = tt
  parts-split_from (suc fuel) n i [] h few room = tt
  parts-split_from (suc fuel) n i (b ∷ bs) h few room = (
    part n i (b ∷ take 499 bs) few (omega arith) (omega (arith, length-take 499 bs)),
    parts-split_from fuel n (suc i) (drop 499 bs) (omega (arith, length-drop 499 bs)) few
        (omega (arith, length-drop 499 bs)),
  )

  -- A message of at most 128 000 bytes is split into one chunk per 500 bytes begun, at least one;
  -- their payloads make up the message in order, they are numbered from 0 with the right count and
  -- checksum, and each is written as a datagram of at most 1200 bytes.
  pub split_data-IsSplit :
      (message : Bytes)
      → length message ≤ 128000
      → IsSplit compute_checksum message_id message (split_data compute_checksum message_id message)
  unfolding split_data hex
  split_data-IsSplit [] h = record {
    whole = refl;
    size = refl;
    parts = (part 1 0 [] (omega arith) (omega arith) (omega arith), tt);
  }
  split_data-IsSplit (b ∷ bs) h =
      let n = chunks_needed (length (b ∷ bs)) in
      let few : n ≤ 256 = omega arith in
      let e : n % 65536 ≡ n = omega arith in
      let size = length-split_from (length (b ∷ bs)) n 0 (b ∷ bs) (omega arith) in
      rw e (record {
        whole = joined-split_from (length (b ∷ bs)) n 0 (b ∷ bs) (omega arith);
        size = omega (arith, size);
        parts =
            subst
              (λ k.
                AreParts compute_checksum message_id k 0
                  (split_from compute_checksum (length (b ∷ bs)) message_id n 0 (b ∷ bs)))
              (sym size)
              (parts-split_from (length (b ∷ bs)) n 0 (b ∷ bs) (omega arith) few (omega arith));
      })
