-- ===== src/Chunking/Assembler/Content.antt =====
-- What the assemblies hold, and what a complete one is made of (nodex-kademlia/src/chunking.rs).
use node_x.Chunking.Assembler.{
  is_bad_geometry, is_refused, AssemblyKey, PendingAssembly, ChunkAssembler, assemble, settle,
  accept, add_chunk, cleanup_expired,
}
use node_x.Chunking.Chunk.{UdpChunk, decode_payload}
use node_x.Net.{addr_eq, SocketAddr}
use node_x.Base.Map.{
  get, insert, AllValues, AllValues-insert, AllValues-remove, AllValues-get, AllValues-retain,
}
use node_x.Base.Words.{Bytes}
use node_x.Base.{
  true, ltb, ◌-◌, ◌&&◌, &&-true, append-nil, ℕ, ◌≡◌, ◌∙◌, subst, Option, some, none, List, [], ◌∷◌,
  length, nat_beq, nat_beq_iff, Bool-cases, Option-cases, inl, inr, list_eq, nat_eq, pair_eq,
}

module _ (P : AssemblyKey → ℕ → Bytes → Type 0) where
  abbrev pub Holds : AssemblyKey → PendingAssembly → Type 0
  Holds key v = AllValues (P key) v.chunks

  abbrev pub Content : ChunkAssembler → Type 0
  Content a = AllValues Holds a.pending

  -- The assemblies after a chunk; a message is put together from as many parts as the chunk says.
  pub record Kept (key : AssemblyKey) (n : ℕ) (r : ChunkAssembler × Option Bytes) : Type 0 where
    pub content : Content r.0
    pub made :
        (message : Bytes)
        → r.1 ≡ some message
        → (chunks : List (ℕ × Bytes)) × AllValues (P key) chunks
          × (assemble n 0 chunks ≡ some message)

  settle-Kept :
      (key : AssemblyKey) (v : PendingAssembly) (a : ChunkAssembler)
      → Holds key v
      → Content a
      → Kept key v.chunk_count (settle key v a)
  unfolding settle
  settle-Kept key v a h w =
      let pending = insert key v a.pending in
      let all = AllValues-insert Holds key v a.pending w h in
      elim (Bool-cases (nat_beq (length v.chunks) v.chunk_count)) [
        | inr e ↦ rw (settle, e) (record { content = all; made = λ m p. absurd (cc) })
        | inl e ↦ elim (Option-cases (assemble v.chunk_count 0 v.chunks)) [
          | inl q ↦ rw (settle, e, q) (record { content = all; made = λ m p. absurd (cc) })
          | inr (message, q) ↦
              rw (settle, e, q)
                (record {
                  content = AllValues-remove Holds key pending all;
                  made = λ m p. (v.chunks, h, q ∙ p);
                })
        ]
      ]

  accept-Kept :
      (now : ℕ) (key : AssemblyKey) (c : UdpChunk) (raw : Bytes) (a : ChunkAssembler)
      → P key c.chunk_index raw
      → Content a
      → Kept key c.chunk_count (accept now key c raw a)
  unfolding accept
  accept-Kept now key c raw a h w = elim (Option-cases (get key a.pending)) [
    | inl e ↦
        rw (accept, e)
          (settle-Kept key
            (record {
              chunks = insert c.chunk_index raw [];
              chunk_count = c.chunk_count;
              first_received = now;
            })
            a (h, tt) w)
    | inr (v, e) ↦ elim (Bool-cases (nat_beq v.chunk_count c.chunk_count)) [
      | inr f ↦ rw (accept, e, f) (record { content = w; made = λ m p. absurd (cc) })
      | inl f ↦
          let old = AllValues-get Holds key v a.pending w e in
          let same : v.chunk_count ≡ c.chunk_count =
            (nat_beq_iff v.chunk_count c.chunk_count).0 f in
          rw (accept, e, f)
            (subst
              (λ (n : ℕ).
                Kept key n (settle key (record v { chunks = insert c.chunk_index raw v.chunks }) a))
              same
              (settle-Kept key (record v { chunks = insert c.chunk_index raw v.chunks }) a
                (AllValues-insert (P key) c.chunk_index raw v.chunks old h) w))
    ]
  ]

  abbrev pub KeptBy : AssemblyKey → ℕ → Option (ChunkAssembler × Option Bytes) → Type 0
  KeptBy key n none = Unit
  KeptBy key n (some r) = Kept key n r

  silent : (key : AssemblyKey) (n : ℕ) (a : ChunkAssembler) → Content a → Kept key n (a, none)
  silent key n a w = record { content = w; made = λ m p. absurd (cc) }

  -- The only chunk of a message.
  only :
      (key : AssemblyKey) (n i : ℕ) (raw : Bytes) (a : ChunkAssembler)
      → (nat_beq n 1 && nat_beq i 0) ≡ true
      → P key i raw
      → Content a
      → Kept key n (a, some raw)
  unfolding assemble
  only key n i raw a e h w =
      let (p, q) = &&-true (nat_beq n 1) (nat_beq i 0) e in
      let one : n ≡ 1 = (nat_beq_iff n 1).0 p in
      let first : i ≡ 0 = (nat_beq_iff i 0).0 q in
      let h' : P key 0 raw = subst (λ (j : ℕ). P key j raw) first h in
      record { content = w; made = λ m r. ((0, raw) ∷ [], (h', tt), rw (one, append-nil raw) r) }

  -- A chunk with its payload, from anyone.
  pub add_chunk-Kept :
      (compute_checksum : Bytes → ℕ) (now : ℕ) (src : SocketAddr) (c : UdpChunk) (raw : Bytes)
      (a : ChunkAssembler)
      → c.raw_data ≡ some raw
      → P (src, c.message_id) c.chunk_index raw
      → Content a
      → KeptBy (src, c.message_id) c.chunk_count (add_chunk compute_checksum now src c a)
  unfolding add_chunk decode_payload cleanup_expired
  add_chunk-Kept crc now src c raw a has h w =
      let b = cleanup_expired now a in
      let key : AssemblyKey = (src, c.message_id) in
      let wb =
        AllValues-retain Holds (λ k v. ltb (now - v.first_received) a.reassembly_timeout) a.pending
          w in
      elim (Bool-cases (is_bad_geometry c)) [
        | inl g ↦ rw (add_chunk, g) (silent key c.chunk_count b wb)
        | inr g ↦ elim (Bool-cases (nat_beq (crc raw) c.checksum)) [
          | inr s ↦ rw (add_chunk, g, has, s) (silent key c.chunk_count b wb)
          | inl s ↦ elim (Bool-cases (nat_beq c.chunk_count 1 && nat_beq c.chunk_index 0)) [
            | inl o ↦
                rw (add_chunk, g, has, s, o) (only key c.chunk_count c.chunk_index raw b o h wb)
            | inr o ↦ elim (Bool-cases (is_refused key b)) [
              | inl r ↦ rw (add_chunk, g, has, s, o, r) (silent key c.chunk_count b wb)
              | inr r ↦ rw (add_chunk, g, has, s, o, r) (accept-Kept now key c raw b h wb)
            ]
          ]
        ]
      ]
