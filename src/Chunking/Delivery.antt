-- ===== src/Chunking/Delivery.antt =====
-- The arrival of chunks, one call of `add_chunk` after the other (nodex-kademlia/src/chunking.rs),
-- and the payloads that an assembly has.
pub mod AnyOrder
pub mod Whole
use node_x.Chunking.Assembler.Complete.{Below, full-get}
use node_x.Chunking.Assembler.{ChunkAssembler, assemble, add_chunk}
use node_x.Chunking.Split.{raw_of, joined}
use node_x.Chunking.Chunk.{UdpChunk}
use node_x.Net.{SocketAddr}
use node_x.Base.Map.{get, IsMap, AllValues, AllValues-get}
use node_x.Base.Words.{Bytes}
use node_x.Base.{
  ℕ, suc, ◌+◌, ◌<◌, ◌≡◌, ◌∙◌, refl, sym, subst, Option, some, none, List, [], ◌∷◌, length, map,
  get_elem?, nat_eq, arith,
}

module _ (compute_checksum : Bytes → ℕ) where
  -- Chunks from one address, each with its time, and the messages that come out.
  unfoldable pub arrive :
      SocketAddr → List (ℕ × UdpChunk) → ChunkAssembler → Option (ChunkAssembler × List Bytes)
  arrive src [] a = some (a, [])
  arrive src ((now, c) ∷ rest) a = elim (add_chunk compute_checksum now src c a) [
    | none ↦ none
    | some (a', none) ↦ arrive src rest a'
    | some (a', some message) ↦ elim (arrive src rest a') [
      | none ↦ none
      | some (a'', messages) ↦ some (a'', message ∷ messages)
    ]
  ]

module _ (cs : List UdpChunk) where
  -- The payload of the chunk at its place.
  abbrev pub IsPayload : ℕ → Bytes → Type 0
  IsPayload i part = get_elem? (map raw_of cs) i ≡ some part

-- The payloads of the chunks, from place `i` on.
assemble-held :
    (i : ℕ) (cs : List UdpChunk) (chunks : List (ℕ × Bytes))
    → ((j : ℕ) → j < length cs → get (i + j) chunks ≡ get_elem? (map raw_of cs) j)
    → assemble (length cs) i chunks ≡ some (joined cs)
unfolding assemble
assemble-held i [] chunks h = refl
assemble-held i (c ∷ cs) chunks h =
    let zeroth : i + 0 ≡ i = omega arith in
    let p : get i chunks ≡ some (raw_of c) =
      subst (λ (k : ℕ). get k chunks ≡ some (raw_of c)) zeroth (h 0 (omega arith)) in
    let rest = assemble-held (suc i) cs chunks (λ j lt.
      let next : i + suc j ≡ suc i + j = omega arith in
      subst (λ (k : ℕ). get k chunks ≡ get_elem? (map raw_of cs) j) next
        (h (suc j) (omega arith))) in
    rw (assemble, p, rest) refl

-- A complete assembly of the chunks gives their payloads in order.
pub assemble-joined :
    (cs : List UdpChunk) (chunks : List (ℕ × Bytes))
    → IsMap chunks
    → AllValues (Below (length cs)) chunks
    → AllValues (IsPayload cs) chunks
    → length chunks ≡ length cs
    → assemble (length cs) 0 chunks ≡ some (joined cs)
assemble-joined cs chunks v below payloads full = assemble-held 0 cs chunks (λ j lt.
    let (part, p) = full-get (length cs) j chunks v below full lt in
    let zeroth : 0 + j ≡ j = omega arith in
    rw zeroth (p ∙ sym (AllValues-get (IsPayload cs) j part chunks payloads p)))
