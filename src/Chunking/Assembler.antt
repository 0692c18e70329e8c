-- ===== src/Chunking/Assembler.antt =====
-- `ChunkAssembler` of nodex-kademlia/src/chunking.rs. Times are on the clock of `Instant`.
pub mod Bounds
pub mod Limits
pub mod Complete
pub mod Content
use node_x.Base.{
  ℕ, zero, suc, ◌+◌, ◌-◌, Bool, true, false, not, ◌&&◌, ◌||◌, Option, none, some, List, [], ◌∷◌,
  ◌++◌, length, filter, nat_beq, ltb, leb, if◌then◌else◌, ◌==◌, list_eq, nat_eq, pair_eq,
}
use node_x.Base.Words.{Bytes}
use node_x.Base.Outcome.{Outcome, ok, err, panic}
use node_x.Base.Map.{get, insert, remove, retain, contains_key}
use node_x.Net.{ip_eq, addr_eq, SocketAddr, IpAddr}
use node_x.Chunking.Chunk.{UdpChunk, decode_payload}

abbrev pub max_chunks_per_message : ℕ
max_chunks_per_message = 256

abbrev pub max_pending_assemblies : ℕ
max_pending_assemblies = 256

abbrev pub max_pending_per_ip : ℕ
max_pending_per_ip = 16

pub record PendingAssembly : Type 0 where
  pub chunks : List (ℕ × Bytes)
  pub chunk_count : ℕ
  pub first_received : ℕ

abbrev pub AssemblyKey : Type 0
AssemblyKey = SocketAddr × Bytes

pub record ChunkAssembler : Type 0 where
  pub pending : List (AssemblyKey × PendingAssembly)
  pub reassembly_timeout : ℕ

unfoldable pub new : ℕ → ChunkAssembler
new timeout = record { pending = []; reassembly_timeout = timeout }

unfoldable pub cleanup_expired : ℕ → ChunkAssembler → ChunkAssembler
cleanup_expired now a = record a {
  pending = retain (λ k v. ltb (now - v.first_received) a.reassembly_timeout) a.pending;
}

-- `pending.keys().filter(|(addr, _)| addr.ip() == ip).count()`
unfoldable pub per_ip_count : IpAddr → List (AssemblyKey × PendingAssembly) → ℕ
per_ip_count ip [] = 0
per_ip_count ip (((addr, id), v) ∷ m) =
    let rest = per_ip_count ip m in if addr.ip == ip then suc rest else rest

-- `for i in 0..n { assembled.extend_from_slice(chunks.get(&i)?) }`, from index `i` on.
unfoldable pub assemble : ℕ → ℕ → List (ℕ × Bytes) → Option Bytes
assemble zero i chunks = some []
assemble (suc n) i chunks = elim (get i chunks) [
  | none ↦ none
  | some part ↦ elim (assemble n (suc i) chunks) [ none ↦ none | some rest ↦ some (part ++ rest) ]
]

-- The entry with its new chunk goes back, or out when it is complete.
unfoldable pub settle :
    AssemblyKey → PendingAssembly → ChunkAssembler → ChunkAssembler × Option Bytes
unfolding assemble
settle key entry a =
    let pending = insert key entry a.pending in
    if nat_beq (length entry.chunks) entry.chunk_count
    then elim (assemble entry.chunk_count 0 entry.chunks) [
      | none ↦ (record a { pending = pending }, none)
      | some assembled ↦ (record a { pending = remove key pending }, some assembled)
    ]
    else (record a { pending = pending }, none)

-- From `or_insert_with` on. A new entry has the chunk's count.
unfoldable pub accept :
    ℕ → AssemblyKey → UdpChunk → Bytes → ChunkAssembler → ChunkAssembler × Option Bytes
unfolding settle
accept now key c raw a = elim (get key a.pending) [
  | none ↦
      settle key
        (record {
          chunks = insert c.chunk_index raw [];
          chunk_count = c.chunk_count;
          first_received = now;
        })
        a
  | some entry ↦
      if not (nat_beq entry.chunk_count c.chunk_count)
      then (a, none)
      else settle key (record entry { chunks = insert c.chunk_index raw entry.chunks }) a
]

-- The limits on new assemblies.
unfoldable pub is_refused : AssemblyKey → ChunkAssembler → Bool
unfolding per_ip_count
is_refused key a =
    not (contains_key key a.pending)
    && (leb max_pending_assemblies (length a.pending)
        || leb max_pending_per_ip (per_ip_count key.0.ip a.pending))

abbrev pub is_bad_geometry : UdpChunk → Bool
is_bad_geometry c =
    nat_beq c.chunk_count 0
    || (ltb max_chunks_per_message c.chunk_count || leb c.chunk_count c.chunk_index)

module _ (compute_checksum : Bytes → ℕ) where
  -- `none` is a panic of `decode_payload`.
  unfoldable pub add_chunk :
      ℕ → SocketAddr → UdpChunk → ChunkAssembler → Option (ChunkAssembler × Option Bytes)
  unfolding cleanup_expired is_refused accept
  add_chunk now src_addr c a0 =
      let a = cleanup_expired now a0 in
      let key : AssemblyKey = (src_addr, c.message_id) in
      if is_bad_geometry c then some (a, none) else elim (decode_payload c) [
        | panic ↦ none
        | err e ↦ some (a, none)
        | ok raw ↦
            if not (nat_beq (compute_checksum raw) c.checksum)
            then some (a, none)
            else if nat_beq c.chunk_count 1 && nat_beq c.chunk_index 0
            then some (a, some raw)
            else if is_refused key a
            then some (a, none)
            else some (accept now key c raw a)
      ]
