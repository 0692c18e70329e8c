-- ===== src/Chunking/Assembler/Limits.antt =====
-- The well-formed reassembly, and lemmas on its count per ip address
-- (nodex-kademlia/src/chunking.rs).
use node_x.Base.{
  ℕ, nat_eq, list_eq, pair_eq, if◌then◌else◌, ==→eq, suc, ◌≤◌, ◌<◌, ◌≡◌, refl, Bool, none, some,
  List, [], ◌∷◌, arith, length, Bool-cases, inl, inr, ◌==◌,
}
use node_x.Net.{IpAddr, ip_eq, addr_eq}
use node_x.Base.Map.{get, insert, remove, retain, IsMap, AllValues}
use node_x.Chunking.Assembler.{
  new, ChunkAssembler, PendingAssembly, AssemblyKey, per_ip_count, max_pending_assemblies,
  max_pending_per_ip, max_chunks_per_message,
}
use node_x.Chunking.Assembler.Complete.{Below}

-- An assembly that still waits for a chunk.
pub record IsIncomplete (v : PendingAssembly) : Type 0 where
  pub distinct : IsMap v.chunks
  pub below : AllValues (Below v.chunk_count) v.chunks
  pub waits : length v.chunks < v.chunk_count
  pub geometry : v.chunk_count ≤ max_chunks_per_message

abbrev pub Waits : AssemblyKey → PendingAssembly → Type 0
Waits key v = IsIncomplete v

pub record IsAssembler (a : ChunkAssembler) : Type 0 where
  pub distinct : IsMap a.pending
  pub few : length a.pending ≤ max_pending_assemblies
  pub few_per_ip : (ip : IpAddr) → per_ip_count ip a.pending ≤ max_pending_per_ip
  pub waiting : AllValues Waits a.pending

pub new-IsAssembler : (timeout : ℕ) → IsAssembler (new timeout)
unfolding new per_ip_count
new-IsAssembler timeout = record {
  distinct = tt;
  few = omega arith;
  few_per_ip = λ ip. omega arith;
  waiting = tt;
}

abbrev Pending : Type 0
Pending = List (AssemblyKey × PendingAssembly)

pub per_ip_count-retain :
    (ip : IpAddr) (p : AssemblyKey → PendingAssembly → Bool) (m : Pending)
    → per_ip_count ip (retain p m) ≤ per_ip_count ip m
unfolding per_ip_count
per_ip_count-retain ip p [] = omega arith
per_ip_count-retain ip p (((addr, id), v) ∷ m) = ground (arith, per_ip_count-retain ip p m)

pub per_ip_count-remove :
    (ip : IpAddr) (k : AssemblyKey) (m : Pending) → per_ip_count ip (remove k m) ≤ per_ip_count ip m
unfolding per_ip_count
per_ip_count-remove ip k [] = omega arith
per_ip_count-remove ip k (((addr, id), v) ∷ m) = ground (arith, per_ip_count-remove ip k m)

pub per_ip_count-insert_known :
    (ip : IpAddr) (k : AssemblyKey) (v w : PendingAssembly) (m : Pending)
    → get k m ≡ some w
    → per_ip_count ip (insert k v m) ≡ per_ip_count ip m
unfolding per_ip_count
per_ip_count-insert_known ip k v w [] h = absurd (cc)
per_ip_count-insert_known ip k v w (((addr, id), u) ∷ m) h = elim (Bool-cases ((addr, id) == k)) [
  | inl e ↦ let p : (addr, id) ≡ k = ==→eq e in rw e (rw (← p) refl)
  | inr e ↦ rw e (ground (arith, per_ip_count-insert_known ip k v w m))
]

pub per_ip_count-insert_new :
    (ip : IpAddr) (k : AssemblyKey) (v : PendingAssembly) (m : Pending)
    → get k m ≡ none
    → per_ip_count ip (insert k v m)
      ≡ (if k.0.ip == ip then suc (per_ip_count ip m) else per_ip_count ip m)
unfolding per_ip_count
per_ip_count-insert_new ip k v [] h = refl
per_ip_count-insert_new ip k v (((addr, id), u) ∷ m) h =
    ground (arith, per_ip_count-insert_new ip k v m)
