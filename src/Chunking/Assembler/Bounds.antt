-- ===== src/Chunking/Assembler/Bounds.antt =====
-- Laws of the reassembly (nodex-kademlia/src/chunking.rs).
use node_x.Chunking.Assembler.Limits.{
  Waits, IsAssembler, per_ip_count-retain, per_ip_count-remove, per_ip_count-insert_known,
  per_ip_count-insert_new,
}
use node_x.Base.{
  ◌-◌, nat_eq, list_eq, pair_eq, ==→eq, subst, ℕ, ◌≤◌, ◌<◌, ◌≡◌, refl, Bool, false, ◌&&◌, Option,
  none, some, [], arith, length, Bool-cases, Option-cases, inl, inr, nat_beq, ltb, ◌==◌,
}
use node_x.Base.Words.{Bytes}
use node_x.Net.{SocketAddr, IpAddr, ip_eq, addr_eq}
use node_x.Base.Map.{
  AllValues-retain, length-retain-le, retain-IsMap, AllValues-remove, remove-insert,
  AllValues-insert, length-remove-le, insert-IsMap, AllValues-get, length-insert_absent,
  length-insert_present, remove-IsMap, get, insert, contains_key, IsMap, AllValues,
}
use node_x.Chunking.Chunk.{UdpChunk, decode_payload}
use node_x.Chunking.Assembler.{
  ChunkAssembler, PendingAssembly, AssemblyKey, add_chunk, accept, settle, cleanup_expired,
  per_ip_count, is_refused, is_bad_geometry, max_pending_assemblies, max_pending_per_ip,
  max_chunks_per_message,
}
use node_x.Chunking.Assembler.Complete.{Below, length-le, full-assemble}

cleanup_expired-IsAssembler :
    (now : ℕ) (a : ChunkAssembler) → IsAssembler a → IsAssembler (cleanup_expired now a)
unfolding cleanup_expired
cleanup_expired-IsAssembler now a v =
    let live : AssemblyKey → PendingAssembly → Bool =
      λ k e. ltb (now - e.first_received) a.reassembly_timeout in
    record {
      distinct = retain-IsMap live a.pending v.distinct;
      few = omega (arith, v.few, length-retain-le live a.pending);
      few_per_ip = λ ip. omega (arith, v.few_per_ip ip, per_ip_count-retain ip live a.pending);
      waiting = AllValues-retain Waits live a.pending v.waiting;
    }

-- There is room for the entry of the key: it is known, or a new one is within the limits.
record HasRoom (key : AssemblyKey) (entry : PendingAssembly) (a : ChunkAssembler) : Type 0 where
  few : length (insert key entry a.pending) ≤ max_pending_assemblies
  few_per_ip : (ip : IpAddr) → per_ip_count ip (insert key entry a.pending) ≤ max_pending_per_ip

settle-IsAssembler :
    (key : AssemblyKey) (entry : PendingAssembly) (a : ChunkAssembler)
    → IsAssembler a
    → HasRoom key entry a
    → IsMap entry.chunks
    → AllValues (Below entry.chunk_count) entry.chunks
    → entry.chunk_count ≤ max_chunks_per_message
    → IsAssembler (settle key entry a).0
unfolding settle
settle-IsAssembler key entry a v room distinct below geometry =
    elim (Bool-cases (nat_beq (length entry.chunks) entry.chunk_count)) [
      | inl e ↦
          let (message, p) =
            full-assemble entry.chunk_count entry.chunks distinct below (ground arith) in
          rw (settle, e, p)
            (record {
              distinct =
                  remove-IsMap key (insert key entry a.pending)
                    (insert-IsMap key entry a.pending v.distinct);
              few = omega (arith, room.few, length-remove-le key (insert key entry a.pending));
              few_per_ip = λ ip. omega (
                arith,
                room.few_per_ip ip,
                per_ip_count-remove ip key (insert key entry a.pending),
              );
              waiting =
                  rw (remove-insert key entry a.pending)
                    (AllValues-remove Waits key a.pending v.waiting);
            })
      | inr e ↦
          let few : length entry.chunks ≤ entry.chunk_count =
            length-le entry.chunk_count entry.chunks distinct below in
          rw (settle, e)
            (record {
              distinct = insert-IsMap key entry a.pending v.distinct;
              few = room.few;
              few_per_ip = room.few_per_ip;
              waiting = AllValues-insert Waits key entry a.pending v.waiting (record {
                distinct = distinct;
                below = below;
                waits = ground arith;
                geometry = geometry;
              });
            })
    ]

known-HasRoom :
    (key : AssemblyKey) (entry old : PendingAssembly) (a : ChunkAssembler)
    → IsAssembler a
    → get key a.pending ≡ some old
    → HasRoom key entry a
known-HasRoom key entry old a v h = record {
  few = omega (arith, v.few, length-insert_present key entry old a.pending h);
  few_per_ip =
      λ ip. omega (arith, v.few_per_ip ip, per_ip_count-insert_known ip key entry old a.pending h);
}

new-HasRoom :
    (key : AssemblyKey) (entry : PendingAssembly) (a : ChunkAssembler)
    → IsAssembler a
    → get key a.pending ≡ none
    → is_refused key a ≡ false
    → HasRoom key entry a
unfolding is_refused
new-HasRoom key entry a v h r =
    let fresh : contains_key key a.pending ≡ false = rw (contains_key, h) refl in
    record {
      few = ground (arith, v.few, length-insert_absent key entry a.pending h);
      few_per_ip = λ ip. elim (Bool-cases (key.0.ip == ip)) [
        | inl e ↦
            let p : key.0.ip ≡ ip = ==→eq e in
            let below : per_ip_count key.0.ip a.pending < max_pending_per_ip = ground arith in
            let below' : per_ip_count ip a.pending < max_pending_per_ip =
              subst (λ i. per_ip_count i a.pending < max_pending_per_ip) p below in
            rw (per_ip_count-insert_new ip key entry a.pending h, e) below'
        | inr e ↦ rw (per_ip_count-insert_new ip key entry a.pending h, e) (v.few_per_ip ip)
      ];
    }

abbrev fresh : ℕ → UdpChunk → Bytes → PendingAssembly
fresh now c raw = record {
  chunks = insert c.chunk_index raw [];
  chunk_count = c.chunk_count;
  first_received = now;
}

accept-IsAssembler :
    (now : ℕ) (key : AssemblyKey) (c : UdpChunk) (raw : Bytes) (a : ChunkAssembler)
    → IsAssembler a
    → is_refused key a ≡ false
    → is_bad_geometry c ≡ false
    → IsAssembler (accept now key c raw a).0
unfolding accept
accept-IsAssembler now key c raw a v r g = elim (Option-cases (get key a.pending)) [
  | inl e ↦
      rw (accept, e)
        (settle-IsAssembler key (fresh now c raw) a v (new-HasRoom key (fresh now c raw) a v e r)
          (refl, tt) (ground arith, tt) (ground arith))
  | inr (old, e) ↦
      let w = AllValues-get Waits key old a.pending v.waiting e in
      elim (Bool-cases (nat_beq old.chunk_count c.chunk_count)) [
        | inr d ↦ rw (accept, e, d) v
        | inl d ↦
            rw (accept, e, d)
              (settle-IsAssembler key (record old { chunks = insert c.chunk_index raw old.chunks })
                a v
                (known-HasRoom key (record old { chunks = insert c.chunk_index raw old.chunks }) old
                  a v e)
                (insert-IsMap c.chunk_index raw old.chunks w.distinct)
                (AllValues-insert (Below old.chunk_count) c.chunk_index raw old.chunks w.below
                  (ground arith))
                w.geometry)
      ]
]

-- A call that returns, and leaves the reassembly within its limits.
pub record Handled (r : Option (ChunkAssembler × Option Bytes)) : Type 0 where
  pub after : ChunkAssembler
  pub message : Option Bytes
  pub returns : r ≡ some (after, message)
  pub valid : IsAssembler after

unchanged : (a : ChunkAssembler) (m : Option Bytes) → IsAssembler a → Handled (some (a, m))
unchanged a m v = record { after = a; message = m; returns = refl; valid = v }

-- A chunk as `from_bytes` makes it, from anyone and with any contents, is handled without a panic,
-- and afterwards there are at most 256 assemblies and at most 16 from one ip address, all of them
-- still waiting for a chunk: a complete one is never left behind.
pub add_chunk-IsAssembler :
    (compute_checksum : Bytes → ℕ) (now : ℕ) (src : SocketAddr) (c : UdpChunk) (raw : Bytes)
    (a : ChunkAssembler)
    → c.raw_data ≡ some raw
    → IsAssembler a
    → Handled (add_chunk compute_checksum now src c a)
unfolding add_chunk decode_payload
add_chunk-IsAssembler crc now src c raw a has v =
    let b = cleanup_expired now a in
    let vb = cleanup_expired-IsAssembler now a v in
    let key : AssemblyKey = (src, c.message_id) in
    elim (Bool-cases (is_bad_geometry c)) [
      | inl g ↦ rw (add_chunk, g) (unchanged b none vb)
      | inr g ↦ elim (Bool-cases (nat_beq (crc raw) c.checksum)) [
        | inr s ↦ rw (add_chunk, g, has, s) (unchanged b none vb)
        | inl s ↦ elim (Bool-cases (nat_beq c.chunk_count 1 && nat_beq c.chunk_index 0)) [
          | inl o ↦ rw (add_chunk, g, has, s, o) (unchanged b (some raw) vb)
          | inr o ↦ elim (Bool-cases (is_refused key b)) [
            | inl r ↦ rw (add_chunk, g, has, s, o, r) (unchanged b none vb)
            | inr r ↦
                rw (add_chunk, g, has, s, o, r)
                  (unchanged (accept now key c raw b).0 (accept now key c raw b).1
                    (accept-IsAssembler now key c raw b vb r g))
          ]
        ]
      ]
    ]
