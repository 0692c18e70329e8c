-- ===== src/Chunking/Delivery/AnyOrder.antt =====
-- The chunks of a message in any order (nodex-kademlia/src/chunking.rs).
use node_x.Base.Outcome.{ok}
use node_x.Chunking.Assembler.Complete.{Below}
use node_x.Chunking.Assembler.{
  AssemblyKey, PendingAssembly, ChunkAssembler, assemble, add_chunk, settle, accept, is_refused,
  cleanup_expired, is_bad_geometry,
}
use node_x.Chunking.Delivery.{arrive, IsPayload, assemble-joined}
use node_x.Chunking.Split.{raw_of, joined, IsPart}
use node_x.Chunking.Chunk.{UdpChunk, decode_payload}
use node_x.Net.{SocketAddr, addr_eq}
use node_x.Base.Map.{
  contains_key, get-insert, retain-IsMap, get-retain, get, insert, remove, IsMap, AllValues,
  AllValues-insert, insert-IsMap, length-insert_absent, get-retain,
}
use node_x.Base.Words.{Bytes}
use node_x.Base.{
  ==_refl, get_elem?-lt, get_elem?-map, All, ◌≢◌, ==_ne, ap, Bool, ◌&&◌, ℕ, suc, ◌+◌, ◌-◌, ◌≤◌, ◌≡◌,
  ◌∙◌, refl, sym, subst, some, none, List, [], ◌∷◌, length, get_elem?, ltb, nat_beq, nat_beq_iff,
  true, false, list_eq, pair_eq, nat_eq, arith,
}
use node_x.Base.Distinct.{Distinct}

module _ (compute_checksum : Bytes → ℕ) (src : SocketAddr) (id : Bytes) (cs : List UdpChunk)
    (two : 2 ≤ length cs) (few : length cs ≤ 256) (timeout : ℕ) where
  abbrev n : ℕ
  n = length cs

  abbrev key : AssemblyKey
  key = (src, id)

  -- A chunk of the message, which arrives before the time is out.
  pub record IsFed (t0 : ℕ) (x : ℕ × UdpChunk) : Type 0 where
    pub placed : get_elem? cs x.1.chunk_index ≡ some x.1
    pub part : IsPart compute_checksum id n x.1.chunk_index x.1
    pub in_time : ltb (x.0 - t0) timeout ≡ true

  -- The chunks that an assembly has, with `left` still to come.
  record IsPartial (left : ℕ) (t0 : ℕ) (v : PendingAssembly) : Type 0 where
    count : v.chunk_count ≡ n
    since : v.first_received ≡ t0
    distinct : IsMap v.chunks
    below : AllValues (Below n) v.chunks
    payloads : AllValues (IsPayload cs) v.chunks
    size : length v.chunks + left ≡ n

  with_chunk-IsPartial :
      (left t0 : ℕ) (v : PendingAssembly) (x : ℕ × UdpChunk)
      → IsPartial (suc left) t0 v
      → IsFed t0 x
      → get x.1.chunk_index v.chunks ≡ none
      → IsPartial left t0 (record v { chunks = insert x.1.chunk_index (raw_of x.1) v.chunks })
  with_chunk-IsPartial left t0 v x w h new =
      let i = x.1.chunk_index in
      record {
        count = w.count;
        since = w.since;
        distinct = insert-IsMap i (raw_of x.1) v.chunks w.distinct;
        below =
            AllValues-insert (Below n) i (raw_of x.1) v.chunks w.below
              (get_elem?-lt cs i x.1 h.placed);
        payloads =
            AllValues-insert (IsPayload cs) i (raw_of x.1) v.chunks w.payloads
              (get_elem?-map raw_of cs i x.1 h.placed);
        size = omega (arith, w.size, length-insert_absent i (raw_of x.1) v.chunks new);
      }

  settle_complete :
      (t0 : ℕ) (v : PendingAssembly) (a : ChunkAssembler)
      → IsPartial 0 t0 v
      → settle key v a
        ≡ (record a { pending = remove key (insert key v a.pending) }, some (joined cs))
  unfolding settle
  settle_complete t0 v a w =
      let full : length v.chunks ≡ n = omega (arith, w.size) in
      let q : assemble v.chunk_count 0 v.chunks ≡ some (joined cs) =
        subst (λ (k : ℕ). assemble k 0 v.chunks ≡ some (joined cs)) (sym w.count)
          (assemble-joined cs v.chunks w.distinct w.below w.payloads full) in
      let e : nat_beq (length v.chunks) v.chunk_count ≡ true =
        (nat_beq_iff (length v.chunks) v.chunk_count).1 (full ∙ sym w.count) in
      rw (settle, e, q) refl

  settle-partial :
      (left t0 : ℕ) (v : PendingAssembly) (a : ChunkAssembler)
      → IsPartial (suc left) t0 v
      → settle key v a ≡ (record a { pending = insert key v a.pending }, none)
  unfolding settle
  settle-partial left t0 v a w =
      let e : nat_beq (length v.chunks) v.chunk_count ≡ false = ground (arith, w.size, w.count) in
      rw (settle, e) refl

  raw_of-some : (c : UdpChunk) {raw : Bytes} → c.raw_data ≡ some raw → c.raw_data ≡ some (raw_of c)
  raw_of-some c e = rw e refl

  -- A chunk of the message passes all tests but that of the room.
  add_chunk-accept :
      (t0 : ℕ) (x : ℕ × UdpChunk) (a : ChunkAssembler)
      → IsFed t0 x
      → is_refused key (cleanup_expired x.0 a) ≡ false
      → add_chunk compute_checksum x.0 src x.1 a
        ≡ some (accept x.0 key x.1 (raw_of x.1) (cleanup_expired x.0 a))
  unfolding add_chunk
  add_chunk-accept t0 x a h room =
      let c = x.1 in
      let raw = raw_of c in
      let b = cleanup_expired x.0 a in
      let small = get_elem?-lt cs c.chunk_index c h.placed in
      let count = h.part.count in
      let g : is_bad_geometry c ≡ false = ground arith in
      let has : c.raw_data ≡ some raw = raw_of-some c h.part.binary.has_raw in
      let d : decode_payload c ≡ ok raw = unfold decode_payload in rw has refl in
      let s : nat_beq (compute_checksum raw) c.checksum ≡ true =
        (nat_beq_iff (compute_checksum raw) c.checksum).1 (sym h.part.checksum) in
      let o : (nat_beq c.chunk_count 1 && nat_beq c.chunk_index 0) ≡ false = ground arith in
      let room' : is_refused (src, c.message_id) b ≡ false =
        subst (λ (m : Bytes). is_refused (src, m) b ≡ false) (sym h.part.same_id) room in
      subst
        (λ (m : Bytes). add_chunk compute_checksum x.0 src c a ≡ some (accept x.0 (src, m) c raw b))
        h.part.same_id (rw (add_chunk, g, d, s, o, room') refl)

  -- An assembly that waits for `left` chunks more.
  record IsWaiting (left t0 : ℕ) (v : PendingAssembly) (a : ChunkAssembler) : Type 0 where
    keys : IsMap a.pending
    limit : a.reassembly_timeout ≡ timeout
    stored : get key a.pending ≡ some v
    partial : IsPartial left t0 v

  -- Chunks still to come are not there yet.
  abbrev AreNew : PendingAssembly → List (ℕ × UdpChunk) → Type 0
  AreNew v xs = All (λ x. get x.1.chunk_index v.chunks ≡ none) xs

  after-AreNew :
      (v : PendingAssembly) (c : UdpChunk) (xs : List (ℕ × UdpChunk))
      → AreNew v xs
      → All (λ x. x.1.chunk_index ≢ c.chunk_index) xs
      → AreNew (record v { chunks = insert c.chunk_index (raw_of c) v.chunks }) xs
  after-AreNew v c [] h d = tt
  after-AreNew v c (x ∷ xs) h d = (
    rw
        (
          get-insert c.chunk_index x.1.chunk_index (raw_of c) v.chunks,
          ==_ne {a = c.chunk_index} {b = x.1.chunk_index} (λ p. d.0 (sym p)),
        )
        h.0,
    after-AreNew v c xs h.1 d.1,
  )

  -- The cleanup leaves the assembly, and its key is not refused.
  cleanup-IsWaiting :
      (left t0 now : ℕ) (v : PendingAssembly) (a : ChunkAssembler)
      → IsWaiting left t0 v a
      → ltb (now - t0) timeout ≡ true
      → IsWaiting left t0 v (cleanup_expired now a)
  unfolding cleanup_expired
  cleanup-IsWaiting left t0 now v a w h =
      let young : AssemblyKey → PendingAssembly → Bool =
        λ k u. ltb (now - u.first_received) a.reassembly_timeout in
      let kept : young key v ≡ true = ground (arith, w.limit, w.partial.since) in
      record {
        keys = retain-IsMap young a.pending w.keys;
        limit = w.limit;
        stored = rw (get-retain young key v a.pending w.keys w.stored, kept) refl;
        partial = w.partial;
      }

  waiting-accepted :
      (left t0 : ℕ) (v : PendingAssembly) (a : ChunkAssembler)
      → IsWaiting left t0 v a
      → is_refused key a ≡ false
  unfolding is_refused
  waiting-accepted left t0 v a w = rw (is_refused, contains_key, w.stored) refl

  accept-stored :
      (left t0 : ℕ) (v : PendingAssembly) (a : ChunkAssembler) (x : ℕ × UdpChunk)
      → IsWaiting left t0 v a
      → IsFed t0 x
      → accept x.0 key x.1 (raw_of x.1) a
        ≡ settle key (record v { chunks = insert x.1.chunk_index (raw_of x.1) v.chunks }) a
  unfolding accept
  accept-stored left t0 v a x w h =
      let same : nat_beq v.chunk_count x.1.chunk_count ≡ true =
        (nat_beq_iff v.chunk_count x.1.chunk_count).1 (w.partial.count ∙ sym h.part.count) in
      rw (accept, w.stored, same) refl

  cleaned-IsMap :
      (now : ℕ) (a : ChunkAssembler) → IsMap a.pending → IsMap (cleanup_expired now a).pending
  unfolding cleanup_expired
  cleaned-IsMap now a v =
      retain-IsMap (λ k u. ltb (now - u.first_received) a.reassembly_timeout) a.pending v

  -- One more chunk goes into the assembly.
  record IsStep (left t0 : ℕ) (v : PendingAssembly) (a : ChunkAssembler) (x : ℕ × UdpChunk)
      : Type 0 where
    cleaned : ChunkAssembler
    keys : IsMap cleaned.pending
    limit : cleaned.reassembly_timeout ≡ timeout
    partial : IsPartial left t0 (record v { chunks = insert x.1.chunk_index (raw_of x.1) v.chunks })
    accepted :
        add_chunk compute_checksum x.0 src x.1 a
        ≡ some (
            settle key (record v { chunks = insert x.1.chunk_index (raw_of x.1) v.chunks }) cleaned)

  waiting-IsStep :
      (left t0 : ℕ) (v : PendingAssembly) (a : ChunkAssembler) (x : ℕ × UdpChunk)
      → IsWaiting (suc left) t0 v a
      → IsFed t0 x
      → get x.1.chunk_index v.chunks ≡ none
      → IsStep left t0 v a x
  waiting-IsStep left t0 v a x w h new =
      let b = cleanup_expired x.0 a in
      let wb = cleanup-IsWaiting (suc left) t0 x.0 v a w h.in_time in
      let p = add_chunk-accept t0 x a h (waiting-accepted (suc left) t0 v b wb) in
      record {
        cleaned = b;
        keys = wb.keys;
        limit = wb.limit;
        partial = with_chunk-IsPartial left t0 v x wb.partial h new;
        accepted = p ∙ ap some (accept-stored (suc left) t0 v b x wb h);
      }

  stored-IsWaiting :
      (left t0 : ℕ) (v : PendingAssembly) (a : ChunkAssembler)
      → IsMap a.pending
      → a.reassembly_timeout ≡ timeout
      → IsPartial left t0 v
      → IsWaiting left t0 v (record a { pending = insert key v a.pending })
  stored-IsWaiting left t0 v a keys limit w = record {
    keys = insert-IsMap key v a.pending keys;
    limit = limit;
    stored = rw (get-insert key key v a.pending, ==_refl key) refl;
    partial = w;
  }

  -- The chunks still to come complete the assembly, in the order of their arrival.
  waiting-arrive :
      (t0 : ℕ) (v : PendingAssembly) (x : ℕ × UdpChunk) (xs : List (ℕ × UdpChunk))
      (a : ChunkAssembler)
      → IsWaiting (suc (length xs)) t0 v a
      → All (IsFed t0) (x ∷ xs)
      → AreNew v (x ∷ xs)
      → Distinct (λ y. y.1.chunk_index) (x ∷ xs)
      → (a' : ChunkAssembler) × (arrive compute_checksum src (x ∷ xs) a ≡ some (a', joined cs ∷ []))
  unfolding arrive
  waiting-arrive t0 v x [] a w h new d =
      let s = waiting-IsStep 0 t0 v a x w h.0 new.0 in
      let v' = record v { chunks = insert x.1.chunk_index (raw_of x.1) v.chunks } in
      (
        record (s.cleaned) { pending = remove key (insert key v' s.cleaned.pending) },
        rw (arrive, s.accepted ∙ ap some (settle_complete t0 v' s.cleaned s.partial)) refl,
      )
  waiting-arrive t0 v x (y ∷ ys) a w h new d =
      let s = waiting-IsStep (suc (length ys)) t0 v a x w h.0 new.0 in
      let v' = record v { chunks = insert x.1.chunk_index (raw_of x.1) v.chunks } in
      let a1 = record (s.cleaned) { pending = insert key v' s.cleaned.pending } in
      let (a', e) =
        waiting-arrive t0 v' y ys a1
          (stored-IsWaiting (suc (length ys)) t0 v' s.cleaned s.keys s.limit s.partial) h.1
          (after-AreNew v x.1 (y ∷ ys) new.1 d.0) d.1 in
      (
        a',
        rw (arrive, s.accepted ∙ ap some (settle-partial (length ys) t0 v' s.cleaned s.partial)) e,
      )

  -- The first chunk opens an assembly.
  pub first-arrive :
      (x y : ℕ × UdpChunk) (ys : List (ℕ × UdpChunk)) (a : ChunkAssembler)
      → IsMap a.pending
      → a.reassembly_timeout ≡ timeout
      → get key (cleanup_expired x.0 a).pending ≡ none
      → is_refused key (cleanup_expired x.0 a) ≡ false
      → length (x ∷ y ∷ ys) ≡ n
      → All (IsFed x.0) (x ∷ y ∷ ys)
      → Distinct (λ z. z.1.chunk_index) (x ∷ y ∷ ys)
      → (a' : ChunkAssembler) × (arrive compute_checksum src (x ∷ y ∷ ys) a
          ≡ some (a', joined cs ∷ []))
  unfolding arrive accept
  first-arrive x y ys a keys limit absent room size h d =
      let b = cleanup_expired x.0 a in
      let empty : PendingAssembly = record {
        chunks = [];
        chunk_count = x.1.chunk_count;
        first_received = x.0;
      } in
      let start : IsPartial (suc (suc (length ys))) x.0 empty = record {
        count = h.0.part.count;
        since = refl;
        distinct = tt;
        below = tt;
        payloads = tt;
        size = omega (arith, size);
      } in
      let v = record empty { chunks = insert x.1.chunk_index (raw_of x.1) [] } in
      let w : IsPartial (suc (length ys)) x.0 v =
        with_chunk-IsPartial (suc (length ys)) x.0 empty x start h.0 refl in
      let a1 = record b { pending = insert key v b.pending } in
      let p = add_chunk-accept x.0 x a h.0 room in
      let keys' = cleaned-IsMap x.0 a keys in
      let limit' : b.reassembly_timeout ≡ timeout = unfold cleanup_expired in limit in
      let (a', e) =
        waiting-arrive x.0 v y ys a1 (stored-IsWaiting (suc (length ys)) x.0 v b keys' limit' w) h.1
          (after-AreNew empty x.1 (y ∷ ys) (none-AreNew x.0 x.1.chunk_count (y ∷ ys)) d.0) d.1 in
      let q : accept x.0 key x.1 (raw_of x.1) b ≡ settle key v b = rw (accept, absent) refl in
      (a', rw (arrive, p ∙ ap some (q ∙ settle-partial (length ys) x.0 v b w)) e)
    where
      none-AreNew :
          (t k : ℕ) (zs : List (ℕ × UdpChunk))
          → AreNew (record { chunks = []; chunk_count = k; first_received = t }) zs
      none-AreNew t k [] = tt
      none-AreNew t k (z ∷ zs) = (refl, none-AreNew t k zs)
