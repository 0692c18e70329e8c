-- ===== src/Manager/Receive.antt =====
-- One round of the receive loop (nodex-kademlia/src/rpc.rs).
use node_x.Manager.{
  Manager, Received, to_messenger, probe, settle, dispatch, decode_and_dispatch, receive_chunk,
  receive, voice_magic,
}
use node_x.Manager.Safety.{
  IsBytePart, IsManager, IsDue, IsEnded, call_of, decoded, IsReceived, quiet, probe-IsProbed,
  settle-IsSettled,
}
use node_x.Rpc.Sendable.{IsSendableMessage}
use node_x.Rpc.Safety.{decode-IsSendableMessage}
use node_x.Rpc.Convert.{decode, Result}
use node_x.Rpc.Payload.{RpcMessage}
use node_x.Routing.Table.Laws.{update-IsTable}
use node_x.Chunking.Assembler.Bounds.{add_chunk-IsAssembler}
use node_x.Chunking.Assembler.Content.{KeptBy, add_chunk-Kept}
use node_x.Chunking.Assembler.{AssemblyKey, ChunkAssembler, assemble, add_chunk}
use node_x.Chunking.Chunk.{
  chunk_in, ChunkError, too_short, invalid_magic, binary_header_size, UdpChunk, from_bytes,
  binary_magic,
}
use node_x.Net.{SocketAddr, new_contact}
use node_x.Base.Map.{get, AllValues, AllValues-get}
use node_x.Base.Outcome.{ok, err, panic, Ensures}
use node_x.Base.Words.{Bytes, IsByte}
use node_x.Base.{
  All-drop, ltb, length, ◌⊎◌, ℕ, zero, suc, ◌≡◌, refl, subst, Option, some, none, List, [], ◌++◌,
  All, All-append, take, drop, if◌then◌else◌, Bool-cases, Option-cases, inl, inr, ◌==◌, list_eq,
  nat_eq, arith,
}

-- A list of parts put together is made of the parts.
assemble-All :
    (n i : ℕ) (key : AssemblyKey) (chunks : List (ℕ × Bytes)) (message : Bytes)
    → AllValues (IsBytePart key) chunks
    → assemble n i chunks ≡ some message
    → All IsByte message
unfolding assemble
assemble-All zero i key chunks message h e =
    let p : [] ≡ message = ground arith in subst (All IsByte) p tt
assemble-All (suc n) i key chunks message h e = elim (Option-cases (get i chunks)) [
  | inl p ↦ absurd (let q = rw (assemble, p) at e in cc)
  | inr (part, p) ↦ elim (Option-cases (assemble n (suc i) chunks)) [
    | inl q ↦ absurd (let r = rw (assemble, p, q) at e in cc)
    | inr (rest, q) ↦
        let r : some (part ++ rest) ≡ some message = rw (assemble, p, q) at e in
        let r' : part ++ rest ≡ message = cc in
        subst (All IsByte) r' (
          All-append IsByte part rest (AllValues-get (IsBytePart key) i part chunks h p)
            (assemble-All n (suc i) key chunks rest h q))
  ]
]

from_bytes-cases :
    (bytes : Bytes)
    → ((e : ChunkError) × (from_bytes bytes ≡ err e))
      ⊎ ((c : UdpChunk) × (from_bytes bytes ≡ ok c)
          × (c.raw_data ≡ some (drop binary_header_size bytes)))
unfolding from_bytes
from_bytes-cases bytes = elim (Bool-cases (ltb (length bytes) binary_header_size)) [
  | inl e ↦ inl (too_short, rw (from_bytes, e) refl)
  | inr e ↦ elim (Bool-cases (take 4 bytes == binary_magic)) [
    | inr f ↦ inl (invalid_magic, rw (from_bytes, e, f) refl)
    | inl f ↦ inr (chunk_in bytes, rw (from_bytes, e, f) refl, refl)
  ]
]

-- The bytes that a datagram completes: its own, or those of the chunks it is the last of.
abbrev pub completed : (Bytes → ℕ) → ℕ → SocketAddr → UdpChunk → ChunkAssembler → Option Bytes
completed compute_checksum now src c a = elim (add_chunk compute_checksum now src c a) [
  | none ↦ none
  | some (a', o) ↦ o
]

abbrev pub payload : (Bytes → ℕ) → ℕ → SocketAddr → Bytes → ChunkAssembler → Option Bytes
payload compute_checksum now src bytes a =
    if take 4 bytes == voice_magic
    then none
    else if take 4 bytes == binary_magic
    then elim (from_bytes bytes) [
      | ok c ↦ completed compute_checksum now src c a
      | err e ↦ none
      | panic ↦ none
    ]
    else some bytes

abbrev pub decoded? : ℕ → Option Bytes → Option RpcMessage
decoded? now none = none
decoded? now (some bytes) = decoded now bytes

module _ (now : ℕ) (src : SocketAddr) where
  dispatch-IsReceived :
      (msg : RpcMessage) (m : Manager)
      → IsManager m
      → IsSendableMessage now msg
      → IsReceived now src m (some msg) (dispatch now src msg m)
  unfolding dispatch
  dispatch-IsReceived msg m v s =
      let contact = new_contact now msg.sender_id src in
      let t = update-IsTable m.table contact v.table in
      let m1 = record m { table = t.table } in
      let v1 : IsManager m1 = record {
        assembler = v.assembler;
        bytes = v.bytes;
        table = t.valid;
        tasks = v.tasks;
      } in
      let p = probe-IsProbed m1 t.result contact v1 in
      let probed = probe m1 t.result contact in
      let q = settle-IsSettled now src msg probed.0 p.valid s in
      rw (dispatch, t.returns)
        (record {
          after = (settle src msg probed.0).0;
          probe' = probed.1;
          effect = (settle src msg probed.0).1;
          returns = refl;
          valid = q.valid;
          due =
              subst
                (λ (l : List (ℕ × (SocketAddr × ℕ))). IsDue now src l (settle src msg probed.0).1)
                p.same q.due;
          calls =
              subst
                (λ (l : List (ℕ × (SocketAddr × ℕ))).
                  IsEnded src l (call_of (some msg) l) (settle src msg probed.0).0.pending
                    (settle src msg probed.0).1)
                p.same q.calls;
        })

  decode_and_dispatch-IsReceived :
      (bytes : Bytes) (m : Manager)
      → IsManager m
      → All IsByte bytes
      → IsReceived now src m (decoded now bytes) (decode_and_dispatch now src bytes m)
  unfolding decode_and_dispatch
  decode_and_dispatch-IsReceived bytes m v h =
      go (decode now bytes) refl (decode-IsSendableMessage now bytes h)
    where
      go :
          (r : Result RpcMessage)
          → decode now bytes ≡ r
          → Ensures (IsSendableMessage now) r
          → IsReceived now src m (decoded now bytes) (decode_and_dispatch now src bytes m)
      go (ok msg) e s = rw (decode_and_dispatch, decoded, e) (dispatch-IsReceived msg m v s)
      go (err x) e s = rw (decode_and_dispatch, decoded, e) (quiet now src m v)
      go panic e s = absurd s

  -- The assembler has no part in what is due.
  after_chunk :
      (m : Manager) (a : ChunkAssembler) {o : Option RpcMessage} {r : Option Received}
      → IsReceived now src (record m { assembler = a }) o r
      → IsReceived now src m o r
  after_chunk m a x = record {
    after = x.after;
    probe' = x.probe';
    effect = x.effect;
    returns = x.returns;
    valid = x.valid;
    due = x.due;
    calls = x.calls;
  }

  module _ (compute_checksum : Bytes → ℕ) where
    receive_chunk-IsReceived :
        (c : UdpChunk) (raw : Bytes) (m : Manager)
        → IsManager m
        → c.raw_data ≡ some raw
        → All IsByte raw
        → IsReceived now src m
            (decoded? now (completed compute_checksum now src c m.assembler))
            (receive_chunk compute_checksum now src c m)
    unfolding receive_chunk
    receive_chunk-IsReceived c raw m v has h =
        let a = add_chunk-IsAssembler compute_checksum now src c raw m.assembler has v.assembler in
        let k =
          add_chunk-Kept IsBytePart compute_checksum now src c raw m.assembler has h v.bytes in
        let k' = subst (KeptBy IsBytePart (src, c.message_id) c.chunk_count) a.returns k in
        let m1 = record m { assembler = a.after } in
        let v1 : IsManager m1 = record {
          assembler = a.valid;
          bytes = k'.content;
          table = v.table;
          tasks = v.tasks;
        } in
        go a.message a.after a.returns v1 (λ message e.
          let (chunks, parts, made) = k'.made message e in
          assemble-All c.chunk_count 0 (src, c.message_id) chunks message parts made)
      where
        go :
            (o : Option Bytes)
            → (a' : ChunkAssembler)
            → add_chunk compute_checksum now src c m.assembler ≡ some (a', o)
            → IsManager (record m { assembler = a' })
            → ((message : Bytes) → o ≡ some message → All IsByte message)
            → IsReceived now src m
                (decoded? now (completed compute_checksum now src c m.assembler))
                (receive_chunk compute_checksum now src c m)
        go none a' e w bytes =
            rw (receive_chunk, completed, e)
              (after_chunk m a' (quiet now src (record m { assembler = a' }) w))
        go (some complete) a' e w bytes =
            rw (receive_chunk, completed, e)
              (after_chunk m a' (
                decode_and_dispatch-IsReceived complete (record m { assembler = a' }) w
                  (bytes complete refl)))

    -- Whatever arrives, the receive loop goes on: no bytes from any address make it panic, in a
    -- state with a well-formed table and assembler and at most 256 tasks, and it keeps such a state.
    -- An answer is delivered only to a pending call with its request id, and only if it comes from
    -- the address that was called; one from elsewhere ends the call: it is canceled. A call is removed
    -- exactly when the datagram completes an answer to it, and nothing else changes the pending calls.
    -- A message that is delivered or handled satisfies all the limits on messages, and a request is handled for its sender.
    pub receive-IsReceived :
        (bytes : Bytes) (m : Manager)
        → IsManager m
        → All IsByte bytes
        → IsReceived now src m
            (decoded? now (payload compute_checksum now src bytes m.assembler))
            (receive compute_checksum now src bytes m)
    unfolding receive
    receive-IsReceived bytes m v h = elim (Bool-cases (take 4 bytes == voice_magic)) [
      | inl e ↦
          rw (receive, payload, e)
            (record {
              after = m;
              probe' = none;
              effect = to_messenger bytes src;
              returns = refl;
              valid = v;
              due = refl;
              calls = (refl, refl);
            })
      | inr e ↦ elim (Bool-cases (take 4 bytes == binary_magic)) [
        | inr f ↦ rw (receive, payload, e, f) (decode_and_dispatch-IsReceived bytes m v h)
        | inl f ↦ elim (from_bytes-cases bytes) [
          | inl (x, p) ↦ rw (receive, payload, e, f, p) (quiet now src m v)
          | inr (c, p, raw) ↦
              rw (receive, payload, e, f, p)
                (receive_chunk-IsReceived c (drop binary_header_size bytes) m v raw
                  (All-drop IsByte binary_header_size bytes h))
        ]
      ]
    ]
