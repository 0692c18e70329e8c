-- ===== src/Attachments/RoundTrip.antt =====
-- What create_file_transfer of nodex-messenger/src/attachments.rs sends, assemble_file_transfer
-- reads.
use node_x.Attachments.Hex.{hex_decode-hex}
use node_x.Attachments.Pieces.{joined, joined-pieces}
use node_x.Attachments.{
  MediaChunk, Crypto, pieces, seal, sealed, open_chunk, open_all, create_file_transfer,
  assemble_with, assemble_file_transfer, max_media_file_bytes,
}
use node_x.Base.Outcome.{ok, ◌>>=◌}
use node_x.Base.Sort.{sort_by, insert_sorted}
use node_x.Base.Words.{Bytes, IsArray}
use node_x.Base.{
  ℕ, zero, suc, ◌≤◌, ◌≡◌, refl, ap, some, List, [], ◌∷◌, arith, length, map, drop, get_elem?, leb,
  ltb, nat_beq, nat_eq, list_eq, ==_refl, true, false,
}

-- What the sender encrypts under a key of 32 bytes and a nonce of 12, the receiver decrypts.
pub record IsCipher (c : Crypto) : Type 0 where
  pub opens :
      (key nonce p : Bytes)
      → length key ≡ 32
      → length nonce ≡ 12
      → (x : Bytes) × (c.encrypt key nonce p ≡ some x) × (c.decrypt key nonce x ≡ some p)

get_elem?-drop :
    (xs : List Bytes) (i : ℕ) (y : Bytes) (ys : List Bytes)
    → drop i xs ≡ y ∷ ys
    → (get_elem? xs i ≡ some y) × (drop (suc i) xs ≡ ys)
get_elem?-drop [] zero y ys h = absurd (cc)
get_elem?-drop [] (suc i) y ys h = absurd (cc)
get_elem?-drop (x ∷ xs) zero y ys h = (cc, cc)
get_elem?-drop (x ∷ xs) (suc i) y ys h = get_elem?-drop xs i y ys h

module _ (c : Crypto) (key : Bytes) where
  -- The chunk that holds the piece `p`.
  record Holds (idx : ℕ) (p : Bytes) (m : MediaChunk) : Type 0 where
    index : m.chunk_index ≡ idx
    sum : c.crc32 m.ciphertext ≡ m.checksum
    nonce : length m.nonce ≡ 12
    opens : c.decrypt key m.nonce m.ciphertext ≡ some p

  abbrev Sealed : ℕ → List Bytes → List MediaChunk → Type 0
  Sealed idx [] [] = Unit
  Sealed idx (p ∷ ps) (m ∷ ms) = Holds idx p m × Sealed (suc idx) ps ms
  Sealed _ _ _ = ⊥

  length-Sealed :
      (idx : ℕ) (ps : List Bytes) (ms : List MediaChunk) → Sealed idx ps ms → length ms ≡ length ps
  length-Sealed idx [] [] h = refl
  length-Sealed idx (p ∷ ps) (m ∷ ms) h = ap suc (length-Sealed (suc idx) ps ms h.1)
  length-Sealed idx [] (m ∷ ms) h = absurd h
  length-Sealed idx (p ∷ ps) [] h = absurd h

  seal-Sealed :
      (k : IsCipher c) (file_id : Bytes) (nonces : ℕ → Bytes) (count idx : ℕ) (ps : List Bytes)
      → length key ≡ 32
      → ((i : ℕ) → length (nonces i) ≡ 12)
      → (ms : List MediaChunk) × (seal c file_id key nonces count idx ps ≡ ok ms) × Sealed idx ps ms
  unfolding seal
  seal-Sealed k file_id nonces count idx [] h n = ([], refl, tt)
  seal-Sealed k file_id nonces count idx (p ∷ ps) h n =
      let (x, e, d) = k.opens key (nonces idx) p h (n idx) in
      let (ms, q, s) = seal-Sealed k file_id nonces count (suc idx) ps h n in
      (
        sealed c file_id key nonces count idx x ∷ ms,
        rw (seal, e, q) refl,
        (record { index = refl; sum = refl; nonce = n idx; opens = d }, s),
      )

  open_chunk-Holds :
      (hashes : List Bytes) (idx : ℕ) (p : Bytes) (m : MediaChunk)
      → Holds idx p m
      → get_elem? hashes idx ≡ some (c.sha256 p)
      → open_chunk c key hashes idx m ≡ ok p
  unfolding open_chunk
  open_chunk-Holds hashes idx p m h g =
      let i : nat_beq m.chunk_index idx ≡ true = ground (arith, h.index) in
      let s : nat_beq (c.crc32 m.ciphertext) m.checksum ≡ true = ground (arith, h.sum) in
      let n : nat_beq (length m.nonce) 12 ≡ true = ground (arith, h.nonce) in
      rw (i, s, n, h.opens, g, ==_refl (c.sha256 p)) refl

  open_all-Sealed :
      (hashes : List Bytes) (idx : ℕ) (ps : List Bytes) (ms : List MediaChunk)
      → Sealed idx ps ms
      → drop idx hashes ≡ map c.sha256 ps
      → open_all c key hashes idx ms ≡ ok (joined ps)
  unfolding open_all
  open_all-Sealed hashes idx [] [] h d = refl
  open_all-Sealed hashes idx [] (m ∷ ms) h d = absurd h
  open_all-Sealed hashes idx (p ∷ ps) [] h d = absurd h
  open_all-Sealed hashes idx (p ∷ ps) (m ∷ ms) h d =
      let (g, d') = get_elem?-drop hashes idx (c.sha256 p) (map c.sha256 ps) d in
      rw (open_chunk-Holds hashes idx p m h.0 g, open_all-Sealed hashes (suc idx) ps ms h.1 d') refl

  sort_by-Sealed :
      (idx : ℕ) (ps : List Bytes) (ms : List MediaChunk)
      → Sealed idx ps ms
      → sort_by (λ a b. leb a.chunk_index b.chunk_index) ms ≡ ms
  unfolding sort_by insert_sorted
  sort_by-Sealed idx [] [] h = refl
  sort_by-Sealed idx [] (m ∷ ms) h = absurd h
  sort_by-Sealed idx (p ∷ ps) [] h = absurd h
  sort_by-Sealed idx (p ∷ ps) (m ∷ ms) h =
      rw (sort_by-Sealed (suc idx) ps ms h.1) (in_front ps ms h)
    where
      in_front :
          (ps' : List Bytes) (ms' : List MediaChunk)
          → Holds idx p m × Sealed (suc idx) ps' ms'
          → insert_sorted (λ a b. leb a.chunk_index b.chunk_index) m ms' ≡ m ∷ ms'
      in_front [] [] k = refl
      in_front [] (b ∷ bs) k = absurd k.1
      in_front (q ∷ qs) [] k = absurd k.1
      in_front (q ∷ qs) (b ∷ bs) k =
          let e : leb m.chunk_index b.chunk_index ≡ true = ground (arith, k.0.index, k.1.0.index) in
          rw e refl

-- Of a file of at most 100 MB, sent under any key of 32 bytes and any nonces of 12, the receiver
-- assembles the same bytes: every piece is encrypted, no check of a chunk refuses it, nothing
-- panics, and the pieces join to the file. The cipher decrypts what it encrypted.
pub assemble_file_transfer-create_file_transfer :
    (c : Crypto) (file_id key raw : Bytes) (nonces : ℕ → Bytes)
    → IsCipher c
    → IsArray 32 key
    → ((i : ℕ) → length (nonces i) ≡ 12)
    → length raw ≤ max_media_file_bytes
    → (create_file_transfer c file_id key nonces raw >>= λ t. assemble_file_transfer c t.0 t.1)
      ≡ ok raw
unfolding create_file_transfer assemble_file_transfer assemble_with
assemble_file_transfer-create_file_transfer c file_id key raw nonces k a n h =
    let ps = pieces (length raw) raw in
    let (ms, q, s) = seal-Sealed c key k file_id nonces (length ps) 0 ps a.0 n in
    let fits : ltb max_media_file_bytes (length raw) ≡ false = ground (arith, h) in
    let count : nat_beq (length ms) (length ps) ≡ true =
      ground (arith, length-Sealed c key 0 ps ms s) in
    let wide : nat_beq (length key) 32 ≡ true = ground (arith, a.0) in
    rw
      (
        fits,
        q,
        count,
        hex_decode-hex key a.1,
        wide,
        sort_by-Sealed c key 0 ps ms s,
        open_all-Sealed c key (map c.sha256 ps) 0 ps ms s refl,
        joined-pieces (length raw) raw (omega arith),
        ==_refl (c.sha256 raw),
      )
      refl
