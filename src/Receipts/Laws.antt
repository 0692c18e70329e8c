-- ===== src/Receipts/Laws.antt =====
-- Laws of the receipts (nodex-messenger/src/receipts.rs).
use node_x.Base.{
  ℕ, ◌^◌, ◌<◌, ◌≡◌, refl, ap, Bool, true, List, ◌++◌, arith, length, length-append, take, drop,
  take-append_length, drop-append_length,
}
use node_x.Base.Words.{
  Bytes, to_be_bytes, from_be_bytes, length-to_be_bytes, from_be_bytes-to_be_bytes,
}
use node_x.Receipts.{
  delivery_bytes, read_bytes, concat_ids, create_delivery, create_read, verify_delivery,
  verify_read,
}

-- The bytes signed for a delivery determine the message and the time: a signature for one cannot
-- stand for another.
pub delivery_bytes-injective :
    (id id' : Bytes) (t t' : ℕ)
    → t < 256 ^ 8
    → t' < 256 ^ 8
    → delivery_bytes id t ≡ delivery_bytes id' t'
    → (id ≡ id') × (t ≡ t')
unfolding delivery_bytes
delivery_bytes-injective id id' t t' small small' e =
    let w = to_be_bytes 8 t in
    let w' = to_be_bytes 8 t' in
    let rest : id ++ w ≡ id' ++ w' = ap (drop 19) e in
    let sizes : length (id ++ w) ≡ length (id' ++ w') = ap length rest in
    let same : length id ≡ length id' = omega (
      arith,
      sizes,
      length-append id w,
      length-append id' w',
      length-to_be_bytes 8 t,
      length-to_be_bytes 8 t',
    ) in
    let left : id ≡ id' = cc (
      take-append_length id w (length id) refl,
      take-append_length id' w' (length id) same,
      ap (take (length id)) rest,
    ) in
    let right : w ≡ w' = cc (
      drop-append_length id w (length id) refl,
      drop-append_length id' w' (length id) same,
      ap (drop (length id)) rest,
    ) in
    (
      left,
      cc (
        ap from_be_bytes right,
        from_be_bytes-to_be_bytes 8 t small,
        from_be_bytes-to_be_bytes 8 t' small',
      ),
    )

module _ {ℓ} {Identity : Type ℓ} (user_id_hex key : Identity → Bytes)
    (sign : Identity → Bytes → Bytes) (verify : Bytes → Bytes → Bytes → Bool)
    (signs : (i : Identity) (bytes : Bytes) → verify (key i) bytes (sign i bytes) ≡ true) where
  -- If signatures verify under their signer's key, both kinds of receipt that an identity creates do;
  -- and the read receipt verifies as well with any other list of message ids whose ids, written one
  -- after the other, are the same bytes.
  pub create-verifies :
      (i : Identity) (id : Bytes) (ids other : List Bytes) (t : ℕ)
      → concat_ids other ≡ concat_ids ids
      → (verify_delivery verify (key i) (create_delivery user_id_hex sign i id t) ≡ true)
        × (verify_read verify (key i) (create_read user_id_hex sign i ids t) ≡ true)
        × (verify_read verify
              (key i)
              (record (create_read user_id_hex sign i ids t) { message_ids = other })
            ≡ true)
  unfolding create_delivery create_read verify_delivery verify_read
  create-verifies i id ids other t e =
      (signs i (delivery_bytes id t), signs i (read_bytes ids t), regrouped)
    where
      regrouped : verify (key i) (read_bytes other t) (sign i (read_bytes ids t)) ≡ true
      regrouped = rw e (signs i (read_bytes ids t))
