-- ===== src/Mailbox/Overfull.antt =====
-- Envelopes that fit alone and not in a list (`merge_store_value` of nodex-kademlia/src/lib.rs).
use node_x.Mailbox.{
  Json, is_too_large, encoded, prune, newest, stored, merge_envelopes, merge_store_value,
  max_mailbox_value_bytes, max_mailbox_envelopes,
}
use node_x.Base.Words.{Bytes}
use node_x.Base.{
  ℕ, zero, suc, ◌+◌, ◌-◌, ◌≤◌, ◌<◌, ◌≡◌, refl, true, false, min, Option, some, List, [], ◌∷◌, ◌++◌,
  length, any, drop, ltb, lt→ltb, ltb-false, Eq, ◌==◌, arith, Bool-cases, inl, inr, length-append,
  length-drop,
}

module _ {V : Type 0} ⦃e : Eq V⦄ (json : Json V) where
  -- What serde_json prints: an array has two brackets round its values.
  pub record HasBrackets : Type 0 where
    pub around :
        (vs : List V) (v : V) (bytes : Bytes)
        → json.print_value v ≡ some bytes
        → length bytes + 2 ≤ length (encoded json (vs ++ v ∷ []))
    pub empty : length (encoded json []) ≤ 2

  drop-append :
      (k : ℕ) (xs : List V) (v : V) → k ≤ length xs → drop k (xs ++ v ∷ []) ≡ drop k xs ++ v ∷ []
  drop-append zero xs v h = refl
  drop-append (suc k) [] v h = absurd (omega arith)
  drop-append (suc k) (x ∷ xs) v h = drop-append k xs v (omega arith)

  newest-append :
      (xs : List V) (v : V)
      → (ys : List V) × (newest (xs ++ v ∷ []) ≡ ys ++ v ∷ [])
        × (suc (length ys) ≡ min max_mailbox_envelopes (suc (length xs)))
  unfolding newest
  newest-append xs v =
      let n = length (xs ++ v ∷ []) in
      let size : n ≡ suc (length xs) = omega (arith, length-append xs (v ∷ [])) in
      elim (Bool-cases (ltb max_mailbox_envelopes n)) [
        | inl p ↦
            let k = n - max_mailbox_envelopes in
            (
              drop k xs,
              rw (newest, p) (drop-append k xs v (ground arith)),
              ground (arith, length-drop k xs),
            )
        | inr p ↦ (xs, rw (newest, p) refl, ground arith)
      ]

  -- What is longer than the limit with one last envelope is pruned to nothing.
  prune-last :
      (xs : List V) (v : V)
      → ((ys : List V) → max_mailbox_value_bytes < length (encoded json (ys ++ v ∷ [])))
      → prune json (xs ++ v ∷ []) ≡ ([], suc (length xs))
  unfolding prune
  prune-last [] v big =
      rw (lt→ltb max_mailbox_value_bytes (length (encoded json (v ∷ []))) (big []))
  prune-last (x ∷ xs) v big = rw (
    lt→ltb max_mailbox_value_bytes (length (encoded json (x ∷ (xs ++ v ∷ [])))) (big (x ∷ xs)),
    prune-last xs v big,
  )

  -- A new envelope of 49 151 or 49 152 bytes, which the test of single envelopes lets pass, empties
  -- the mailbox: where serde_json prints an array with two brackets, the merge of an array of this
  -- envelope alone is accepted, its value is the empty array, and all of the at most 50 newest
  -- envelopes are pruned.
  pub merge_store_value-overfull :
      (existing : Option Bytes) (incoming : Bytes) (v : V) (bytes : Bytes)
      → HasBrackets
      → json.parse incoming ≡ some (v ∷ [])
      → json.print_value v ≡ some bytes
      → max_mailbox_value_bytes < length bytes + 2
      → length bytes ≤ max_mailbox_value_bytes
      → any (λ w. w == v) (stored json existing) ≡ false
      → merge_store_value json existing incoming
        ≡ (encoded json [], true, min max_mailbox_envelopes (suc (length (stored json existing))))
  unfolding merge_store_value merge_envelopes
  merge_store_value-overfull existing incoming v bytes law p q long short absent =
      let start = stored json existing in
      let fits : is_too_large json v ≡ false =
        rw (is_too_large, q) (ltb-false max_mailbox_value_bytes (length bytes) short) in
      let (ys, r, size) = newest-append start v in
      let big : (zs : List V) → max_mailbox_value_bytes < length (encoded json (zs ++ v ∷ [])) =
        λ zs. omega (arith, law.around zs v bytes q, long) in
      let small =
        ltb-false max_mailbox_value_bytes (length (encoded json [])) (omega (arith, law.empty)) in
      rw (merge_store_value, p, merge_envelopes, fits, absent, r, prune-last ys v big, small, size)
        refl
