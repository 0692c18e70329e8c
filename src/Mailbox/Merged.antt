-- ===== src/Mailbox/Merged.antt =====
-- What a merge keeps of the envelopes (`merge_store_value` of nodex-kademlia/src/lib.rs).
use node_x.Mailbox.{
  max_value_size, Json, is_too_large, with_new, add_new, encoded, prune, newest, stored,
  merge_envelopes, merge_store_value, max_mailbox_value_bytes, max_mailbox_envelopes,
}
use node_x.Base.Words.{Bytes}
use node_x.Base.{
  ◌<◌, ◌⊎◌, none, Option-cases, ℕ, ◌-◌, ◌≤◌, ◌≡◌, ◌∙◌, refl, sym, ap, subst, true, false, Bool, not,
  Option, some, List, [], ◌∷◌, ◌++◌, length, any, take, ltb, Eq, ◌==◌, ==_refl, All, All-append,
  append-nil, append_assoc, arith, if-elim, Bool-cases, inl, inr, length-append, take-append-drop,
  length-drop,
}

module _ {V : Type 0} ⦃e : Eq V⦄ (json : Json V) where
  -- With any of these in front the list is over the limit.
  abbrev pub AreOver : List V → List V → Type 0
  AreOver [] kept = Unit
  AreOver (v ∷ vs) kept =
      (max_mailbox_value_bytes < length (encoded json (v ∷ vs ++ kept))) × AreOver vs kept

  -- Where the envelopes of a merged mailbox come from: those stored and new ones, less the oldest.
  pub record IsMerged (start new : List V) (value : Bytes) : Type 0 where
    pub fresh : List V
    pub fresh_new : All (λ v. any (λ w. w == v) new ≡ true) fresh
    pub complete : All (λ v. any (λ w. w == v) (start ++ fresh) ≡ true) new
    pub dropped : List V
    pub over : List V
    pub kept : List V
    pub cut : dropped ++ (over ++ kept) ≡ start ++ fresh
    pub needed : (dropped ≡ []) ⊎ (length (over ++ kept) ≡ max_mailbox_envelopes)
    pub least : AreOver over kept
    pub few : length kept ≤ max_mailbox_envelopes
    pub printed : value ≡ encoded json kept
    pub small : length value ≤ max_mailbox_value_bytes

  any-append_left :
      (v : V) (xs ys : List V) → any (λ w. w == v) xs ≡ true → any (λ w. w == v) (xs ++ ys) ≡ true
  any-append_left v [] ys h = absurd (cc)
  any-append_left v (x ∷ xs) ys h = ground (arith, any-append_left v xs ys)

  any-append_right :
      (v : V) (xs ys : List V) → any (λ w. w == v) ys ≡ true → any (λ w. w == v) (xs ++ ys) ≡ true
  any-append_right v [] ys h = h
  any-append_right v (x ∷ xs) ys h = ground (arith, any-append_right v xs ys)

  -- One new envelope that is not too large.
  record IsTaken (v : V) (xs ys : List V) : Type 0 where
    fresh : List V
    joined : ys ≡ xs ++ fresh
    from_new : All (λ w. w ≡ v) fresh
    taken : any (λ w. w == v) ys ≡ true

  with_new-IsTaken :
      (v : V) (xs : List V) → is_too_large json v ≡ false → IsTaken v xs (with_new json v xs)
  with_new-IsTaken v xs h = rw h (
      if-elim (IsTaken v xs) (any (λ w. w == v) xs)
        (λ p. record { fresh = []; joined = sym (append-nil xs); from_new = tt; taken = p })
        (λ p. record {
          fresh = v ∷ [];
          joined = refl;
          from_new = (refl, tt);
          taken = any-append_right v xs (v ∷ []) (rw (==_refl v) refl);
        }))

  record AreTaken (new xs : List V) (r : List V × Bool) : Type 0 where
    fresh : List V
    joined : r.0 ≡ xs ++ fresh
    from_new : All (λ v. any (λ w. w == v) new ≡ true) fresh
    all_taken : All (λ v. any (λ w. w == v) r.0 ≡ true) new

  weaken :
      (v : V) (new fresh : List V)
      → All (λ w. any (λ u. u == w) new ≡ true) fresh
      → All (λ w. any (λ u. u == w) (v ∷ new) ≡ true) fresh
  weaken v new [] h = tt
  weaken v new (f ∷ fresh) h = (ground arith, weaken v new fresh h.1)

  these :
      (v : V) (new fresh : List V)
      → All (λ w. w ≡ v) fresh
      → All (λ w. any (λ u. u == w) (v ∷ new) ≡ true) fresh
  these v new [] h = tt
  these v new (f ∷ fresh) h = (rw (h.0, ==_refl v) refl, these v new fresh h.1)

  -- Nothing rejected at the end: nothing was too large.
  add_new-rejected : (new xs : List V) → (add_new json new xs true).1 ≡ true
  unfolding add_new
  add_new-rejected [] xs = refl
  add_new-rejected (v ∷ new) xs = add_new-rejected new (with_new json v xs)

  add_new-AreTaken :
      (new xs : List V)
      → (add_new json new xs false).1 ≡ false
      → AreTaken new xs (add_new json new xs false)
  unfolding add_new
  add_new-AreTaken [] xs h = record {
    fresh = [];
    joined = sym (append-nil xs);
    from_new = tt;
    all_taken = tt;
  }
  add_new-AreTaken (v ∷ new) xs h = elim (Bool-cases (is_too_large json v)) [
    | inl big ↦
        let p = add_new-rejected new (with_new json v xs) in
        let q = subst (λ b. (add_new json new (with_new json v xs) b).1 ≡ false) big h in
        absurd (cc)
    | inr fits ↦
        let one = with_new-IsTaken v xs fits in
        let h' = subst (λ b. (add_new json new (with_new json v xs) b).1 ≡ false) fits h in
        let rest = add_new-AreTaken new (with_new json v xs) h' in
        subst (λ b. AreTaken (v ∷ new) xs (add_new json new (with_new json v xs) b)) (sym fits)
          (record {
            fresh = one.fresh ++ rest.fresh;
            joined =
                rest.joined
                ∙ (ap (λ (ys : List V). ys ++ rest.fresh) one.joined
                    ∙ append_assoc xs one.fresh rest.fresh);
            from_new =
                All-append (λ w. any (λ u. u == w) (v ∷ new) ≡ true) one.fresh rest.fresh
                  (these v new one.fresh one.from_new) (weaken v new rest.fresh rest.from_new);
            all_taken = (
              rw rest.joined (any-append_left v (with_new json v xs) rest.fresh one.taken),
              rest.all_taken,
            );
          })
  ]

  -- A list cut at the front.
  record IsSuffix (xs ys : List V) : Type 0 where
    front : List V
    cut : front ++ ys ≡ xs
    needed : (front ≡ []) ⊎ (length ys ≡ max_mailbox_envelopes)

  record IsPruned (xs ys : List V) : Type 0 where
    over : List V
    cut : over ++ ys ≡ xs
    least : AreOver over ys

  prune-IsPruned : (xs : List V) → IsPruned xs (prune json xs).0
  unfolding prune
  prune-IsPruned [] = record { over = []; cut = refl; least = tt }
  prune-IsPruned (v ∷ xs) =
      let rest = prune-IsPruned xs in
      elim (Bool-cases (ltb max_mailbox_value_bytes (length (encoded json (v ∷ xs))))) [
        | inl p ↦
            let big : max_mailbox_value_bytes < length (encoded json (v ∷ xs)) = ground arith in
            rw (prune, p)
              (record {
                over = v ∷ rest.over;
                cut = ap (◌∷◌ v) rest.cut;
                least = (
                  subst (λ (l : List V). max_mailbox_value_bytes < length (encoded json (v ∷ l)))
                      (sym rest.cut) big,
                  rest.least,
                );
              })
        | inr p ↦ rw (prune, p) (record { over = []; cut = refl; least = tt })
      ]

  length-suffix : (xs ys : List V) → IsPruned xs ys → length ys ≤ length xs
  length-suffix xs ys s = omega (arith, length-append s.over ys, ap length s.cut)

  newest-IsSuffix : (xs : List V) → IsSuffix xs (newest xs)
  unfolding newest
  newest-IsSuffix xs =
      let k = length xs - max_mailbox_envelopes in
      if-elim (IsSuffix xs) (ltb max_mailbox_envelopes (length xs))
        (λ p. record {
          front = take k xs;
          cut = take-append-drop k xs;
          needed = inr (ground (arith, length-drop k xs));
        })
        (λ p. record { front = []; cut = refl; needed = inl refl })

  length-newest : (xs : List V) → length (newest xs) ≤ max_mailbox_envelopes
  unfolding newest
  length-newest xs = ground (arith, length-drop (length xs - max_mailbox_envelopes) xs)

  -- A merge of an array that is accepted gives a mailbox that fits: at most 50 envelopes, printed in
  -- at most 48 KiB. They are the last of the stored envelopes followed by fresh ones, all from the
  -- array; and before the oldest are cut off, every envelope of the array is among them. No more are
  -- cut off than the two limits need: those beyond the newest 50, and of these the oldest, as long as
  -- what is left with them is over 48 KiB.
  pub merge_store_value-IsMerged :
      (existing : Option Bytes) (incoming : Bytes) (new : List V)
      → json.parse incoming ≡ some new
      → (merge_store_value json existing incoming).1 ≡ true
      → IsMerged (stored json existing) new (merge_store_value json existing incoming).0
  unfolding merge_store_value merge_envelopes
  merge_store_value-IsMerged existing incoming new p h =
      let start = stored json existing in
      let added = add_new json new start false in
      let kept = prune json (newest added.0) in
      elim (Bool-cases (ltb max_mailbox_value_bytes (length (encoded json kept.0)))) [
        | inl big ↦ let h' = rw (merge_store_value, p, merge_envelopes, big) at h in absurd (cc)
        | inr fits ↦
            let h' : not added.1 ≡ true = rw (merge_store_value, p, merge_envelopes, fits) at h in
            let taken = add_new-AreTaken new start (ground arith) in
            let front = newest-IsSuffix added.0 in
            let back = prune-IsPruned (newest added.0) in
            rw (merge_store_value, p, merge_envelopes, fits)
              (record {
                fresh = taken.fresh;
                fresh_new = taken.from_new;
                complete =
                    subst (λ ys. All (λ v. any (λ w. w == v) ys ≡ true) new) taken.joined
                      taken.all_taken;
                dropped = front.front;
                over = back.over;
                kept = kept.0;
                cut = ap (λ (ys : List V). front.front ++ ys) back.cut ∙ (front.cut ∙ taken.joined);
                needed =
                    subst
                      (λ (ys : List V). (front.front ≡ []) ⊎ (length ys ≡ max_mailbox_envelopes))
                      (sym back.cut) front.needed;
                least = back.least;
                few =
                    omega
                      (arith, length-suffix (newest added.0) kept.0 back, length-newest added.0);
                printed = refl;
                small = ground arith;
              })
      ]

  -- An accepted value fits into a message; one that is not an array is stored as it came.
  pub merge_store_value-bounded :
      (existing : Option Bytes) (incoming : Bytes)
      → (merge_store_value json existing incoming).1 ≡ true
      → length (merge_store_value json existing incoming).0 ≤ max_value_size
  unfolding merge_store_value
  merge_store_value-bounded existing incoming h = elim (Option-cases (json.parse incoming)) [
    | inl p ↦ let h' = rw (merge_store_value, p) at h in rw (merge_store_value, p) (ground arith)
    | inr (new, p) ↦ omega (arith, (merge_store_value-IsMerged existing incoming new p h).small)
  ]

  -- Without a stored value the result fits, accepted or not.
  pub merge_store_value-none :
      (incoming : Bytes) → length (merge_store_value json none incoming).0 ≤ max_value_size
  unfolding merge_store_value merge_envelopes
  merge_store_value-none incoming = elim (Option-cases (json.parse incoming)) [
    | inl p ↦ rw (merge_store_value, p) (ground arith)
    | inr (new, p) ↦
        let kept = prune json (newest (add_new json new [] false).0) in
        rw (merge_store_value, p, merge_envelopes)
          (if-elim (λ (r : Bytes × Bool × ℕ). length r.0 ≤ max_value_size)
            (ltb max_mailbox_value_bytes (length (encoded json kept.0))) (λ big. omega arith)
            (λ small. ground arith))
  ]
