-- ===== src/Chunking/Assembler/Complete.antt =====
-- Lemmas on the chunks of an assembly, a map whose keys are chunk indices
-- (nodex-kademlia/src/chunking.rs).
use node_x.Base.{
  ℕ, zero, suc, ◌+◌, ◌≤◌, ◌<◌, ◌≡◌, refl, some, List, [], ◌∷◌, ◌++◌, arith, length, nat_eq,
  Option-cases, inl, inr, nat_beq_iff,
}
use node_x.Base.Map.{
  remove_absent, get, insert, remove, IsMap, AllValues, AllValues-insert, length-insert_absent,
  remove-IsMap, insert-IsMap,
}
use node_x.Base.Words.{Bytes}
use node_x.Chunking.Assembler.{assemble}

abbrev pub Below : ℕ → ℕ → Bytes → Type 0
Below n i part = i < n

Below-zero : (m : List (ℕ × Bytes)) → AllValues (Below 0) m → length m ≡ 0
Below-zero [] h = refl
Below-zero ((i, p) ∷ m) h = absurd (omega (arith, h.0))

length-remove_one : (k : ℕ) (m : List (ℕ × Bytes)) → IsMap m → length m ≤ length (remove k m) + 1
length-remove_one k [] h = omega arith
length-remove_one k ((j, p) ∷ m) h =
    ground (arith, nat_beq_iff j k, length-remove_one k m, remove_absent k m)

Below-remove :
    (n : ℕ) (m : List (ℕ × Bytes)) → AllValues (Below (suc n)) m → AllValues (Below n) (remove n m)
Below-remove n [] h = tt
Below-remove n ((j, p) ∷ m) h = ground (arith, Below-remove n m)

pub length-le : (n : ℕ) (m : List (ℕ × Bytes)) → IsMap m → AllValues (Below n) m → length m ≤ n
length-le zero m v h = omega (arith, Below-zero m h)
length-le (suc n) m v h = omega (
  arith,
  length-remove_one n m v,
  length-le n (remove n m) (remove-IsMap n m v) (Below-remove n m h),
)

pub full-get :
    (n i : ℕ) (m : List (ℕ × Bytes))
    → IsMap m
    → AllValues (Below n) m
    → length m ≡ n
    → i < n
    → (part : Bytes) × (get i m ≡ some part)
full-get n i m v h full small = elim (Option-cases (get i m)) [
  | inr p ↦ p
  | inl e ↦
      let more : IsMap (insert i [] m) = insert-IsMap i [] m v in
      absurd (
        omega (
          arith,
          length-insert_absent i [] m e,
          length-le n (insert i [] m) more (AllValues-insert (Below n) i [] m h small),
        ))
]

-- The parts from `i` on, up to `n` in all.
assemble-some :
    (n k i : ℕ) (m : List (ℕ × Bytes))
    → IsMap m
    → AllValues (Below n) m
    → length m ≡ n
    → k + i ≡ n
    → (message : Bytes) × (assemble k i m ≡ some message)
unfolding assemble
assemble-some n zero i m v h full e = ([], refl)
assemble-some n (suc k) i m v h full e =
    let (part, p) = full-get n i m v h full (omega arith) in
    let (rest, q) = assemble-some n k (suc i) m v h full (omega arith) in
    (part ++ rest, rw (assemble, p, q) refl)

pub full-assemble :
    (n : ℕ) (m : List (ℕ × Bytes))
    → IsMap m
    → AllValues (Below n) m
    → length m ≡ n
    → (message : Bytes) × (assemble n 0 m ≡ some message)
full-assemble n m v h full = assemble-some n n 0 m v h full (omega arith)
