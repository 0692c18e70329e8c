-- ===== src/Lookup/Nearest.antt =====
-- The first of a sorted list, which are the least of it, as the end of a lookup takes them
-- (nodex-kademlia/src/lookup.rs).
use mathlib.Core.List.{Memᴰ}
use node_x.Base.Sort.{IsSorted}
use node_x.Base.{
  ℕ, zero, suc, Bool, Bool-cases, inl, inr, ◌⊎◌, true, false, ◌≡◌, refl, ap, List, [], ◌∷◌, filter,
  take, length, All, All-filter,
}

pub filter-IsSorted {ℓ} :
    {A : Type ℓ} (le : A → A → Bool) (p : A → Bool) (xs : List A)
    → IsSorted le xs
    → IsSorted le (filter p xs)
filter-IsSorted le p [] h = tt
filter-IsSorted le p (x ∷ xs) h = elim (Bool-cases (p x)) [
  | inl e ↦ rw e (All-filter (λ y. le x y ≡ true) p xs h.0, filter-IsSorted le p xs h.1)
  | inr e ↦ rw e (filter-IsSorted le p xs h.1)
]

pub All-zip {ℓ κ} :
    {A : Type ℓ} (P Q : A → Type κ) (xs : List A) → All P xs → All Q xs → All (λ x. P x × Q x) xs
All-zip P Q [] h k = tt
All-zip P Q (x ∷ xs) h k = ((h.0, k.0), All-zip P Q xs h.1 k.1)

module _ {ℓ} {A : Type ℓ} (le : A → A → Bool) where
  -- Among the `n` taken, or not below any of them.
  abbrev pub TakenOrAfter : ℕ → List A → A → Type ℓ
  TakenOrAfter n top x = Memᴰ x top ⊎ ((length top ≡ n) × All (λ y. le y x ≡ true) top)

  pub take-TakenOrAfter :
      (n : ℕ) (xs : List A) → IsSorted le xs → All (TakenOrAfter n (take n xs)) xs
  take-TakenOrAfter zero xs s = all_after xs
    where
      all_after : (xs : List A) → All (TakenOrAfter zero []) xs
      all_after [] = tt
      all_after (x ∷ xs) = (inr (refl, tt), all_after xs)
  take-TakenOrAfter (suc n) [] s = tt
  take-TakenOrAfter (suc n) (x ∷ xs) s =
      (inl (Memᴰ.head refl), under xs (take-TakenOrAfter n xs s.1) s.0)
    where
      one :
          (y : A)
          → TakenOrAfter n (take n xs) y
          → le x y ≡ true
          → TakenOrAfter (suc n) (x ∷ take n xs) y
      one y (inl m) h = inl (Memᴰ.tail m)
      one y (inr k) h = inr (ap suc k.0, (h, k.1))

      under :
          (ys : List A)
          → All (TakenOrAfter n (take n xs)) ys
          → All (λ y. le x y ≡ true) ys
          → All (TakenOrAfter (suc n) (x ∷ take n xs)) ys
      under [] h k = tt
      under (y ∷ ys) h k = (one y h.0 k.0, under ys h.1 k.1)

-- What all that pass a test have, all have or do not pass it.
pub All-filter_back {ℓ κ} :
    {A : Type ℓ} (P : A → Type κ) (p : A → Bool) (xs : List A)
    → All P (filter p xs)
    → All (λ x. (p x ≡ false) ⊎ P x) xs
All-filter_back P p [] h = tt
All-filter_back P p (x ∷ xs) h = elim (Bool-cases (p x)) [
  | inl e ↦ let h' = rw e at h in (inr h'.0, All-filter_back P p xs h'.1)
  | inr e ↦ (inl e, All-filter_back P p xs (rw e at h))
]

pub filter-All {ℓ} : {A : Type ℓ} (p : A → Bool) (xs : List A) → All (λ x. p x ≡ true) (filter p xs)
filter-All p [] = tt
filter-All p (x ∷ xs) = elim (Bool-cases (p x)) [
  | inl e ↦ rw e (e, filter-All p xs)
  | inr e ↦ rw e (filter-All p xs)
]
