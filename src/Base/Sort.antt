-- ===== src/Base/Sort.antt =====
-- A stable sort, as `sort_by` is one, and its laws.
use Prim.Native.Nat.{ℕ, zero, suc}
use mathlib.Core.Path.{◌≡◌, refl}
use mathlib.Core.Logic.{inl, inr}
use mathlib.Core.Bool.{Bool, true, false, ◌||◌}
use mathlib.Core.List.{List, [], ◌∷◌, Perm}
use mathlib.Core.List.Perm
use native.Mathlib.Omega.{arith}
use node_x.Base.Tests.{if◌then◌else◌, Bool-cases}
use node_x.Base.Lists.{length, any, All, take, drop}

module _ {ℓ} {A : Type ℓ} (le : A → A → Bool) where
  -- In front of the first element that is not below it.
  unfoldable pub insert_sorted : A → List A → List A
  insert_sorted x [] = x ∷ []
  insert_sorted x (y ∷ ys) =
      let rest = insert_sorted x ys in if le x y then x ∷ y ∷ ys else y ∷ rest

  unfoldable pub sort_by : List A → List A
  unfolding insert_sorted
  sort_by [] = []
  sort_by (x ∷ xs) = insert_sorted x (sort_by xs)

  abbrev pub IsSorted : List A → Type 0
  IsSorted [] = Unit
  IsSorted (x ∷ xs) = All (λ y. le x y ≡ true) xs × IsSorted xs

module _ {ℓ} {A : Type ℓ} (le : A → A → Bool) where
  insert_sorted-perm : (x : A) (xs : List A) → Perm (insert_sorted le x xs) (x ∷ xs)
  unfolding insert_sorted
  insert_sorted-perm x [] = Perm.refl (x ∷ [])
  insert_sorted-perm x (y ∷ ys) = elim (Bool-cases (le x y)) [
    | inl e ↦ rw e (Perm.refl (x ∷ y ∷ ys))
    | inr e ↦ rw e (Perm.trans (Perm.cons y (insert_sorted-perm x ys)) (Perm.swap x y ys))
  ]

  pub sort_by-perm : (xs : List A) → Perm (sort_by le xs) xs
  unfolding sort_by
  sort_by-perm [] = Perm.refl []
  sort_by-perm (x ∷ xs) =
      Perm.trans (insert_sorted-perm x (sort_by le xs)) (Perm.cons x (sort_by-perm xs))

  length-insert_sorted : (x : A) (xs : List A) → length (insert_sorted le x xs) ≡ suc (length xs)
  unfolding insert_sorted
  length-insert_sorted x [] = refl
  length-insert_sorted x (y ∷ ys) = ground (arith, length-insert_sorted x ys)

  pub length-sort_by : (xs : List A) → length (sort_by le xs) ≡ length xs
  unfolding sort_by
  length-sort_by [] = refl
  length-sort_by (x ∷ xs) = omega (arith, length-insert_sorted x (sort_by le xs), length-sort_by xs)

module _ {ℓ} {A : Type ℓ} (le : A → A → Bool) (p : A → Bool) where
  any-insert_sorted : (x : A) (xs : List A) → any p (insert_sorted le x xs) ≡ (p x || any p xs)
  unfolding insert_sorted
  any-insert_sorted x [] = refl
  any-insert_sorted x (y ∷ ys) = ground (arith, any-insert_sorted x ys)

  pub any-sort_by : (xs : List A) → any p (sort_by le xs) ≡ any p xs
  unfolding sort_by
  any-sort_by [] = refl
  any-sort_by (x ∷ xs) = ground (arith, any-insert_sorted x (sort_by le xs), any-sort_by xs)

module _ {ℓ κ} {A : Type ℓ} (le : A → A → Bool) (P : A → Type κ) where
  pub All-insert_sorted : (x : A) (xs : List A) → P x → All P xs → All P (insert_sorted le x xs)
  unfolding insert_sorted
  All-insert_sorted x [] h hs = (h, tt)
  All-insert_sorted x (y ∷ ys) h hs = ground (arith, All-insert_sorted x ys h hs.1)

  pub All-sort_by : (xs : List A) → All P xs → All P (sort_by le xs)
  unfolding sort_by
  All-sort_by [] h = tt
  All-sort_by (x ∷ xs) h = All-insert_sorted x (sort_by le xs) h.0 (All-sort_by xs h.1)

  -- And back: what all of a sorted list has, all of the list has.
  All-insert_sorted_back : (x : A) (xs : List A) → All P (insert_sorted le x xs) → P x × All P xs
  unfolding insert_sorted
  All-insert_sorted_back x [] h = h
  All-insert_sorted_back x (y ∷ ys) h = elim (Bool-cases (le x y)) [
    | inl e ↦ rw e at h
    | inr e ↦ let h' = rw e at h in let (p, q) = All-insert_sorted_back x ys h'.1 in (p, (h'.0, q))
  ]

  pub All-sort_by_back : (xs : List A) → All P (sort_by le xs) → All P xs
  unfolding sort_by
  All-sort_by_back [] h = tt
  All-sort_by_back (x ∷ xs) h =
      let (p, q) = All-insert_sorted_back x (sort_by le xs) h in (p, All-sort_by_back xs q)

module _ {ℓ} {A : Type ℓ} (le : A → A → Bool) (total : (a b : A) → le a b ≡ false → le b a ≡ true)
    (trans : (a b c : A) → le a b ≡ true → le b c ≡ true → le a c ≡ true) where
  All-trans :
      (x y : A) (ys : List A)
      → le x y ≡ true
      → All (λ z. le y z ≡ true) ys
      → All (λ z. le x z ≡ true) ys
  All-trans x y [] h hs = tt
  All-trans x y (z ∷ zs) h hs = (trans x y z h hs.0, All-trans x y zs h hs.1)

  insert_sorted-IsSorted :
      (x : A) (xs : List A) → IsSorted le xs → IsSorted le (insert_sorted le x xs)
  unfolding insert_sorted
  insert_sorted-IsSorted x [] h = (tt, tt)
  insert_sorted-IsSorted x (y ∷ ys) h = elim (Bool-cases (le x y)) [
    | inl e ↦ rw e ((e, All-trans x y ys e h.0), h)
    | inr e ↦ rw e (
      All-insert_sorted le (λ z. le y z ≡ true) x ys (total x y e) h.0,
      insert_sorted-IsSorted x ys h.1,
    )
  ]

  pub sort_by-IsSorted : (xs : List A) → IsSorted le (sort_by le xs)
  unfolding sort_by
  sort_by-IsSorted [] = tt
  sort_by-IsSorted (x ∷ xs) = insert_sorted-IsSorted x (sort_by le xs) (sort_by-IsSorted xs)

-- In a sorted list the first `n` are below the others.
module _ {ℓ} {A : Type ℓ} (le : A → A → Bool) where
  pub take-IsSorted : (n : ℕ) (xs : List A) → IsSorted le xs → IsSorted le (take n xs)
  take-IsSorted zero xs h = tt
  take-IsSorted (suc n) [] h = tt
  take-IsSorted (suc n) (x ∷ xs) h = (All-take_of n x xs h.0, take-IsSorted n xs h.1)
    where
      All-take_of :
          (n : ℕ) (x : A) (xs : List A)
          → All (λ y. le x y ≡ true) xs
          → All (λ y. le x y ≡ true) (take n xs)
      All-take_of zero x xs h = tt
      All-take_of (suc n) x [] h = tt
      All-take_of (suc n) x (y ∷ ys) h = (h.0, All-take_of n x ys h.1)

  All-drop_of :
      (n : ℕ) (x : A) (xs : List A)
      → All (λ y. le x y ≡ true) xs
      → All (λ y. le x y ≡ true) (drop n xs)
  All-drop_of zero x xs h = h
  All-drop_of (suc n) x [] h = tt
  All-drop_of (suc n) x (y ∷ ys) h = All-drop_of n x ys h.1

  pub take-below-drop :
      (n : ℕ) (xs : List A)
      → IsSorted le xs
      → All (λ x. All (λ y. le x y ≡ true) (drop n xs)) (take n xs)
  take-below-drop zero xs h = tt
  take-below-drop (suc n) [] h = tt
  take-below-drop (suc n) (x ∷ xs) h = (All-drop_of n x xs h.0, take-below-drop n xs h.1)
