-- ===== src/Base/Distinct.antt =====
-- Lists in which no key occurs twice, and how many there can be.
use Prim.Native.Nat.{ℕ, zero, suc, ◌≤◌}
use mathlib.Core.Path.{◌≡◌, refl, sym, ap, ◌∙◌}
use mathlib.Core.Logic.{◌≢◌, inl, inr}
use mathlib.Core.Bool.{Bool, true, false}
use mathlib.Core.List.{List, [], ◌∷◌, ◌++◌, map}
use native.Mathlib.Omega.{arith}
use node_x.Base.Tests.{Bool-cases, if◌then◌else◌}
use node_x.Base.Lists.{length, take, filter, any, All, All-append, All-take, All-filter}
use node_x.Base.Keys.{Eq, ◌==◌, ==→eq, ==_ne}
use node_x.Base.Sort.{insert_sorted, sort_by, All-insert_sorted, All-sort_by}

module _ {ℓ κ} {A : Type ℓ} {K : Type κ} (key : A → K) where
  abbrev pub Absent : K → List A → Type κ
  Absent k xs = All (λ x. key x ≢ k) xs

  abbrev pub Distinct : List A → Type κ
  Distinct [] = Unit
  Distinct (x ∷ xs) = Absent (key x) xs × Distinct xs

module _ {ℓ κ} {A : Type ℓ} {K : Type κ} (key : A → K) where
  pub take-Distinct : (n : ℕ) (xs : List A) → Distinct key xs → Distinct key (take n xs)
  take-Distinct zero xs h = tt
  take-Distinct (suc n) [] h = tt
  take-Distinct (suc n) (x ∷ xs) h =
      (All-take (λ y. key y ≢ key x) n xs h.0, take-Distinct n xs h.1)

  pub filter-Distinct : (p : A → Bool) (xs : List A) → Distinct key xs → Distinct key (filter p xs)
  filter-Distinct p [] h = tt
  filter-Distinct p (x ∷ xs) h = elim (Bool-cases (p x)) [
    | inl e ↦ rw e (All-filter (λ y. key y ≢ key x) p xs h.0, filter-Distinct p xs h.1)
    | inr e ↦ rw e (filter-Distinct p xs h.1)
  ]

  insert_sorted-Distinct :
      (le : A → A → Bool) (x : A) (xs : List A)
      → Absent key (key x) xs
      → Distinct key xs
      → Distinct key (insert_sorted le x xs)
  unfolding insert_sorted
  insert_sorted-Distinct le x [] a h = (tt, tt)
  insert_sorted-Distinct le x (y ∷ ys) a h = elim (Bool-cases (le x y)) [
    | inl e ↦ rw e (a, h)
    | inr e ↦ rw e (
      All-insert_sorted le (λ z. key z ≢ key y) x ys (λ p. a.0 (sym p)) h.0,
      insert_sorted-Distinct le x ys a.1 h.1,
    )
  ]

  pub sort_by-Distinct :
      (le : A → A → Bool) (xs : List A) → Distinct key xs → Distinct key (sort_by le xs)
  unfolding sort_by
  sort_by-Distinct le [] h = tt
  sort_by-Distinct le (x ∷ xs) h =
      insert_sorted-Distinct le x (sort_by le xs) (All-sort_by le (λ y. key y ≢ key x) xs h.0)
        (sort_by-Distinct le xs h.1)

  append-Absent :
      (x : A) (xs ys : List A)
      → Absent key (key x) xs
      → All (λ y. Absent key (key y) (x ∷ xs)) ys
      → Absent key (key x) (xs ++ ys)
  append-Absent x xs ys hx hy = All-append (λ z. key z ≢ key x) xs ys hx (swap ys hy)
    where
      swap : (ys : List A) → All (λ y. Absent key (key y) (x ∷ xs)) ys → Absent key (key x) ys
      swap [] h = tt
      swap (y ∷ ys) h = (λ p. h.0.0 (sym p), swap ys h.1)

  pub append-Distinct :
      (xs ys : List A)
      → Distinct key xs
      → Distinct key ys
      → All (λ y. Absent key (key y) xs) ys
      → Distinct key (xs ++ ys)
  append-Distinct [] ys hx hy h = hy
  append-Distinct (x ∷ xs) ys hx hy h =
      (append-Absent x xs ys hx.0 h, append-Distinct xs ys hx.1 hy (tails ys h))
    where
      tails :
          (ys : List A)
          → All (λ y. Absent key (key y) (x ∷ xs)) ys
          → All (λ y. Absent key (key y) xs) ys
      tails [] h = tt
      tails (y ∷ ys) h = (h.0.1, tails ys h.1)

module _ {ℓ κ μ} {A : Type ℓ} {B : Type κ} {K : Type μ} (key : B → K) (f : A → B) where
  map-Absent : (k : K) (xs : List A) → Absent (λ x. key (f x)) k xs → Absent key k (map f xs)
  map-Absent k [] h = tt
  map-Absent k (x ∷ xs) h = (h.0, map-Absent k xs h.1)

  pub map-Distinct : (xs : List A) → Distinct (λ x. key (f x)) xs → Distinct key (map f xs)
  map-Distinct [] h = tt
  map-Distinct (x ∷ xs) h = (map-Absent (key (f x)) xs h.0, map-Distinct xs h.1)

-- A list without repetition is at most as long as a list that has all its keys.
module _ {ℓ κ} {A : Type ℓ} {K : Type κ} ⦃e : Eq K⦄ (key : A → K) where
  abbrev pub has : List K → K → Bool
  has ks k = any (λ j. j == k) ks

  abbrev pub AllIn : List K → List A → Type 0
  AllIn ks xs = All (λ x. has ks (key x) ≡ true) xs

  remove_first : K → List K → List K
  remove_first k [] = []
  remove_first k (j ∷ ks) = let rest = remove_first k ks in if j == k then ks else j ∷ rest

  length-remove_first :
      (k : K) (ks : List K) → has ks k ≡ true → suc (length (remove_first k ks)) ≡ length ks
  unfolding remove_first
  length-remove_first k [] h = absurd (cc)
  length-remove_first k (j ∷ ks) h = elim (Bool-cases (j == k)) [
    | inl p ↦ rw p refl
    | inr p ↦ rw p (ap suc (length-remove_first k ks (ground arith)))
  ]

  has-remove_first :
      (k l : K) (ks : List K) → l ≢ k → has ks l ≡ true → has (remove_first k ks) l ≡ true
  unfolding remove_first
  has-remove_first k l [] ne h = h
  has-remove_first k l (j ∷ ks) ne h = elim (Bool-cases (j == k)) [
    | inl p ↦ let q : (j == l) ≡ false = ==_ne (λ r. ne (sym r ∙ ==→eq p)) in rw p (ground arith)
    | inr p ↦ rw p (ground (arith, has-remove_first k l ks))
  ]

  AllIn-remove_first :
      (k : K) (ks : List K) (xs : List A)
      → Absent key k xs
      → AllIn ks xs
      → AllIn (remove_first k ks) xs
  AllIn-remove_first k ks [] a h = tt
  AllIn-remove_first k ks (x ∷ xs) a h =
      (has-remove_first k (key x) ks a.0 h.0, AllIn-remove_first k ks xs a.1 h.1)

  pub length-le :
      (ks : List K) (xs : List A) → Distinct key xs → AllIn ks xs → length xs ≤ length ks
  length-le ks [] d h = omega arith
  length-le ks (x ∷ xs) d h = omega (
    arith,
    length-remove_first (key x) ks h.0,
    length-le (remove_first (key x) ks) xs d.1 (AllIn-remove_first (key x) ks xs d.0 h.1),
  )
