-- ===== src/Base/Map.antt =====
-- `HashMap` as an association list; the list's order stands for the map's iteration order.
use mathlib.Core.Logic.{inl, inr}
use Prim.Native.Nat.{◌+◌, ◌≤◌}
use mathlib.Core.Path.{◌≡◌, refl}
use mathlib.Core.Bool.{Bool, true, false}
use mathlib.Core.List.{List, [], ◌∷◌}
use mathlib.Core.Option.{Option, none, some}
use native.Mathlib.Omega.{arith}
use node_x.Base.Tests.{Bool-cases, if◌then◌else◌}
use node_x.Base.Lists.{length}
use node_x.Base.Keys.{==_refl, ==→eq, Eq, ◌==◌}

module _ {ℓ κ} {K : Type ℓ} {V : Type κ} ⦃e : Eq K⦄ where
  abbrev pub get : K → List (K × V) → Option V
  get k [] = none
  get k ((j, v) ∷ m) = if j == k then some v else get k m

  abbrev pub contains_key : K → List (K × V) → Bool
  contains_key k m = elim (get k m) [ none ↦ false | some _ ↦ true ]

  abbrev pub insert : K → V → List (K × V) → List (K × V)
  insert k v [] = (k, v) ∷ []
  insert k v ((j, w) ∷ m) = if j == k then (k, v) ∷ m else (j, w) ∷ insert k v m

  abbrev pub remove : K → List (K × V) → List (K × V)
  remove k [] = []
  remove k ((j, v) ∷ m) = let rest = remove k m in if j == k then rest else (j, v) ∷ rest

  abbrev pub retain : (K → V → Bool) → List (K × V) → List (K × V)
  retain p [] = []
  retain p ((j, v) ∷ m) = let rest = retain p m in if p j v then (j, v) ∷ rest else rest

  -- No key twice, as in every `HashMap`.
  abbrev pub IsMap : List (K × V) → Type κ
  IsMap [] = Unit
  IsMap ((j, v) ∷ m) = (get j m ≡ none) × IsMap m

abbrev pub AllValues {ℓ κ μ} : {K : Type ℓ} {V : Type κ} → (K → V → Type μ) → List (K × V) → Type μ
AllValues P [] = Unit
AllValues P ((j, v) ∷ m) = P j v × AllValues P m

module _ {ℓ κ} {K : Type ℓ} {V : Type κ} ⦃e : Eq K⦄ where
  pub get-insert :
      (k j : K) (v : V) (m : List (K × V))
      → get j (insert k v m) ≡ (if k == j then some v else get j m)
  get-insert k j v [] = refl
  get-insert k j v ((i, w) ∷ m) =
      ground (arith, e.eqb_iff k j, e.eqb_iff i k, e.eqb_iff i j, get-insert k j v m)

  pub get-remove :
      (k j : K) (m : List (K × V)) → get j (remove k m) ≡ (if k == j then none else get j m)
  get-remove k j [] = ground arith
  get-remove k j ((i, w) ∷ m) =
      ground (arith, e.eqb_iff k j, e.eqb_iff i k, e.eqb_iff i j, get-remove k j m)

  pub remove_absent : (k : K) (m : List (K × V)) → get k m ≡ none → remove k m ≡ m
  remove_absent k [] h = refl
  remove_absent k ((j, v) ∷ m) h = ground (arith, remove_absent k m)

  pub length-insert-le : (k : K) (v : V) (m : List (K × V)) → length (insert k v m) ≤ length m + 1
  length-insert-le k v [] = omega arith
  length-insert-le k v ((j, w) ∷ m) = ground (arith, length-insert-le k v m)

  pub length-insert_present :
      (k : K) (v w : V) (m : List (K × V)) → get k m ≡ some w → length (insert k v m) ≡ length m
  length-insert_present k v w [] h = cc
  length-insert_present k v w ((j, u) ∷ m) h = ground (arith, length-insert_present k v w m)

  pub length-remove-le : (k : K) (m : List (K × V)) → length (remove k m) ≤ length m
  length-remove-le k [] = omega arith
  length-remove-le k ((j, v) ∷ m) = ground (arith, length-remove-le k m)

  pub length-remove_present :
      (k : K) (v : V) (m : List (K × V)) → get k m ≡ some v → length (remove k m) + 1 ≤ length m
  length-remove_present k v [] h = cc
  length-remove_present k v ((j, w) ∷ m) h =
      ground (arith, length-remove_present k v m, length-remove-le k m)

  pub length-retain-le : (p : K → V → Bool) (m : List (K × V)) → length (retain p m) ≤ length m
  length-retain-le p [] = omega arith
  length-retain-le p ((j, v) ∷ m) = ground (arith, length-retain-le p m)

  pub get-retain-none :
      (p : K → V → Bool) (k : K) (m : List (K × V)) → get k m ≡ none → get k (retain p m) ≡ none
  get-retain-none p k [] h = refl
  get-retain-none p k ((j, v) ∷ m) h = ground (arith, get-retain-none p k m)

  pub insert-IsMap : (k : K) (v : V) (m : List (K × V)) → IsMap m → IsMap (insert k v m)
  insert-IsMap k v [] h = (refl, tt)
  insert-IsMap k v ((j, w) ∷ m) h =
      ground (arith, e.eqb_iff j k, e.eqb_iff k j, get-insert k j v m, insert-IsMap k v m)

  pub remove-IsMap : (k : K) (m : List (K × V)) → IsMap m → IsMap (remove k m)
  remove-IsMap k [] h = tt
  remove-IsMap k ((j, w) ∷ m) h = ground (arith, get-remove k j m, remove-IsMap k m)

  pub retain-IsMap : (p : K → V → Bool) (m : List (K × V)) → IsMap m → IsMap (retain p m)
  retain-IsMap p [] h = tt
  retain-IsMap p ((j, w) ∷ m) h = ground (arith, get-retain-none p j m, retain-IsMap p m)

  -- `retain` keeps an entry exactly when its predicate holds.
  pub get-retain :
      (p : K → V → Bool) (k : K) (v : V) (m : List (K × V))
      → IsMap m
      → get k m ≡ some v
      → get k (retain p m) ≡ (if p k v then some v else none)
  get-retain p k v [] h g = cc
  get-retain p k v ((j, w) ∷ m) h g =
      ground (arith, e.eqb_iff j k, get-retain-none p k m, get-retain p k v m)

  pub length-insert_absent :
      (k : K) (v : V) (m : List (K × V)) → get k m ≡ none → length (insert k v m) ≡ length m + 1
  length-insert_absent k v [] h = omega arith
  length-insert_absent k v ((j, w) ∷ m) h = ground (arith, length-insert_absent k v m)

  -- What holds of every entry.
  pub AllValues-insert {μ} :
      (P : K → V → Type μ) (k : K) (v : V) (m : List (K × V))
      → AllValues P m
      → P k v
      → AllValues P (insert k v m)
  AllValues-insert P k v [] h p = (p, tt)
  AllValues-insert P k v ((j, w) ∷ m) h p = ground (arith, AllValues-insert P k v m)

  pub AllValues-remove {μ} :
      (P : K → V → Type μ) (k : K) (m : List (K × V)) → AllValues P m → AllValues P (remove k m)
  AllValues-remove P k [] h = tt
  AllValues-remove P k ((j, w) ∷ m) h = ground (arith, AllValues-remove P k m)

  pub AllValues-retain {μ} :
      (P : K → V → Type μ) (p : K → V → Bool) (m : List (K × V))
      → AllValues P m
      → AllValues P (retain p m)
  AllValues-retain P p [] h = tt
  AllValues-retain P p ((j, w) ∷ m) h = ground (arith, AllValues-retain P p m)

  pub AllValues-get {μ} :
      (P : K → V → Type μ) (k : K) (v : V) (m : List (K × V))
      → AllValues P m
      → get k m ≡ some v
      → P k v
  AllValues-get P k v [] h e = absurd (cc)
  AllValues-get P k v ((j, w) ∷ m) h e = elim (Bool-cases (j == k)) [
    | inl d ↦ let p : j ≡ k = ==→eq d in let q : w ≡ v = ground arith in rw (← p, ← q) h.0
    | inr d ↦ AllValues-get P k v m h.1 (ground arith)
  ]

  pub remove-insert : (k : K) (v : V) (m : List (K × V)) → remove k (insert k v m) ≡ remove k m
  remove-insert k v [] = rw (==_refl k) refl
  remove-insert k v ((j, w) ∷ m) = ground (arith, ==_refl k, remove-insert k v m)
