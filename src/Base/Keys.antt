-- ===== src/Base/Keys.antt =====
-- Equality of keys as an interface, with instances for numbers, lists and pairs.
use Prim.Native.Nat.{ℕ}
use mathlib.Core.Path.{◌≡◌, refl}
use mathlib.Core.Logic.{◌↔◌, ◌≢◌}
use mathlib.Core.Bool.{Bool, true, false, ◌&&◌}
use mathlib.Core.List.{List, [], ◌∷◌}
use native.Mathlib.Omega.{arith}
use node_x.Base.Tests.{nat_beq, nat_beq_iff, &&-true}

pub record Eq {ℓ} (A : Type ℓ) : Type ℓ where
  pub eqb : A → A → Bool
  pub eqb_iff : (a b : A) → (eqb a b ≡ true) ↔ (a ≡ b)

infix 50 ◌==◌
abbrev pub ◌==◌ {ℓ} : {A : Type ℓ} ⦃key : Eq A⦄ → A → A → Bool
◌==◌ ⦃key⦄ = key.eqb

instance abbrev pub nat_eq : Eq ℕ
nat_eq = record { eqb = nat_beq; eqb_iff = nat_beq_iff }

module _ {ℓ} {A : Type ℓ} ⦃e : Eq A⦄ where
  abbrev pub list_beq : List A → List A → Bool
  list_beq [] [] = true
  list_beq (x ∷ xs) (y ∷ ys) = (x == y) && list_beq xs ys
  list_beq _ _ = false

  list_beq→eq : (xs ys : List A) → list_beq xs ys ≡ true → xs ≡ ys
  list_beq→eq [] [] h = refl
  list_beq→eq [] (y ∷ ys) h = cc
  list_beq→eq (x ∷ xs) [] h = cc
  list_beq→eq (x ∷ xs) (y ∷ ys) h =
      ground (arith, e.eqb_iff x y, list_beq→eq xs ys, &&-true (x == y) (list_beq xs ys) h)

  list_beq_refl : (xs : List A) → list_beq xs xs ≡ true
  list_beq_refl [] = refl
  list_beq_refl (x ∷ xs) = ground (arith, e.eqb_iff x x, list_beq_refl xs)

  pub list_beq_iff : (xs ys : List A) → (list_beq xs ys ≡ true) ↔ (xs ≡ ys)
  list_beq_iff xs ys = (list_beq→eq xs ys, λ p. rw p (list_beq_refl ys))

  pub ==_refl : (a : A) → (a == a) ≡ true
  ==_refl a = (e.eqb_iff a a).1 refl

  pub ==→eq : {a b : A} → (a == b) ≡ true → a ≡ b
  ==→eq {a} {b} h = (e.eqb_iff a b).0 h

  pub ==_ne : {a b : A} → a ≢ b → (a == b) ≡ false
  ==_ne {a} {b} h = ground (arith, e.eqb_iff a b)

instance abbrev pub list_eq {ℓ} : {A : Type ℓ} ⦃e : Eq A⦄ → Eq (List A)
list_eq = record { eqb = list_beq; eqb_iff = list_beq_iff }

module _ {ℓ κ} {A : Type ℓ} {B : Type κ} ⦃e : Eq A⦄ ⦃f : Eq B⦄ where
  abbrev pub pair_beq : A × B → A × B → Bool
  pair_beq (a, b) (c, d) = (a == c) && (b == d)

  pub pair_beq_iff : (p q : A × B) → (pair_beq p q ≡ true) ↔ (p ≡ q)
  pair_beq_iff (a, b) (c, d) = ground (arith, e.eqb_iff a c, f.eqb_iff b d)

instance abbrev pub pair_eq {ℓ κ} : {A : Type ℓ} {B : Type κ} ⦃e : Eq A⦄ ⦃f : Eq B⦄ → Eq (A × B)
pair_eq = record { eqb = pair_beq; eqb_iff = pair_beq_iff }
