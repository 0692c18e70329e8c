-- ===== src/Base/Outcome.antt =====
-- How a call ends: with a value, with the error that the source returns, or with a panic.

pub data Outcome {ℓ} (E A : Type ℓ) : Type ℓ where
  ok : A → Outcome E A
  err : E → Outcome E A
  panic : Outcome E A

infixl 5 ◌>>=◌ ◌>>◌
abbrev pub ◌>>=◌ {ℓ} : {E A B : Type ℓ} → Outcome E A → (A → Outcome E B) → Outcome E B
ok a >>= f = f a
err e >>= f = err e
panic >>= f = panic

abbrev pub ◌>>◌ {ℓ} : {E A B : Type ℓ} → Outcome E A → Outcome E B → Outcome E B
m >> k = m >>= λ _. k

-- A call that neither panics nor breaks `P` of its value.
abbrev pub Ensures {ℓ} : {E A : Type ℓ} → (A → Type 0) → Outcome E A → Type 0
Ensures P (ok a) = P a
Ensures P (err e) = Unit
Ensures P panic = ⊥
