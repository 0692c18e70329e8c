-- ===== src/Wire/Sound.antt =====
-- Rules for readers on arbitrary bytes (core-ffi/src/lib.rs).
use node_x.Base.{ℕ, ◌+◌, ◌≤◌, ◌≡◌, refl, inl, inr, [], ◌∷◌, arith, length, All}
use node_x.Base.Words.{Bytes, IsByte, IsArray}
use node_x.Base.Outcome.{ok, err, panic, Ensures}
use node_x.Wire.Buffer.{
  Reader, Wired, ◌>>=◌, ◌>>◌, pure, fail, need, read, read_byte, read_lem, need-cases,
}

-- With `n` bytes at hand the reader does not panic, and its value has `P`.
pub record Sound {A : Type 0} (n : ℕ) (p : Reader A) (P : A → Type 0) : Type 0 where
  pub run :
      (buf : Bytes)
      → n ≤ length buf
      → All IsByte buf
      → Ensures (λ (r : A × Bytes). P r.0 × All IsByte r.1) (p buf)

Sound-weaken :
    {B : Type 0} {P : B → Type 0} (k n : ℕ) (p : Reader B) → Sound k p P → k ≤ n → Sound n p P
Sound-weaken k n p s h = record { run = λ buf more bytes. s.run buf (omega arith) bytes }

module _ {B : Type 0} {P : B → Type 0} where
  pub Sound-pure : (b : B) → P b → Sound 0 (pure b) P
  Sound-pure b h = record { run = λ buf n bytes. (h, bytes) }

  pub Sound-fail : Sound 0 (fail {A = B}) P
  Sound-fail = record { run = λ buf n bytes. tt }

  pub Sound-need : (n : ℕ) (p : Reader B) → Sound n p P → Sound 0 (need n >> p) P
  Sound-need n p s = record {
    run = λ buf h bytes. elim (need-cases n buf) [
      | inl e ↦ rw (◌>>=◌, e) tt
      | inr e ↦ rw (◌>>=◌, e.0) (s.run buf e.1 bytes)
    ];
  }

  pub Sound-read :
      (n k : ℕ) (f : Bytes → Reader B)
      → ((bs : Bytes) → IsArray n bs → Sound k (f bs) P)
      → Sound (n + k) (read n >>= f) P
  Sound-read n k f s = record {
    run = λ buf h bytes.
        let (bs, rest, e, size, left, good, goods) = read_lem n buf (omega arith) bytes in
        rw (◌>>=◌, e) ((s bs (size, good)).run rest (omega arith) goods);
  }

  pub Sound-read_byte :
      (k : ℕ) (f : ℕ → Reader B)
      → ((b : ℕ) → IsByte b → Sound k (f b) P)
      → Sound (1 + k) (read_byte >>= f) P
  unfolding read_byte
  Sound-read_byte k f s = record {
    run = elim [
      | [] ↦ λ h bytes. absurd (omega arith)
      | b ∷ rest ↦ λ h bytes. (s b bytes.0).run rest (omega arith) bytes.1
    ];
  }

module _ {A B : Type 0} {P : B → Type 0} where
  pub Sound-bind :
      (Q : A → Type 0) (n : ℕ) (p : Reader A) (f : A → Reader B)
      → Sound n p Q
      → ((a : A) → Q a → Sound 0 (f a) P)
      → Sound n (p >>= f) P
  Sound-bind Q n p f s t = record { run = λ buf h bytes. go buf (p buf) refl (s.run buf h bytes) }
    where
      go :
          (buf : Bytes) (m : Wired (A × Bytes))
          → p buf ≡ m
          → Ensures (λ (r : A × Bytes). Q r.0 × All IsByte r.1) m
          → Ensures (λ (r : B × Bytes). P r.0 × All IsByte r.1) ((p >>= f) buf)
      go buf (ok (a, rest)) e h = rw (◌>>=◌, e) ((t a h.0).run rest (omega arith) h.1)
      go buf (err x) e h = rw (◌>>=◌, e) tt
      go buf panic e h = absurd h

pub read_byte_lem :
    (buf : Bytes)
    → 1 ≤ length buf
    → All IsByte buf
    → (b : ℕ) × (rest : Bytes) × (read_byte buf ≡ ok (b, rest))
      × IsByte b
      × (length rest + 1 ≡ length buf)
      × All IsByte rest
unfolding read_byte
read_byte_lem [] h bytes = absurd (omega arith)
read_byte_lem (b ∷ rest) h bytes = (b, rest, refl, bytes.0, omega arith, bytes.1)
