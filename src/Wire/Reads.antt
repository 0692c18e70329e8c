-- ===== src/Wire/Reads.antt =====
-- Rules for readers on written bytes (core-ffi/src/lib.rs).
use node_x.Base.{ℕ, ◌≤◌, ◌≡◌, refl, [], ◌∷◌, ◌++◌, length, append_assoc}
use node_x.Base.Words.{Bytes}
use node_x.Base.Outcome.{ok}
use node_x.Wire.Buffer.{Reader, ◌>>=◌, ◌>>◌, pure, need, read, read_byte, read-append, need-append}

-- In front of any rest, `w` is read as `a`, and the rest is left.
pub record Reads {A : Type 0} (p : Reader A) (w : Bytes) (a : A) : Type 0 where
  pub run : (rest : Bytes) → p (w ++ rest) ≡ ok (a, rest)

pub Reads-pure : {A : Type 0} (a : A) → Reads (pure a) [] a
Reads-pure a = record { run = λ rest. refl }

pub Reads-read : (n : ℕ) (bs : Bytes) → n ≡ length bs → Reads (read n) bs bs
Reads-read n bs e = record { run = λ rest. read-append n bs rest e }

pub Reads-read_byte : (b : ℕ) → Reads read_byte (b ∷ []) b
unfolding read_byte
Reads-read_byte b = record { run = λ rest. refl }

module _ {A B : Type 0} where
  pub Reads-bind :
      (f : A → Reader B) {p : Reader A} {v w : Bytes} {a : A} {b : B}
      → Reads p v a
      → Reads (f a) w b
      → Reads (p >>= f) (v ++ w) b
  Reads-bind f {p} {v} {w} {a} {b} r s = record {
    run = λ rest. rw (append_assoc, ◌>>=◌, r.run (w ++ rest)) (s.run rest);
  }

  pub Reads-map :
      {p : Reader A} {v : Bytes} {a : A} (g : A → B)
      → Reads p v a
      → Reads (p >>= λ x. pure (g x)) v (g a)
  Reads-map g r = record { run = λ rest. rw (◌>>=◌, r.run rest) }

module _ {A B : Type 0} where
  pub Reads-map_eq :
      {p : Reader A} {v : Bytes} {a : A} {b : B} (g : A → B)
      → Reads p v a
      → g a ≡ b
      → Reads (p >>= λ x. pure (g x)) v b
  Reads-map_eq g r e = record { run = λ rest. rw (← e) ((Reads-map g r).run rest) }

pub Reads-need :
    {B : Type 0} {p : Reader B} {w : Bytes} {b : B} (n : ℕ)
    → n ≤ length w
    → Reads p w b
    → Reads (need n >> p) w b
Reads-need {B} {p} {w} n e r = record {
  run = λ rest. rw (◌>>=◌, need-append n w rest e) (r.run rest);
}
