-- ===== src/Routing/Distance/Metric.antt =====
-- Laws of the XOR metric (nodex-kademlia/src/node.rs, core-ffi/src/lib.rs).
use Prim.Native.Nat.{bit_xor}
use node_x.Base.{
  ℕ, zero, suc, ◌*◌, ◌≤◌, ◌<◌, ◌≡◌, refl, Bool, true, false, ◌&&◌, [], ◌∷◌, arith, nat_beq,
  nat_beq_iff, if◌then◌else◌, length, All, Bool-cases, inl, inr,
}
use node_x.Base.Words.{IsByte, IsArray}
use node_x.Net.{NodeId}
use node_x.Routing.Distance.{leading_zeros, shared_prefix_bits, distance, id_le}

-- What holds of every pair of bytes, checked for each pair.
every_below : (ℕ → Bool) → ℕ → Bool
every_below test zero = true
every_below test (suc bound) = test bound && every_below test bound

every_below-holds :
    (test : ℕ → Bool) (bound value : ℕ)
    → value < bound
    → every_below test bound ≡ true
    → test value ≡ true
unfolding every_below
every_below-holds test zero value small all = absurd (omega arith)
every_below-holds test (suc bound) value small all =
    ground (arith, every_below-holds test bound value)

all_pairs_sound :
    (p : ℕ → ℕ → Bool)
    → every_below (λ a. every_below (p a) 256) 256 ≡ true
    → (a b : ℕ) → IsByte a
    → IsByte b
    → p a b ≡ true
all_pairs_sound p h a b la lb =
    every_below-holds (p a) 256 b lb (every_below-holds (λ a. every_below (p a) 256) 256 a la h)

abbrev symmetric_at : ℕ → ℕ → Bool
symmetric_at a b = nat_beq (bit_xor a b) (bit_xor b a)

symmetric_table : every_below (λ a. every_below (symmetric_at a) 256) 256 ≡ true
unfolding every_below
symmetric_table = refl

abbrev undone_at : ℕ → ℕ → Bool
undone_at a b = nat_beq (bit_xor (bit_xor a b) b) a

undone_table : every_below (λ a. every_below (undone_at a) 256) 256 ≡ true
unfolding every_below
undone_table = refl

xor_comm : (a b : ℕ) → IsByte a → IsByte b → bit_xor a b ≡ bit_xor b a
xor_comm a b la lb =
    (nat_beq_iff (bit_xor a b) (bit_xor b a)).0
      (all_pairs_sound symmetric_at symmetric_table a b la lb)

pub xor_undone : (a b : ℕ) → IsByte a → IsByte b → bit_xor (bit_xor a b) b ≡ a
xor_undone a b la lb =
    (nat_beq_iff (bit_xor (bit_xor a b) b) a).0 (all_pairs_sound undone_at undone_table a b la lb)

-- The distance does not depend on the direction.
pub distance_comm : (x y : NodeId) → All IsByte x → All IsByte y → distance x y ≡ distance y x
unfolding distance
distance_comm [] [] hx hy = refl
distance_comm [] (b ∷ y) hx hy = refl
distance_comm (a ∷ x) [] hx hy = refl
distance_comm (a ∷ x) (b ∷ y) hx hy = cc (xor_comm a b hx.0 hy.0, distance_comm x y hx.1 hy.1)

-- Two ids of `n` bytes at the same distance from a third are the same id.
pub distance-injective :
    (n : ℕ) (x y target : NodeId)
    → IsArray n x
    → IsArray n y
    → IsArray n target
    → distance x target ≡ distance y target
    → x ≡ y
unfolding distance
distance-injective n [] [] target hx hy ht e = refl
distance-injective n [] (b ∷ y) target hx hy ht e = absurd (omega arith)
distance-injective n (a ∷ x) [] target hx hy ht e = absurd (omega arith)
distance-injective n (a ∷ x) (b ∷ y) [] hx hy ht e = absurd (omega arith)
distance-injective n (a ∷ x) (b ∷ y) (c ∷ t) hx hy ht e =
    let m = length x in
    let rest : distance x t ≡ distance y t = cc in
    let head : bit_xor a c ≡ bit_xor b c = cc in
    let tails =
      distance-injective (length x) x y t (refl, hx.1.1) (omega arith, hy.1.1) (omega arith, ht.1.1)
        rest in
    cc (xor_undone a c hx.1.0 ht.1.0, xor_undone b c hy.1.0 ht.1.0)

leading_zeros-le : (x : ℕ) → leading_zeros x ≤ 8
unfolding leading_zeros
leading_zeros-le x = ground arith

leading_zeros-lt : (x : ℕ) → nat_beq x 0 ≡ false → leading_zeros x < 8
unfolding leading_zeros
leading_zeros-lt x h = ground arith

-- The shared prefix never exceeds the bits of an id, and is all of them only for equal ids.
pub shared_prefix_bits-le : (x y : NodeId) → shared_prefix_bits x y ≤ 8 * length x
unfolding shared_prefix_bits
shared_prefix_bits-le [] y = omega arith
shared_prefix_bits-le (a ∷ x) [] = omega arith
shared_prefix_bits-le (a ∷ x) (b ∷ y) =
    ground (arith, leading_zeros-le (bit_xor a b), shared_prefix_bits-le x y)

equal_at : ℕ → ℕ → Bool
equal_at a b = if nat_beq (bit_xor a b) 0 then nat_beq a b else true

equal_table : every_below (λ a. every_below (equal_at a) 256) 256 ≡ true
unfolding every_below equal_at
equal_table = refl

xor-zero : (a b : ℕ) → IsByte a → IsByte b → bit_xor a b ≡ 0 → a ≡ b
unfolding equal_at
xor-zero a b ha hb e = ground (arith, all_pairs_sound equal_at equal_table a b ha hb)

-- Two ids of `n` bytes that share all `8 * n` bits are the same.
pub shared_prefix_bits-all :
    (n : ℕ) (x y : NodeId) → IsArray n x → IsArray n y → shared_prefix_bits x y ≡ 8 * n → x ≡ y
unfolding shared_prefix_bits
shared_prefix_bits-all n [] [] hx hy e = refl
shared_prefix_bits-all n [] (b ∷ y) hx hy e = absurd (omega arith)
shared_prefix_bits-all n (a ∷ x) [] hx hy e = absurd (omega arith)
shared_prefix_bits-all n (a ∷ x) (b ∷ y) hx hy e = elim (Bool-cases (nat_beq (bit_xor a b) 0)) [
  | inl z ↦
      let e' = rw z at e in
      let head : a ≡ b = xor-zero a b hx.1.0 hy.1.0 (ground arith) in
      let tails =
        shared_prefix_bits-all (length x) x y (refl, hx.1.1) (omega arith, hy.1.1) (omega arith) in
      cc
  | inr z ↦ let e' = rw z at e in absurd (omega (arith, leading_zeros-lt (bit_xor a b) z))
]

-- The order of ids is total and transitive.
pub id_le_total : (x y : NodeId) → id_le x y ≡ false → id_le y x ≡ true
unfolding id_le
id_le_total [] y h = cc
id_le_total (a ∷ x) [] h = refl
id_le_total (a ∷ x) (b ∷ y) h = ground (arith, id_le_total x y)

pub id_le_trans : (x y z : NodeId) → id_le x y ≡ true → id_le y z ≡ true → id_le x z ≡ true
unfolding id_le
id_le_trans [] y z h k = refl
id_le_trans (a ∷ x) [] z h k = cc
id_le_trans (a ∷ x) (b ∷ y) [] h k = cc
id_le_trans (a ∷ x) (b ∷ y) (c ∷ z) h k = ground (arith, id_le_trans x y z)
