-- ===== src/Base/Words.antt =====
-- Bytes, and big-endian words: `to_be_bytes` and `from_be_bytes`.
use mathlib.Core.Path.{◌≡◌, refl, ap}
use Prim.Native.Nat.{ℕ, zero, suc, ◌+◌, ◌*◌, ◌/◌, ◌%◌, ◌^◌, ◌<◌}
use mathlib.Core.List.{List, [], ◌∷◌, ◌++◌}
use native.Mathlib.Omega.{arith}
use native.Mathlib.Nat.{pow-suc}
use node_x.Base.Lists.{replicate, length, length-append, All, All-append}

abbrev pub Bytes : Type 0
Bytes = List ℕ

abbrev pub IsByte : ℕ → Type 0
IsByte b = b < 256

-- A byte string of `n` bytes: a Rust `[u8; n]`.
abbrev pub IsArray : ℕ → Bytes → Type 0
IsArray n bs = (length bs ≡ n) × All IsByte bs

unfoldable pub to_be_bytes : ℕ → ℕ → Bytes
to_be_bytes zero n = []
to_be_bytes (suc w) n = to_be_bytes w (n / 256) ++ (n % 256) ∷ []

pub from_be_acc : ℕ → Bytes → ℕ
from_be_acc acc [] = acc
from_be_acc acc (b ∷ bs) = from_be_acc (acc * 256 + b) bs

unfoldable pub from_be_bytes : Bytes → ℕ
unfolding from_be_acc
from_be_bytes = from_be_acc 0

pub length-to_be_bytes : (w n : ℕ) → length (to_be_bytes w n) ≡ w
unfolding to_be_bytes
length-to_be_bytes zero n = refl
length-to_be_bytes (suc w) n = omega (
  arith,
  length-append (to_be_bytes w (n / 256)) ((n % 256) ∷ []),
  length-to_be_bytes w (n / 256),
)

pub to_be_bytes-IsByte : (w n : ℕ) → All IsByte (to_be_bytes w n)
unfolding to_be_bytes
to_be_bytes-IsByte zero n = tt
to_be_bytes-IsByte (suc w) n =
    All-append IsByte (to_be_bytes w (n / 256)) ((n % 256) ∷ []) (to_be_bytes-IsByte w (n / 256))
      (omega arith, tt)

from_be_acc-append :
    (acc : ℕ) (xs ys : Bytes) → from_be_acc acc (xs ++ ys) ≡ from_be_acc (from_be_acc acc xs) ys
unfolding from_be_acc
from_be_acc-append acc [] ys = refl
from_be_acc-append acc (x ∷ xs) ys = from_be_acc-append (acc * 256 + x) xs ys

-- The width in bits is 8 * w.
from_be_acc-to_be_bytes :
    (w n acc : ℕ) → n < 256 ^ w → from_be_acc acc (to_be_bytes w n) ≡ acc * 256 ^ w + n
unfolding from_be_acc to_be_bytes
from_be_acc-to_be_bytes zero n acc h = omega arith
from_be_acc-to_be_bytes (suc w) n acc h =
    let p : 256 ^ suc w ≡ 256 ^ w * 256 = pow-suc 256 w in
    rw from_be_acc-append (
      omega (
        arith,
        p,
        ap (λ (t : ℕ). acc * t) p,
        from_be_acc-to_be_bytes w (n / 256) acc (omega (arith, p)),
      ))

pub from_be_bytes-to_be_bytes : (w n : ℕ) → n < 256 ^ w → from_be_bytes (to_be_bytes w n) ≡ n
unfolding from_be_bytes
from_be_bytes-to_be_bytes w n h = omega (arith, from_be_acc-to_be_bytes w n 0 h)

from_be_acc-lt :
    (bs : Bytes) (acc n : ℕ) → All IsByte bs → acc < n → from_be_acc acc bs < n * 256 ^ length bs
unfolding from_be_acc
from_be_acc-lt [] acc n bytes h = omega arith
from_be_acc-lt (b ∷ bs) acc n bytes h =
    let p : 256 ^ suc (length bs) ≡ 256 ^ length bs * 256 = pow-suc 256 (length bs) in
    omega (
      arith,
      ap (λ (t : ℕ). n * t) p,
      from_be_acc-lt bs (acc * 256 + b) (n * 256) bytes.1 (omega arith),
    )

-- A word read from `w` bytes is in range.
pub from_be_bytes-lt : (w : ℕ) (bs : Bytes) → IsArray w bs → from_be_bytes bs < 256 ^ w
unfolding from_be_bytes
from_be_bytes-lt w bs h = rw (← h.0) (omega (arith, from_be_acc-lt bs 0 1 h.1))

pub replicate-IsArray : (n b : ℕ) → b < 256 → IsArray n (replicate n b)
replicate-IsArray zero b h = (refl, tt)
replicate-IsArray (suc n) b h = let rest = replicate-IsArray n b h in (ap suc rest.0, (h, rest.1))
