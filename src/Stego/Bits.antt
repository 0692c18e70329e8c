-- ===== src/Stego/Bits.antt =====
-- Bytes in the lowest bits of channels (nodex-messenger/src/stego.rs).
use node_x.Stego.{bits_of, bits, with_bit, write_bits, read_byte, read_bytes}
use node_x.Base.Words.{Bytes, IsByte}
use node_x.Base.{
  ℕ, zero, suc, ◌+◌, ◌*◌, ◌/◌, ◌%◌, ◌≤◌, ◌<◌, ◌≡◌, refl, ap, List, [], ◌∷◌, ◌++◌, All, All-append,
  length, take, drop, arith,
}

bit_back : (c b : ℕ) → b < 2 → with_bit c b % 2 ≡ b
bit_back c b h = omega arith

-- The first eight channels.
abbrev pub Eight : List ℕ → Type 0
Eight cs =
    (c0 : ℕ) × (c1 : ℕ) × (c2 : ℕ) × (c3 : ℕ) × (c4 : ℕ) × (c5 : ℕ) × (c6 : ℕ) × (c7 : ℕ)
    × (rest : List ℕ) × (cs ≡ c0 ∷ c1 ∷ c2 ∷ c3 ∷ c4 ∷ c5 ∷ c6 ∷ c7 ∷ rest)

eight : (cs : List ℕ) → 8 ≤ length cs → Eight cs
eight (c0 ∷ c1 ∷ c2 ∷ c3 ∷ c4 ∷ c5 ∷ c6 ∷ c7 ∷ rest) h =
    (c0, c1, c2, c3, c4, c5, c6, c7, rest, refl)
eight [] h = absurd (omega arith)
eight (c0 ∷ []) h = absurd (omega arith)
eight (c0 ∷ c1 ∷ []) h = absurd (omega arith)
eight (c0 ∷ c1 ∷ c2 ∷ []) h = absurd (omega arith)
eight (c0 ∷ c1 ∷ c2 ∷ c3 ∷ []) h = absurd (omega arith)
eight (c0 ∷ c1 ∷ c2 ∷ c3 ∷ c4 ∷ []) h = absurd (omega arith)
eight (c0 ∷ c1 ∷ c2 ∷ c3 ∷ c4 ∷ c5 ∷ []) h = absurd (omega arith)
eight (c0 ∷ c1 ∷ c2 ∷ c3 ∷ c4 ∷ c5 ∷ c6 ∷ []) h = absurd (omega arith)

byte_of_bits :
    (b : ℕ)
    → IsByte b
    → b / 128 % 2 * 128
        + (b / 64 % 2 * 64
            + (b / 32 % 2 * 32
                + (b / 16 % 2 * 16
                    + (b / 8 % 2 * 8 + (b / 4 % 2 * 4 + (b / 2 % 2 * 2 + (b / 1 % 2 * 1 + 0)))))))
      ≡ b
byte_of_bits b h = omega arith

first_byte :
    (b c0 c1 c2 c3 c4 c5 c6 c7 : ℕ) (bs cs : List ℕ)
    → IsByte b
    → read_byte 8 (write_bits (bits_of 8 b ++ bs) (c0 ∷ c1 ∷ c2 ∷ c3 ∷ c4 ∷ c5 ∷ c6 ∷ c7 ∷ cs)) ≡ b
unfolding read_byte write_bits bits_of
first_byte b c0 c1 c2 c3 c4 c5 c6 c7 bs cs h =
    rw
      (
        bit_back c0 (b / 128 % 2) (omega arith),
        bit_back c1 (b / 64 % 2) (omega arith),
        bit_back c2 (b / 32 % 2) (omega arith),
        bit_back c3 (b / 16 % 2) (omega arith),
        bit_back c4 (b / 8 % 2) (omega arith),
        bit_back c5 (b / 4 % 2) (omega arith),
        bit_back c6 (b / 2 % 2) (omega arith),
        bit_back c7 (b / 1 % 2) (omega arith),
      )
      (byte_of_bits b h)

-- What was written is read.
pub read_bytes-write_bits :
    (n : ℕ) (bs : Bytes) (cs : List ℕ)
    → All IsByte bs
    → n ≤ length bs
    → length bs * 8 ≤ length cs
    → read_bytes n (write_bits (bits bs) cs) ≡ take n bs
unfolding read_bytes bits
read_bytes-write_bits zero bs cs h short room = refl
read_bytes-write_bits (suc n) [] cs h short room = absurd (omega arith)
read_bytes-write_bits (suc n) (b ∷ bs) cs h short room =
    let (c0, c1, c2, c3, c4, c5, c6, c7, rest, e) = eight cs (omega arith) in
    let ih = read_bytes-write_bits n bs rest h.1 (omega arith) (omega (arith, ap length e)) in
    let head = first_byte b c0 c1 c2 c3 c4 c5 c6 c7 (bits bs) rest h.0 in
    let tail : drop 8
          (write_bits (bits_of 8 b ++ bits bs) (c0 ∷ c1 ∷ c2 ∷ c3 ∷ c4 ∷ c5 ∷ c6 ∷ c7 ∷ rest))
        ≡ write_bits (bits bs) rest =
      unfold write_bits bits_of in refl in
    rw (e, head, tail, ih) refl

-- Only the lowest bits change.
abbrev pub AreClose : List ℕ → List ℕ → Type 0
AreClose [] [] = Unit
AreClose (c ∷ cs) (d ∷ ds) = (c / 2 ≡ d / 2) × AreClose cs ds
AreClose _ _ = ⊥

close_refl : (cs : List ℕ) → AreClose cs cs
close_refl [] = tt
close_refl (c ∷ cs) = (refl, close_refl cs)

-- The bits are bits.
abbrev pub AreBits : List ℕ → Type 0
AreBits bs = All (λ b. b < 2) bs

pub write_bits-AreClose : (bs cs : List ℕ) → AreBits bs → AreClose (write_bits bs cs) cs
unfolding write_bits
write_bits-AreClose [] cs h = close_refl cs
write_bits-AreClose (b ∷ bs) [] h = tt
write_bits-AreClose (b ∷ bs) (c ∷ cs) h = (omega (arith, h.0), write_bits-AreClose bs cs h.1)

bits_of-AreBits : (k b : ℕ) → AreBits (bits_of k b)
unfolding bits_of
bits_of-AreBits zero b = tt
bits_of-AreBits (suc k) b = (omega arith, bits_of-AreBits k b)

pub bits-AreBits : (bs : Bytes) → AreBits (bits bs)
unfolding bits
bits-AreBits [] = tt
bits-AreBits (b ∷ bs) =
    All-append (λ x. x < 2) (bits_of 8 b) (bits bs) (bits_of-AreBits 8 b) (bits-AreBits bs)

pub length-write_bits : (bs cs : List ℕ) → length (write_bits bs cs) ≡ length cs
unfolding write_bits
length-write_bits [] cs = refl
length-write_bits (b ∷ bs) [] = refl
length-write_bits (b ∷ bs) (c ∷ cs) = ap suc (length-write_bits bs cs)
