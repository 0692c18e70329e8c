-- ===== src/Attachments/Hex.antt =====
-- The digits of a key in a manifest of nodex-messenger/src/attachments.rs.
use node_x.Attachments.{hex_decode}
use node_x.Base.Outcome.{ok}
use node_x.Base.Words.{Bytes, IsByte}
use node_x.Base.{
  true, ap, ◌∙◌, ℕ, ◌+◌, ◌*◌, ◌/◌, ◌%◌, ◌<◌, ◌≡◌, refl, false, some, [], ◌∷◌, arith, length, All,
  nat_beq,
}
use node_x.Chunking.Chunk.{
  hex_digit, hex, to_digit, from_str_radix, is_continuation, starts_inside, decode_pairs,
}

to_digit-hex_digit : (d : ℕ) → d < 16 → to_digit (hex_digit d) ≡ some d
unfolding to_digit
to_digit-hex_digit d h = ground arith

is_continuation-hex_digit : (d : ℕ) → d < 16 → is_continuation (hex_digit d) ≡ false
is_continuation-hex_digit d h = ground arith

hex_digit-plus : (d : ℕ) → d < 16 → nat_beq (hex_digit d) 43 ≡ false
hex_digit-plus d h = ground arith

starts_inside-hex : (bs : Bytes) → All IsByte bs → starts_inside (hex bs) ≡ false
unfolding hex
starts_inside-hex [] h = refl
starts_inside-hex (b ∷ bs) h = is_continuation-hex_digit (b / 16) (omega (arith, h.0))

from_str_radix-digits :
    (a b high low : ℕ)
    → to_digit a ≡ some high
    → to_digit b ≡ some low
    → nat_beq a 43 ≡ false
    → from_str_radix a b ≡ some (high * 16 + low)
unfolding from_str_radix to_digit
from_str_radix-digits a b high low p q r = ground arith

from_str_radix-hex :
    (b : ℕ) → b < 256 → from_str_radix (hex_digit (b / 16)) (hex_digit (b % 16)) ≡ some b
from_str_radix-hex b h =
    let e : b / 16 * 16 + b % 16 ≡ b = omega arith in
    from_str_radix-digits (hex_digit (b / 16)) (hex_digit (b % 16)) (b / 16) (b % 16)
      (to_digit-hex_digit (b / 16) (omega arith)) (to_digit-hex_digit (b % 16) (omega arith))
      (hex_digit-plus (b / 16) (omega arith))
    ∙ ap some e

decode_pairs-hex : (bs : Bytes) → All IsByte bs → decode_pairs (hex bs) ≡ ok bs
unfolding decode_pairs hex
decode_pairs-hex [] h = refl
decode_pairs-hex (b ∷ bs) h =
    rw
      (
        is_continuation-hex_digit (b / 16) (omega (arith, h.0)),
        starts_inside-hex bs h.1,
        from_str_radix-hex b h.0,
        decode_pairs-hex bs h.1,
      )
      refl

length-hex : (bs : Bytes) → length (hex bs) ≡ 2 * length bs
unfolding hex
length-hex [] = refl
length-hex (b ∷ bs) = omega (arith, length-hex bs)

pub hex_decode-hex : (bs : Bytes) → All IsByte bs → hex_decode (hex bs) ≡ ok bs
unfolding hex_decode
hex_decode-hex bs h =
    let even : nat_beq (length (hex bs) % 2) 0 ≡ true = ground (arith, length-hex bs) in
    rw (even, decode_pairs-hex bs h) refl
