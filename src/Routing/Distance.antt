-- ===== src/Routing/Distance.antt =====
-- The xor metric of nodex-kademlia/src/node.rs, and `ffi_shared_prefix_bits` of core-ffi/src/lib.rs.
pub mod Metric
use Prim.Native.Nat.{bit_xor}
use node_x.Base.{ℕ, ◌+◌, Bool, true, false, [], ◌∷◌, ltb, nat_beq, if◌then◌else◌}
use node_x.Base.Words.{Bytes}
use node_x.Net.{NodeId}

-- `u8::leading_zeros`
unfoldable pub leading_zeros : ℕ → ℕ
leading_zeros x =
    if ltb x 1
    then 8
    else if ltb x 2
    then 7
    else if ltb x 4
    then 6
    else if ltb x 8
    then 5
    else if ltb x 16
    then 4
    else if ltb x 32
    then 3
    else if ltb x 64
    then 2
    else if ltb x 128
    then 1
    else 0

-- The loop stops at the first byte that differs.
unfoldable pub shared_prefix_bits : NodeId → NodeId → ℕ
unfolding leading_zeros
shared_prefix_bits (a ∷ as') (b ∷ bs) =
    let rest = shared_prefix_bits as' bs in
    let xor = bit_xor a b in if nat_beq xor 0 then 8 + rest else leading_zeros xor
shared_prefix_bits _ _ = 0

unfoldable pub distance : NodeId → NodeId → NodeId
distance (a ∷ as') (b ∷ bs) = bit_xor a b ∷ distance as' bs
distance _ _ = []

-- The derived order of `[u8; 20]`: the first byte that differs decides.
unfoldable pub id_le : NodeId → NodeId → Bool
id_le [] bs = true
id_le (a ∷ as') [] = false
id_le (a ∷ as') (b ∷ bs) =
    let rest = id_le as' bs in if ltb a b then true else if ltb b a then false else rest
