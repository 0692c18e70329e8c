-- ===== src/Stego/Tests.antt =====
-- A concrete image for the laws of the carrier.
use node_x.Stego.Carrier.{IsCarrier, extract-embed}
use node_x.Stego.{embed}
use node_x.Base.Words.{Bytes, replicate-IsArray}
use node_x.Base.{ℕ, ◌%◌, ◌^◌, [], ◌∷◌, length, replicate, length-replicate, arith}

abbrev checksum : Bytes → ℕ
checksum bytes = length bytes % 2 ^ 32

extract-embed_example :
    IsCarrier checksum
      (replicate 32 1)
      (replicate 12 2)
      (5 ∷ 6 ∷ [])
      (replicate 600 255)
      (embed checksum (replicate 32 1) (replicate 12 2) (5 ∷ 6 ∷ []) (replicate 600 255))
extract-embed_example =
    extract-embed checksum (λ bytes. omega arith) (replicate 32 1) (replicate 12 2) (5 ∷ 6 ∷ [])
      (replicate 600 255) (replicate-IsArray 32 1 (omega arith))
      (replicate-IsArray 12 2 (omega arith)) (omega arith) (omega arith)
      (omega (arith, length-replicate {A = ℕ} 600 255))
