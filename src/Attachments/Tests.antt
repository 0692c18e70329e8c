-- ===== src/Attachments/Tests.antt =====
-- A file of two pieces, under a cipher that keeps the bytes.
use node_x.Attachments.RoundTrip.{IsCipher, assemble_file_transfer-create_file_transfer}
use node_x.Attachments.{Crypto, create_file_transfer, assemble_file_transfer}
use node_x.Base.Outcome.{ok, ◌>>=◌}
use node_x.Base.Words.{Bytes, IsArray}
use node_x.Base.{ℕ, ◌≡◌, refl, some, [], ◌∷◌, length, replicate, length-replicate, arith}

abbrev identity : Crypto
identity = record {
  encrypt = λ k n p. some p;
  decrypt = λ k n x. some x;
  sha256 = λ bs. bs;
  crc32 = λ bs. length bs;
}

identity-IsCipher : IsCipher identity
identity-IsCipher = record { opens = λ k n p h h'. (p, refl, refl) }

abbrev ones : Bytes
ones = replicate 32 1

ones-IsArray : IsArray 32 ones
ones-IsArray = omega arith

abbrev file : Bytes
file = replicate 40000 7

assemble_file_transfer-create_file_transfer_example :
    (create_file_transfer identity (65 ∷ []) ones (replicate 12) file >>= λ t.
    assemble_file_transfer identity t.0 t.1)
    ≡ ok file
assemble_file_transfer-create_file_transfer_example =
    assemble_file_transfer-create_file_transfer identity (65 ∷ []) ones file (replicate 12)
      identity-IsCipher ones-IsArray (length-replicate {A = ℕ} 12)
      (omega (arith, length-replicate {A = ℕ} 40000 7))
