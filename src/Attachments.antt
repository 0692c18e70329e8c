-- ===== src/Attachments.antt =====
-- The transfer of files of nodex-messenger/src/attachments.rs. The crates for encryption and
-- checksums are parameters, and the random key, id and nonces are arguments.
pub mod Hex
pub mod Pieces
pub mod RoundTrip
mod Tests
use node_x.Base.{
  ℕ, zero, suc, not, Option, none, some, List, [], ◌∷◌, ◌++◌, length, get_elem?, take, drop, map,
  ltb, leb, nat_beq, if◌then◌else◌, ◌==◌, list_eq, nat_eq, ◌%◌,
}
use node_x.Base.Words.{Bytes}
use node_x.Base.Outcome.{Outcome, ok, err, panic, ◌>>=◌}
use node_x.Base.Sort.{sort_by}
use node_x.Chunking.Chunk.{hex, decode_pairs}

abbrev pub max_media_file_bytes : ℕ
max_media_file_bytes = 104857600

abbrev pub media_chunk_size : ℕ
media_chunk_size = 32768

-- The file's name, its type, its thumbnail and the size of a chunk are not read.
pub record FileManifest : Type 0 where
  pub file_id : Bytes
  pub file_size : ℕ
  pub sha256_root : Bytes
  pub chunk_count : ℕ
  pub chunk_hashes : List Bytes
  pub encryption_key_hex : Bytes

pub record MediaChunk : Type 0 where
  pub file_id : Bytes
  pub chunk_index : ℕ
  pub chunk_count : ℕ
  pub nonce : Bytes
  pub ciphertext : Bytes
  pub checksum : ℕ

pub data MessengerError : Type 0 where
  too_large incomplete bad_key missing_index bad_checksum crypto bad_hash bad_root : MessengerError

-- ChaCha20-Poly1305 by key and nonce, SHA-256 as a text, and CRC-32.
pub record Crypto : Type 0 where
  pub encrypt : Bytes → Bytes → Bytes → Option Bytes
  pub decrypt : Bytes → Bytes → Bytes → Option Bytes
  pub sha256 : Bytes → Bytes
  pub crc32 : Bytes → ℕ

-- `raw_bytes.chunks(MEDIA_CHUNK_SIZE)`; there are no more chunks than bytes.
unfoldable pub pieces : ℕ → Bytes → List Bytes
pieces zero bytes = []
pieces (suc fuel) [] = []
pieces (suc fuel) (b ∷ bs) =
    take media_chunk_size (b ∷ bs) ∷ pieces fuel (drop media_chunk_size (b ∷ bs))

unfoldable pub hex_decode : Bytes → Outcome MessengerError Bytes
hex_decode s =
    if not (nat_beq (length s % 2) 0)
    then err bad_key
    else elim (decode_pairs s) [ ok bytes ↦ ok bytes | err e ↦ err bad_key | panic ↦ panic ]

module _ (c : Crypto) where
  module _ (file_id key : Bytes) (nonces : ℕ → Bytes) (count : ℕ) where
    abbrev pub sealed : ℕ → Bytes → MediaChunk
    sealed idx ciphertext = record {
      file_id = file_id;
      chunk_index = idx;
      chunk_count = count;
      nonce = nonces idx;
      ciphertext = ciphertext;
      checksum = c.crc32 ciphertext;
    }

    unfoldable pub seal : ℕ → List Bytes → Outcome MessengerError (List MediaChunk)
    seal idx [] = ok []
    seal idx (p ∷ ps) = elim (c.encrypt key (nonces idx) p) [
      | none ↦ err crypto
      | some ciphertext ↦ seal (suc idx) ps >>= λ rest. ok (sealed idx ciphertext ∷ rest)
    ]

  abbrev pub manifest_of : Bytes → Bytes → Bytes → List Bytes → FileManifest
  manifest_of file_id key raw ps = record {
    file_id = file_id;
    file_size = length raw;
    sha256_root = c.sha256 raw;
    chunk_count = length ps;
    chunk_hashes = map c.sha256 ps;
    encryption_key_hex = hex key;
  }

  unfoldable pub create_file_transfer :
      Bytes → Bytes → (ℕ → Bytes) → Bytes → Outcome MessengerError (FileManifest × List MediaChunk)
  create_file_transfer file_id key nonces raw =
      let ps = pieces (length raw) raw in
      if ltb max_media_file_bytes (length raw)
      then err too_large
      else seal file_id key nonces (length ps) 0 ps >>= λ cs.
          ok (manifest_of file_id key raw ps, cs)

  -- The checks of one chunk. A nonce of another length than 12 and an index beyond the hashes panic.
  unfoldable pub open_chunk : Bytes → List Bytes → ℕ → MediaChunk → Outcome MessengerError Bytes
  open_chunk key hashes idx m =
      if not (nat_beq m.chunk_index idx)
      then err missing_index
      else if not (nat_beq (c.crc32 m.ciphertext) m.checksum)
      then err bad_checksum
      else if not (nat_beq (length m.nonce) 12)
      then panic
      else elim (c.decrypt key m.nonce m.ciphertext) [
        | none ↦ err crypto
        | some p ↦ elim (get_elem? hashes idx) [
          | none ↦ panic
          | some h ↦ if c.sha256 p == h then ok p else err bad_hash
        ]
      ]

  unfoldable pub open_all : Bytes → List Bytes → ℕ → List MediaChunk → Outcome MessengerError Bytes
  open_all key hashes idx [] = ok []
  open_all key hashes idx (m ∷ ms) = open_chunk key hashes idx m >>= λ p.
      open_all key hashes (suc idx) ms >>= λ rest. ok (p ++ rest)

  unfoldable pub assemble_with :
      FileManifest → List MediaChunk → Bytes → Outcome MessengerError Bytes
  assemble_with manifest chunks key =
      if not (nat_beq (length key) 32)
      then err bad_key
      else open_all key manifest.chunk_hashes 0
          (sort_by (λ a b. leb a.chunk_index b.chunk_index) chunks)
        >>= λ bytes. if c.sha256 bytes == manifest.sha256_root then ok bytes else err bad_root

  unfoldable pub assemble_file_transfer :
      FileManifest → List MediaChunk → Outcome MessengerError Bytes
  assemble_file_transfer manifest chunks =
      if not (nat_beq (length chunks) manifest.chunk_count)
      then err incomplete
      else hex_decode manifest.encryption_key_hex >>= λ key. assemble_with manifest chunks key
