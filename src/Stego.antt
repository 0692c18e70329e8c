-- ===== src/Stego.antt =====
-- The carrier of nodex-messenger/src/stego.rs: packets in the lowest bits of an image. The image is
-- its colour channels red, green and blue, in the order of the pixels; what embeds them in a file
-- and the encryption of the packet are parameters.
pub mod Bits
pub mod RoundTrip
pub mod Carrier
mod Tests
use node_x.Base.{
  ℕ, zero, suc, ◌+◌, ◌-◌, ◌*◌, ◌/◌, ◌%◌, ◌^◌, not, Option, none, some, List, [], ◌∷◌, ◌++◌, length,
  take, drop, replicate, ltb, nat_beq, if◌then◌else◌, ◌==◌, list_eq, nat_eq,
}
use node_x.Base.Words.{Bytes, to_be_bytes, from_be_bytes}
use node_x.Base.Outcome.{Outcome, ok, err}

-- "NXSTG1"
abbrev pub stego_magic : Bytes
stego_magic = 78 ∷ 88 ∷ 83 ∷ 84 ∷ 71 ∷ 49 ∷ []

pub data StegoError : Type 0 where
  image_too_small no_signature bad_length exceeds_capacity bad_checksum : StegoError

-- The bits of a byte from bit `k - 1` down: `(byte >> (k - 1)) & 1`, and so on.
unfoldable pub bits_of : ℕ → ℕ → List ℕ
bits_of zero byte = []
bits_of (suc k) byte = byte / 2 ^ k % 2 ∷ bits_of k byte

-- The bits of the packet, by `bit_idx`.
unfoldable pub bits : Bytes → List ℕ
unfolding bits_of
bits [] = []
bits (b ∷ bs) = bits_of 8 b ++ bits bs

-- `(channel & 0xFE) | bit`
abbrev pub with_bit : ℕ → ℕ → ℕ
with_bit channel bit = channel / 2 * 2 + bit

-- The loops over the channels, until there are no more bits.
unfoldable pub write_bits : List ℕ → List ℕ → List ℕ
write_bits [] channels = channels
write_bits (b ∷ bs) [] = []
write_bits (b ∷ bs) (c ∷ cs) = with_bit c b ∷ write_bits bs cs

-- `byte |= bit << bit_offset`, for the `k` lowest bits, which are still clear.
unfoldable pub read_byte : ℕ → List ℕ → ℕ
read_byte zero channels = 0
read_byte (suc k) [] = 0
read_byte (suc k) (c ∷ cs) = c % 2 * 2 ^ k + read_byte k cs

-- So many bytes from the channels; where these end, the rest stays zero.
unfoldable pub read_bytes : ℕ → List ℕ → Bytes
unfolding read_byte
read_bytes zero channels = []
read_bytes (suc n) channels = read_byte 8 channels ∷ read_bytes n (drop 8 channels)

module _ (crc32 : Bytes → ℕ) where
  -- [MAGIC (6)] [PAYLOAD_LEN (4)] [SALT (32)] [NONCE (12)] [CIPHERTEXT (N)] [CRC32 (4)]
  abbrev pub body : Bytes → Bytes → Bytes → Bytes
  body salt nonce ciphertext =
      stego_magic ++ (to_be_bytes 4 (length ciphertext % 2 ^ 32) ++ (salt ++ (nonce ++ ciphertext)))

  unfoldable pub packet : Bytes → Bytes → Bytes → Bytes
  packet salt nonce ciphertext =
      body salt nonce ciphertext ++ to_be_bytes 4 (crc32 (body salt nonce ciphertext))

  -- `embed_contact_into_image`, from the ciphertext to the channels.
  unfoldable pub embed : Bytes → Bytes → Bytes → List ℕ → Outcome StegoError (List ℕ)
  embed salt nonce ciphertext channels =
      let raw = packet salt nonce ciphertext in
      if ltb (length channels) (length raw * 8)
      then err image_too_small
      else ok (write_bits (bits raw) channels)

  -- What is taken out of a packet: salt, nonce and ciphertext.
  abbrev pub parts : ℕ → Bytes → Bytes × Bytes × Bytes
  parts payload_len full =
      (take 32 (drop 10 full), take 12 (drop 42 full), take payload_len (drop 54 full))

  unfoldable pub check_packet : ℕ → Bytes → Outcome StegoError (Bytes × Bytes × Bytes)
  check_packet payload_len full =
      let size = 54 + payload_len in
      if nat_beq (crc32 (take size full)) (from_be_bytes (take 4 (drop size full)))
      then ok (parts payload_len full)
      else err bad_checksum

  unfoldable pub extract_body : ℕ → List ℕ → Outcome StegoError (Bytes × Bytes × Bytes)
  extract_body payload_len channels =
      if ltb 1000000 payload_len
      then err bad_length
      else if ltb (length channels) ((54 + payload_len + 4) * 8)
      then err exceeds_capacity
      else check_packet payload_len (read_bytes (54 + payload_len + 4) channels)

  -- `extract_contact_from_image`, up to the decryption.
  unfoldable pub extract : List ℕ → Outcome StegoError (Bytes × Bytes × Bytes)
  extract channels =
      let header = read_bytes 10 channels in
      if not (take 6 header == stego_magic)
      then err no_signature
      else extract_body (from_be_bytes (take 4 (drop 6 header))) channels
