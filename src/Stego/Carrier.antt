-- ===== src/Stego/Carrier.antt =====
-- A packet in an image (nodex-messenger/src/stego.rs).
use node_x.Stego.RoundTrip.{length-packet, extract_lem}
use node_x.Stego.Bits.{AreClose, length-write_bits, write_bits-AreClose, bits-AreBits}
use node_x.Stego.{StegoError, stego_magic, body, packet, extract, embed, bits, write_bits}
use node_x.Base.Outcome.{Outcome, ok}
use node_x.Base.Words.{Bytes, IsByte, IsArray, to_be_bytes, to_be_bytes-IsByte}
use node_x.Base.{
  ℕ, ◌+◌, ◌*◌, ◌%◌, ◌^◌, ◌≤◌, ◌<◌, ◌≡◌, refl, false, List, ◌++◌, All, All-append, length, ltb,
  ltb-false, arith,
}

-- An image that carries the packet, and differs from the one before in the lowest bits only.
pub record IsCarrier (crc32 : Bytes → ℕ) (salt nonce ciphertext : Bytes) (channels : List ℕ)
    (r : Outcome StegoError (List ℕ)) : Type 0 where
  pub carrier : List ℕ
  pub returns : r ≡ ok carrier
  pub same_size : length carrier ≡ length channels
  pub close : AreClose carrier channels
  pub carries : extract crc32 carrier ≡ ok (salt, nonce, ciphertext)

module _ (crc32 : Bytes → ℕ) (in_range : (bytes : Bytes) → crc32 bytes < 2 ^ 32) where
  packet-IsByte :
      (salt nonce ciphertext : Bytes)
      → All IsByte salt
      → All IsByte nonce
      → All IsByte ciphertext
      → All IsByte (packet crc32 salt nonce ciphertext)
  unfolding packet
  packet-IsByte salt nonce ciphertext hs hn hc =
      let len = to_be_bytes 4 (length ciphertext % 2 ^ 32) in
      let rest =
        All-append IsByte salt (nonce ++ ciphertext) hs
          (All-append IsByte nonce ciphertext hn hc) in
      let behind =
        All-append IsByte len (salt ++ (nonce ++ ciphertext))
          (to_be_bytes-IsByte 4 (length ciphertext % 2 ^ 32)) rest in
      All-append IsByte (body crc32 salt nonce ciphertext)
        (to_be_bytes 4 (crc32 (body crc32 salt nonce ciphertext)))
        (All-append IsByte stego_magic (len ++ (salt ++ (nonce ++ ciphertext))) (omega arith)
          behind)
        (to_be_bytes-IsByte 4 (crc32 (body crc32 salt nonce ciphertext)))

  -- What is embedded in an image is extracted from it: a packet of a salt of 32 bytes, a nonce of 12
  -- bytes and a ciphertext of at most 1 000 000 bytes goes into every image that has a channel for
  -- each of its bits. The image keeps its size and all but the lowest bits of its channels, and the
  -- extraction gives back salt, nonce and ciphertext. The checksum has 32 bits.
  pub extract-embed :
      (salt nonce ciphertext : Bytes) (channels : List ℕ)
      → IsArray 32 salt
      → IsArray 12 nonce
      → All IsByte ciphertext
      → length ciphertext ≤ 1000000
      → (54 + length ciphertext + 4) * 8 ≤ length channels
      → IsCarrier crc32 salt nonce ciphertext channels (embed crc32 salt nonce ciphertext channels)
  unfolding embed
  extract-embed salt nonce ciphertext channels hs hn hc short room =
      let raw = packet crc32 salt nonce ciphertext in
      let size = length-packet crc32 salt nonce ciphertext hs.0 hn.0 short in
      let fits : ltb (length channels) (length raw * 8) ≡ false =
        ltb-false (length channels) (length raw * 8) (omega (arith, size)) in
      rw (embed, fits)
        (record {
          carrier = write_bits (bits raw) channels;
          returns = refl;
          same_size = length-write_bits (bits raw) channels;
          close = write_bits-AreClose (bits raw) channels (bits-AreBits raw);
          carries =
              extract_lem crc32 salt nonce ciphertext hs.0 hn.0 short channels
                (in_range (body crc32 salt nonce ciphertext))
                (packet-IsByte salt nonce ciphertext hs.1 hn.1 hc) room;
        })
