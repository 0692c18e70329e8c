-- ===== src/Stego/RoundTrip.antt =====
-- What is embedded in an image is extracted from it (nodex-messenger/src/stego.rs).
use node_x.Stego.Bits.{read_bytes-write_bits, length-write_bits}
use node_x.Stego.{
  bits, write_bits, read_bytes, stego_magic, body, packet, check_packet, extract_body, extract,
}
use node_x.Chunking.Format.{drop-append_more}
use node_x.Base.Outcome.{ok}
use node_x.Base.Words.{
  Bytes, IsByte, to_be_bytes, from_be_bytes, length-to_be_bytes, from_be_bytes-to_be_bytes,
}
use node_x.Base.{
  take_of_length-le, length-take, nat_beq, nat_beq_iff, true, ltb-false, ℕ, ◌+◌, ◌*◌, ◌%◌, ◌^◌, ◌≤◌,
  ◌<◌, ◌≡◌, refl, List, ◌++◌, append_assoc, All, length, length-append, take, drop,
  take-append_length, drop-append_length, arith,
}

module _ (crc32 : Bytes → ℕ) (salt nonce ciphertext : Bytes) (thirty_two : length salt ≡ 32)
    (twelve : length nonce ≡ 12) (short : length ciphertext ≤ 1000000) where
  abbrev n : ℕ
  n = length ciphertext

  abbrev len : Bytes
  len = to_be_bytes 4 (n % 2 ^ 32)

  abbrev crc : Bytes
  crc = to_be_bytes 4 (crc32 (body crc32 salt nonce ciphertext))

  -- The packet, bracketed to the right behind its magic.
  abbrev behind : Bytes
  behind = len ++ (salt ++ (nonce ++ (ciphertext ++ crc)))

  packet-layout : packet crc32 salt nonce ciphertext ≡ stego_magic ++ behind
  unfolding packet
  packet-layout =
      rw
        (
          append_assoc len (salt ++ (nonce ++ ciphertext)) crc,
          append_assoc salt (nonce ++ ciphertext) crc,
          append_assoc nonce ciphertext crc,
        )
        refl

  length-body : length (body crc32 salt nonce ciphertext) ≡ 54 + n
  length-body = omega (
    arith,
    length-append len (salt ++ (nonce ++ ciphertext)),
    length-to_be_bytes 4 (n % 2 ^ 32),
    length-append salt (nonce ++ ciphertext),
    length-append nonce ciphertext,
    thirty_two,
    twelve,
  )

  pub length-packet : length (packet crc32 salt nonce ciphertext) ≡ 54 + n + 4
  unfolding packet
  length-packet = omega (
    arith,
    length-append (body crc32 salt nonce ciphertext) crc,
    length-body,
    length-to_be_bytes 4 (crc32 (body crc32 salt nonce ciphertext)),
  )

  in_len : length len ≡ 4
  in_len = length-to_be_bytes 4 (n % 2 ^ 32)

  salt_at : take 32 (drop 10 (packet crc32 salt nonce ciphertext)) ≡ salt
  salt_at =
      rw
        (
          packet-layout,
          drop-append_more len (salt ++ (nonce ++ (ciphertext ++ crc))) 4 0 (omega (arith, in_len)),
          take-append_length salt (nonce ++ (ciphertext ++ crc)) 32 (omega (arith, thirty_two)),
        )
        refl

  nonce_at : take 12 (drop 42 (packet crc32 salt nonce ciphertext)) ≡ nonce
  nonce_at =
      rw
        (
          packet-layout,
          drop-append_more len (salt ++ (nonce ++ (ciphertext ++ crc))) 36 32
              (omega (arith, in_len)),
          drop-append_more salt (nonce ++ (ciphertext ++ crc)) 32 0 (omega (arith, thirty_two)),
          take-append_length nonce (ciphertext ++ crc) 12 (omega (arith, twelve)),
        )
        refl

  ciphertext_at : take n (drop 54 (packet crc32 salt nonce ciphertext)) ≡ ciphertext
  ciphertext_at =
      rw
        (
          packet-layout,
          drop-append_more len (salt ++ (nonce ++ (ciphertext ++ crc))) 48 44
              (omega (arith, in_len)),
          drop-append_more salt (nonce ++ (ciphertext ++ crc)) 44 12 (omega (arith, thirty_two)),
          drop-append_more nonce (ciphertext ++ crc) 12 0 (omega (arith, twelve)),
          take-append_length ciphertext crc n refl,
        )
        refl

  length_in : from_be_bytes (take 4 (drop 6 (packet crc32 salt nonce ciphertext))) ≡ n
  length_in =
      rw
        (
          packet-layout,
          take-append_length len (salt ++ (nonce ++ (ciphertext ++ crc))) 4 (omega (arith, in_len)),
          from_be_bytes-to_be_bytes 4 (n % 2 ^ 32) (omega arith),
        )
        (omega (arith, short))

  check_packet_lem :
      crc32 (body crc32 salt nonce ciphertext) < 2 ^ 32
      → check_packet crc32 n (packet crc32 salt nonce ciphertext) ≡ ok (salt, nonce, ciphertext)
  unfolding check_packet
  check_packet_lem small =
      let b = body crc32 salt nonce ciphertext in
      let first : take (54 + n) (packet crc32 salt nonce ciphertext) ≡ b =
        unfold packet in take-append_length b crc (54 + n) (omega (arith, length-body)) in
      let last : drop (54 + n) (packet crc32 salt nonce ciphertext) ≡ crc =
        unfold packet in drop-append_length b crc (54 + n) (omega (arith, length-body)) in
      let sum : from_be_bytes (take 4 crc) ≡ crc32 b =
        rw (take_of_length-le 4 crc (omega (arith, length-to_be_bytes 4 (crc32 b))))
          (from_be_bytes-to_be_bytes 4 (crc32 b) small) in
      let same : nat_beq (crc32 b) (crc32 b) ≡ true = (nat_beq_iff (crc32 b) (crc32 b)).1 refl in
      rw (check_packet, first, last, sum, same, salt_at, nonce_at, ciphertext_at) refl

  module _ (channels : List ℕ) (small : crc32 (body crc32 salt nonce ciphertext) < 2 ^ 32)
      (bytes : All IsByte (packet crc32 salt nonce ciphertext))
      (room : (54 + n + 4) * 8 ≤ length channels) where
    -- The channels with the packet.
    abbrev written : List ℕ
    written = write_bits (bits (packet crc32 salt nonce ciphertext)) channels

    reads :
        (k : ℕ)
        → k ≤ 54 + n + 4
        → read_bytes k written ≡ take k (packet crc32 salt nonce ciphertext)
    reads k le =
        read_bytes-write_bits k (packet crc32 salt nonce ciphertext) channels bytes
          (omega (arith, length-packet)) (omega (arith, length-packet))

    extract_body_lem : extract_body crc32 n written ≡ ok (salt, nonce, ciphertext)
    unfolding extract_body
    extract_body_lem =
        let fits =
          ltb-false (length written) ((54 + n + 4) * 8) (
            omega
              (arith, length-write_bits (bits (packet crc32 salt nonce ciphertext)) channels)) in
        let whole : take (54 + n + 4) (packet crc32 salt nonce ciphertext)
            ≡ packet crc32 salt nonce ciphertext =
          take_of_length-le (54 + n + 4) (packet crc32 salt nonce ciphertext)
            (omega (arith, length-packet)) in
        rw (extract_body, ltb-false 1000000 n short, fits, reads (54 + n + 4) (omega arith), whole)
          (check_packet_lem small)

    pub extract_lem : extract crc32 written ≡ ok (salt, nonce, ciphertext)
    unfolding extract
    extract_lem =
        let magic : take 6 (take 10 (packet crc32 salt nonce ciphertext)) ≡ stego_magic =
          rw packet-layout refl in
        let size : take 4 (drop 6 (take 10 (packet crc32 salt nonce ciphertext)))
            ≡ take 4 (drop 6 (packet crc32 salt nonce ciphertext)) =
          rw
            (
              packet-layout,
              take_of_length-le 4 (take 4 behind) (omega (arith, length-take 4 behind)),
            )
            refl in
        rw (extract, reads 10 (omega arith), magic, size, length_in) extract_body_lem
