-- ===== src/Chunking/Chunk.antt =====
-- `UdpChunk` of nodex-kademlia/src/chunking.rs. The checksum of the crc32fast crate is a parameter.
-- Strings are their UTF-8 bytes.
use node_x.Base.{
  ℕ, zero, suc, ◌+◌, ◌-◌, ◌*◌, ◌/◌, ◌%◌, Bool, false, not, ◌&&◌, ◌||◌, Option, none, some, List, [],
  ◌∷◌, ◌++◌, length, take, drop, is_empty, nat_beq, ltb, leb, if◌then◌else◌, ◌==◌, list_eq, nat_eq,
}
use node_x.Base.Words.{Bytes, to_be_bytes, from_be_bytes}
use node_x.Base.Outcome.{Outcome, ok, err, panic, ◌>>=◌}

abbrev pub max_udp_packet_size : ℕ
max_udp_packet_size = 1200

abbrev pub binary_header_size : ℕ
binary_header_size = 28

-- "NXCK"
abbrev pub binary_magic : Bytes
binary_magic = 78 ∷ 88 ∷ 67 ∷ 75 ∷ []

abbrev pub chunk_payload_size : ℕ
chunk_payload_size = 500

pub record UdpChunk : Type 0 where
  pub message_id : Bytes
  pub chunk_index : ℕ
  pub chunk_count : ℕ
  pub checksum : ℕ
  pub payload_hex : Bytes
  pub raw_data : Option Bytes

-- The messages of the errors.
pub data ChunkError : Type 0 where
  too_short invalid_magic invalid_hex_length invalid_digit : ChunkError

-- A digit of `{:02x}`.
abbrev pub hex_digit : ℕ → ℕ
hex_digit d = if ltb d 10 then 48 + d else 87 + d

-- `iter().map(|b| format!("{:02x}", b)).collect()`
unfoldable pub hex : Bytes → Bytes
hex [] = []
hex (b ∷ bs) = hex_digit (b / 16) ∷ hex_digit (b % 16) ∷ hex bs

-- `char::to_digit(16)`
unfoldable pub to_digit : ℕ → Option ℕ
to_digit c =
    if leb 48 c && leb c 57
    then some (c - 48)
    else if leb 97 c && leb c 102
    then some (c - 87)
    else if leb 65 c && leb c 70
    then some (c - 55)
    else none

-- `u8::from_str_radix` of two bytes in base 16; a leading plus sign is accepted.
unfoldable pub from_str_radix : ℕ → ℕ → Option ℕ
unfolding to_digit
from_str_radix a b = elim (to_digit b) [
  | none ↦ none
  | some low ↦
      if nat_beq a 43
      then some low
      else elim (to_digit a) [ none ↦ none | some high ↦ some (high * 16 + low) ]
]

-- A byte inside a character: a slice of a string that starts or ends at one panics.
abbrev pub is_continuation : ℕ → Bool
is_continuation b = leb 128 b && ltb b 192

abbrev pub starts_inside : Bytes → Bool
starts_inside [] = false
starts_inside (b ∷ bs) = is_continuation b

-- The pairs of digits, in turn, up to the first that is wrong.
unfoldable pub decode_pairs : Bytes → Outcome ChunkError Bytes
unfolding from_str_radix
decode_pairs (a ∷ b ∷ rest) =
    let decoded = decode_pairs rest in
    if is_continuation a || starts_inside rest then panic else elim (from_str_radix a b) [
      | none ↦ err invalid_digit
      | some byte ↦ decoded >>= λ bytes. ok (byte ∷ bytes)
    ]
decode_pairs _ = ok []

unfoldable pub decode_payload : UdpChunk → Outcome ChunkError Bytes
unfolding decode_pairs
decode_payload c = elim c.raw_data [
  | some r ↦ ok r
  | none ↦
      if not (nat_beq (length c.payload_hex % 2) 0)
      then err invalid_hex_length
      else decode_pairs c.payload_hex
]

abbrev pub datagram : UdpChunk → Bytes → Bytes
datagram c raw =
    binary_magic
    ++ (c.message_id
        ++ (to_be_bytes 2 c.chunk_index
            ++ (to_be_bytes 2 c.chunk_count ++ (to_be_bytes 4 c.checksum ++ raw))))

-- `none` is a panic of `decode_payload`.
unfoldable pub to_bytes : UdpChunk → Option Bytes
unfolding decode_payload
to_bytes c = elim c.raw_data [
  | some r ↦ some (datagram c r)
  | none ↦ elim (decode_payload c) [
    | ok r ↦ some (datagram c r)
    | err e ↦ some (datagram c [])
    | panic ↦ none
  ]
]

-- `bytes[from..to]`
abbrev pub slice : ℕ → ℕ → Bytes → Bytes
slice from to bytes = take (to - from) (drop from bytes)

-- The fields of a binary datagram.
abbrev pub chunk_in : Bytes → UdpChunk
chunk_in bytes = record {
  message_id = slice 4 20 bytes;
  chunk_index = from_be_bytes (slice 20 22 bytes);
  chunk_count = from_be_bytes (slice 22 24 bytes);
  checksum = from_be_bytes (slice 24 28 bytes);
  payload_hex = hex (drop binary_header_size bytes);
  raw_data = some (drop binary_header_size bytes);
}

unfoldable pub from_bytes : Bytes → Outcome ChunkError UdpChunk
unfolding hex
from_bytes bytes =
    if ltb (length bytes) binary_header_size
    then err too_short
    else if not (take 4 bytes == binary_magic)
    then err invalid_magic
    else ok (chunk_in bytes)

-- `div_ceil`
abbrev pub chunks_needed : ℕ → ℕ
chunks_needed len = (len + 499) / chunk_payload_size

module _ (compute_checksum : Bytes → ℕ) where
  abbrev pub chunk_of : Bytes → ℕ → ℕ → Bytes → UdpChunk
  chunk_of message_id chunk_count idx part = record {
    message_id = message_id;
    chunk_index = idx % 65536;
    chunk_count = chunk_count;
    checksum = compute_checksum part;
    payload_hex = hex part;
    raw_data = some part;
  }

  -- `data.chunks(500).enumerate()`, from an index on; there are no more chunks than bytes.
  unfoldable pub split_from : ℕ → Bytes → ℕ → ℕ → Bytes → List UdpChunk
  unfolding hex
  split_from zero message_id chunk_count idx bytes = []
  split_from (suc fuel) message_id chunk_count idx [] = []
  split_from (suc fuel) message_id chunk_count idx (b ∷ bs) =
      chunk_of message_id chunk_count idx (take chunk_payload_size (b ∷ bs))
      ∷ split_from fuel message_id chunk_count (suc idx) (drop chunk_payload_size (b ∷ bs))

  unfoldable pub split_data : Bytes → Bytes → List UdpChunk
  unfolding split_from
  split_data message_id bytes =
      if is_empty bytes
      then record {
        message_id = message_id;
        chunk_index = 0;
        chunk_count = 1;
        checksum = compute_checksum [];
        payload_hex = [];
        raw_data = some [];
      }
        ∷ []
      else split_from (length bytes) message_id (chunks_needed (length bytes) % 65536) 0 bytes
