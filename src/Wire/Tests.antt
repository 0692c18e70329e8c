-- ===== src/Wire/Tests.antt =====
-- Concrete messages for the laws of the wire format.
use node_x.Wire.Safety.{decode_message-IsWellFormed}
use node_x.Wire.Decoding.{decode_message-encode_message}
use node_x.Wire.Encoding.{encode_message-wire, length-wire}
use node_x.Wire.Decode.{decode_message}
use node_x.Wire.Encode.{encode_message}
use node_x.Wire.Format.{wire_payload, wire_value, wire}
use node_x.Wire.Message.{StorePayload, Message, msg_store, store, IsWellFormed}
use node_x.Base.{◌≤◌, ◌≡◌, refl, [], ◌∷◌, ◌++◌, arith, length, replicate, All}
use node_x.Base.Words.{to_be_bytes, Bytes, IsByte, replicate-IsArray}
use node_x.Base.Outcome.{ok, Ensures}
use node_x.Wire.Buffer.{Out}

abbrev stored : StorePayload
stored = record { key = replicate 20 9; value_len = 3; value = 1 ∷ 2 ∷ 3 ∷ [] }

abbrev message : Message
message = record {
  msg_type = msg_store;
  request_id = 300;
  sender_id = replicate 20 7;
  payload = store stored;
}

message-IsWellFormed : IsWellFormed message
message-IsWellFormed = record {
  request_id = omega arith;
  sender_id = replicate-IsArray 20 7 (omega arith);
  payload = (
    refl,
    replicate-IsArray 20 9 (omega arith),
    record {
      counted = refl;
      bounded = omega arith;
      bytes = (omega arith, (omega arith, (omega arith, tt)));
    },
  );
}

message-fits : length (wire message) ≤ 64
unfolding wire to_be_bytes wire_payload wire_value
message-fits = omega (arith, length-wire message message-IsWellFormed)

encode_message-wire_example :
    encode_message message 64 ≡ ok (record { written = wire message; capacity = 64 })
encode_message-wire_example = encode_message-wire message 64 message-IsWellFormed message-fits

decode_message-encode_message_example :
    (o : Out) × (encode_message message 64 ≡ ok o)
    × (decode_message (o.written ++ (5 ∷ [])) ≡ ok message)
decode_message-encode_message_example =
    decode_message-encode_message message 64 (5 ∷ []) message-IsWellFormed message-fits

-- A ping of 29 bytes.
abbrev received : Bytes
received = 1 ∷ replicate 28 0

received-IsByte : All IsByte received
received-IsByte = (omega arith, (replicate-IsArray 28 0 (omega arith)).1)

decode_message-IsWellFormed_example : Ensures IsWellFormed (decode_message received)
decode_message-IsWellFormed_example = decode_message-IsWellFormed received received-IsByte
