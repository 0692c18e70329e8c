-- ===== src/Wire/Decode.antt =====
-- `ffi_decode_message` of core-ffi/src/lib.rs.
use node_x.Base.{
  ℕ, zero, suc, ◌+◌, ◌*◌, List, [], ◌∷◌, min, replicate, nat_beq, ltb, ◌||◌, if◌then◌else◌,
}
use node_x.Base.Words.{Bytes, from_be_bytes}
use node_x.Base.Outcome.{ok, err, panic}
use node_x.Wire.Buffer.{Wired, Reader, ◌>>=◌, ◌>>◌, pure, fail, need, read, read_byte}
use node_x.Wire.Message.{
  id_size, max_value_size, max_contacts, contact_size, msg_ping, msg_pong, msg_store, msg_store_ack,
  msg_find_node, msg_find_node_resp, msg_find_value, msg_find_value_resp, SerializedContact,
  default_contact, FindNodeRespPayload, Payload, no_payload, store, store_ack, find_node,
  find_node_resp, find_value, find_value_resp, Message,
}

unfoldable pub read_contact : Reader SerializedContact
read_contact = do
  id ← read id_size
  ip_type ← read_byte
  ip ← read 16
  port ← read 2
  pure (record { id = id; ip_type = ip_type; ip = ip; port = from_be_bytes port })

-- The loop that fills `contacts[0..count]`; an index out of the array panics.
unfoldable pub read_contacts : ℕ → List SerializedContact → Reader (List SerializedContact)
read_contacts zero cs buf = ok (cs, buf)
read_contacts (suc n) [] buf = panic
read_contacts (suc n) (c ∷ cs) buf =
    (do c' ← read_contact; cs' ← read_contacts n cs; pure (c' ∷ cs')) buf

unfoldable pub decode_contacts : Reader FindNodeRespPayload
decode_contacts = do
  need 1
  declared ← read_byte
  let count = min declared max_contacts
  need (count * contact_size)
  cs ← read_contacts count (replicate max_contacts default_contact)
  pure (record { count = count; contacts = cs })

-- `vlen > MAX_VALUE_SIZE || buf.len() < cursor + vlen`, and the value.
unfoldable pub decode_value : ℕ → Reader Bytes
decode_value vlen = if ltb max_value_size vlen then fail else do need vlen; read vlen

unfoldable pub decode_store : Reader Payload
decode_store = do
  need (id_size + 4)
  key ← read id_size
  len ← read 4
  value ← decode_value (from_be_bytes len)
  pure (store (record { key = key; value_len = from_be_bytes len; value = value }))

unfoldable pub decode_optional_value : ℕ → Reader (ℕ × Bytes)
decode_optional_value has_value = if nat_beq has_value 0 then pure (0, []) else do
  need 4
  len ← read 4
  value ← decode_value (from_be_bytes len)
  pure (from_be_bytes len, value)

unfoldable pub decode_find_value_resp : Reader Payload
decode_find_value_resp = do
  need 1
  has_value ← read_byte
  sent ← decode_optional_value has_value
  r ← decode_contacts
  pure (
      find_value_resp (record {
        has_value = has_value;
        value_len = sent.0;
        value = sent.1;
        count = r.count;
        contacts = r.contacts;
      }))

unfoldable pub decode_payload : ℕ → Reader Payload
decode_payload t =
    if nat_beq t msg_ping || nat_beq t msg_pong
    then pure no_payload
    else if nat_beq t msg_store
    then decode_store
    else if nat_beq t msg_store_ack
    then (do need 1; status ← read_byte; pure (store_ack status))
    else if nat_beq t msg_find_node
    then (do need id_size; id ← read id_size; pure (find_node id))
    else if nat_beq t msg_find_node_resp
    then (do r ← decode_contacts; pure (find_node_resp r))
    else if nat_beq t msg_find_value
    then (do need id_size; id ← read id_size; pure (find_value id))
    else if nat_beq t msg_find_value_resp
    then decode_find_value_resp
    else fail

unfoldable pub decode_reader : Reader Message
decode_reader = do
  need (1 + 8 + id_size)
  msg_type ← read_byte
  request_id ← read 8
  sender_id ← read id_size
  payload ← decode_payload msg_type
  pure (record {
    msg_type = msg_type;
    request_id = from_be_bytes request_id;
    sender_id = sender_id;
    payload = payload;
  })

-- What is left of the buffer is ignored.
unfoldable pub decode_message : Bytes → Wired Message
unfolding decode_reader
decode_message buf = elim (decode_reader buf) [
  | ok (m, rest) ↦ ok m
  | err e ↦ err e
  | panic ↦ panic
]
