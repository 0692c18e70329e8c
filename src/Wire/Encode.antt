-- ===== src/Wire/Encode.antt =====
-- `ffi_encode_message` of core-ffi/src/lib.rs. The buffer is its written part and its size.
use node_x.Base.{
  ℕ, zero, suc, ◌+◌, ◌*◌, ◌||◌, List, [], ◌∷◌, length, take, min, nat_beq, if◌then◌else◌,
}
use node_x.Base.Words.{Bytes, to_be_bytes}
use node_x.Base.Outcome.{ok, err, panic}
use node_x.Wire.Buffer.{Wired, Out, Writer, ◌▸◌, room, put, done, code_minus_one}
use node_x.Wire.Message.{
  id_size, max_value_size, max_contacts, contact_size, msg_ping, msg_pong, SerializedContact,
  StorePayload, FindValueRespPayload, Payload, no_payload, store, store_ack, find_node,
  find_node_resp, find_value, find_value_resp, Message,
}

unfoldable pub put_contact : SerializedContact → Writer
put_contact c = put c.id ▸ put (c.ip_type ∷ []) ▸ put c.ip ▸ put (to_be_bytes 2 c.port)

-- The loop over `resp.contacts[0..count]`; an index out of the array panics.
unfoldable pub put_contacts : ℕ → List SerializedContact → Writer
put_contacts zero cs o = ok o
put_contacts (suc n) [] o = panic
put_contacts (suc n) (c ∷ cs) o = (put_contact c ▸ put_contacts n cs) o

-- The count, and that many contacts.
unfoldable pub encode_contacts : ℕ → List SerializedContact → Writer
encode_contacts declared cs =
    let count = min declared max_contacts in
    room (1 + count * contact_size) ▸ put (count ∷ []) ▸ put_contacts count cs

-- The length that is sent: what is declared, what is there, and the limit.
abbrev pub sent_len : ℕ → Bytes → ℕ
sent_len value_len value = min (min value_len (length value)) max_value_size

unfoldable pub encode_value : ℕ → Bytes → Writer
encode_value value_len value =
    let vlen = sent_len value_len value in
    room (4 + vlen) ▸ put (to_be_bytes 4 vlen) ▸ put (take vlen value)

unfoldable pub encode_store : StorePayload → Writer
encode_store st =
    let vlen = sent_len st.value_len st.value in
    room (id_size + 4 + vlen) ▸ put st.key ▸ put (to_be_bytes 4 vlen) ▸ put (take vlen st.value)

unfoldable pub encode_find_value_resp : FindValueRespPayload → Writer
encode_find_value_resp r =
    room 1
    ▸ put (r.has_value ∷ [])
    ▸ (if nat_beq r.has_value 0 then done else encode_value r.value_len r.value)
    ▸ encode_contacts r.count r.contacts

unfoldable pub encode_payload : ℕ → Payload → Writer
encode_payload t no_payload o =
    if nat_beq t msg_ping || nat_beq t msg_pong then ok o else err code_minus_one
encode_payload t (store st) o = encode_store st o
encode_payload t (store_ack status) o = (room 1 ▸ put (status ∷ [])) o
encode_payload t (find_node id) o = (room id_size ▸ put id) o
encode_payload t (find_node_resp r) o = encode_contacts r.count r.contacts o
encode_payload t (find_value id) o = (room id_size ▸ put id) o
encode_payload t (find_value_resp r) o = encode_find_value_resp r o

unfoldable pub encode_message : Message → ℕ → Wired Out
encode_message m capacity =
    (room (1 + 8 + id_size)
        ▸ put (m.msg_type ∷ [])
        ▸ put (to_be_bytes 8 m.request_id)
        ▸ put m.sender_id
        ▸ encode_payload m.msg_type m.payload)
      (record { written = []; capacity = capacity })
