-- ===== src/Rpc/RoundTrip.antt =====
-- Laws of `encode` and `decode` of nodex-kademlia/src/rpc.rs together.
use node_x.Rpc.Contacts.{contacts_from_c-map, All-map-contact_to_c, fill_contacts_lem}
use node_x.Rpc.Sendable.{IsSendable, IsSendablePayload, IsSendableMessage}
use node_x.Base.{
  ◌∙◌, inr, inl, ℕ, ◌+◌, ◌≤◌, ◌≡◌, refl, true, false, none, some, List, [], ◌++◌, length, take,
  drop, min, arith, All, map, length-map, length-append, length-drop, take-append_length,
  drop-append_length, drop-replicate, take_of_length-le, ltb-false,
}
use node_x.Base.Words.{Bytes}
use node_x.Base.Outcome.{ok}
use node_x.Net.{Contact}
use node_x.Wire.Format.{wire, wire_payload, wire_value, wire_contacts}
use node_x.Wire.Encoding.{length-wire, length-wire_contacts, length-wire_value, encode_message-wire}
use node_x.Wire.Decoding.{decode_message-wire}
use node_x.Wire.Message
use node_x.Wire.Message.{
  msg_find_value_resp, msg_find_node_resp, msg_store, SerializedContact, default_contact,
  max_contacts, max_value_size, IsContact, IsContacts, IsPayload, IsWellFormed, id_size,
  contact_size,
}
use node_x.Rpc.Payload.{
  RpcPayload, ping, pong, store, store_ack, find_node, find_node_resp, find_value, find_value_resp,
  RpcMessage,
}
use node_x.Rpc.Convert.{
  received, written, contact_to_c, empty_slots, contacts_to_c, payload_to_c, to_c_message,
  payload_from_c, from_c_message, estimated_size, encode, decode,
}

contacts_to_c_lem :
    (cs : List Contact)
    → length cs ≤ max_contacts
    → contacts_to_c cs
      ≡ record { count = length cs; contacts = map contact_to_c cs ++ drop (length cs) empty_slots }
unfolding contacts_to_c
contacts_to_c_lem cs h =
    let e : min (length cs) max_contacts ≡ length cs = omega arith in
    rw (
      e,
      take_of_length-le (length cs) cs (omega arith),
      fill_contacts_lem cs empty_slots (omega arith),
    )

filled-IsContacts :
    (now : ℕ) (cs : List Contact)
    → All (IsSendable now) cs
    → length cs ≤ max_contacts
    → IsContacts (length cs) (map contact_to_c cs ++ drop (length cs) empty_slots)
filled-IsContacts now cs h bound =
    let live = map contact_to_c cs in
    let pad = drop (length cs) empty_slots in
    let n : length live ≡ length cs = length-map contact_to_c cs in
    let e : take (length cs) (live ++ pad) ≡ live =
      take-append_length live pad (length cs) (omega arith) in
    let d : drop (length cs) (live ++ pad) ≡ pad =
      drop-append_length live pad (length cs) (omega arith) in
    record {
      bounded = bound;
      size = omega (arith, length-append live pad, length-drop (length cs) empty_slots);
      live = rw e (All-map-contact_to_c now cs h);
      padding = d ∙ drop-replicate (length cs) max_contacts default_contact;
    }

-- A payload's form on the wire is well formed, and is converted back to the payload.
payload_to_c_lem :
    (now : ℕ) (p : RpcPayload)
    → IsSendablePayload now p
    → (t : ℕ) × (c : Message.Payload) × (payload_to_c p ≡ ok (t, c))
      × IsPayload t c
      × (payload_from_c now t c ≡ ok p)
      × (29 + length (wire_payload c) ≤ estimated_size p)
unfolding payload_to_c payload_from_c wire_payload estimated_size
payload_to_c_lem now ping h = (_, _, refl, inl refl, refl, omega arith)
payload_to_c_lem now pong h = (_, _, refl, inr refl, refl, omega arith)
payload_to_c_lem now (store key value) h =
    let small = ltb-false max_value_size (length value) h.2 in
    let c : Message.Payload =
      Message.store (record { key = key; value_len = length value; value = value }) in
    (
      msg_store,
      c,
      rw small,
      (refl, h.0, record { counted = refl; bounded = h.2; bytes = h.1 }),
      rw small,
      omega (arith, length-append key (wire_value value), length-wire_value value, h.0.0),
    )
payload_to_c_lem now (store_ack true) h = (_, _, refl, (refl, omega arith), refl, omega arith)
payload_to_c_lem now (store_ack false) h = (_, _, refl, (refl, omega arith), refl, omega arith)
payload_to_c_lem now (find_node target) h = (_, _, refl, (refl, h), refl, omega (arith, h.0))
payload_to_c_lem now (find_node_resp cs) h =
    let slots = map contact_to_c cs ++ drop (length cs) empty_slots in
    let c : Message.Payload =
      Message.find_node_resp (record { count = length cs; contacts = slots }) in
    let e : min (length cs) max_contacts ≡ length cs = omega (arith, h.1) in
    (
      msg_find_node_resp,
      c,
      rw (contacts_to_c_lem cs h.1),
      (refl, filled-IsContacts now cs h.0 h.1),
      rw (e, contacts_from_c-map now cs (drop (length cs) empty_slots) h.0),
      omega (arith, h.1, length-wire_contacts (length cs) slots (filled-IsContacts now cs h.0 h.1)),
    )
payload_to_c_lem now (find_value key) h = (_, _, refl, (refl, h), refl, omega (arith, h.0))
payload_to_c_lem now (find_value_resp (some value) cs) h =
    let small = ltb-false max_value_size (length value) h.1 in
    let c : Message.Payload = Message.find_value_resp (record {
      has_value = 1;
      value_len = length value;
      value = value;
      count = 0;
      contacts = empty_slots;
    }) in
    (
      msg_find_value_resp,
      c,
      rw small,
      (
        refl,
        omega arith,
        filled-IsContacts now [] tt (omega arith),
        record { counted = refl; bounded = h.1; bytes = h.0 },
        λ z. absurd (omega arith),
      ),
      rw (small, h.2),
      omega (
        arith,
        length-append (wire_value value) (wire_contacts 0 empty_slots),
        length-wire_value value,
        length-wire_contacts 0 empty_slots (filled-IsContacts now [] tt (omega arith)),
      ),
    )
payload_to_c_lem now (find_value_resp none cs) h =
    let slots = map contact_to_c cs ++ drop (length cs) empty_slots in
    let c : Message.Payload =
      Message.find_value_resp (record {
        has_value = 0;
        value_len = 0;
        value = [];
        count = length cs;
        contacts = slots;
      }) in
    let e : min (length cs) max_contacts ≡ length cs = omega (arith, h.1) in
    (
      msg_find_value_resp,
      c,
      rw (contacts_to_c_lem cs h.1),
      (
        refl,
        omega arith,
        filled-IsContacts now cs h.0 h.1,
        record { counted = refl; bounded = omega arith; bytes = tt },
        λ z. refl,
      ),
      rw (e, contacts_from_c-map now cs (drop (length cs) empty_slots) h.0),
      omega (arith, h.1, length-wire_contacts (length cs) slots (filled-IsContacts now cs h.0 h.1)),
    )

-- Every message within the limits is encoded, in the buffer that the estimate provides, and the
-- bytes, at the time `now` and with anything behind them, decode to that message.
pub decode-encode :
    (now : ℕ) (m : RpcMessage) (rest : Bytes)
    → IsSendableMessage now m
    → (bytes : Bytes) × (encode m ≡ ok bytes) × (decode now (bytes ++ rest) ≡ ok m)
unfolding encode decode to_c_message from_c_message written received
decode-encode now m rest h =
    let (t, c, to, good, from, fits) = payload_to_c_lem now m.payload h.payload in
    let c_msg : Message.Message = record {
      msg_type = t;
      request_id = m.request_id;
      sender_id = m.sender_id;
      payload = c;
    } in
    let valid : IsWellFormed c_msg = record {
      request_id = h.request_id;
      sender_id = h.sender_id;
      payload = good;
    } in
    let size : length (wire c_msg) ≤ estimated_size m.payload =
      omega (arith, fits, length-wire c_msg valid) in
    (
      wire c_msg,
      rw (to, encode_message-wire c_msg (estimated_size m.payload) valid size),
      rw (decode_message-wire c_msg rest valid, from),
    )
