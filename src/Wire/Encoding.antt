-- ===== src/Wire/Encoding.antt =====
-- Laws of the encoder of core-ffi/src/lib.rs.
use node_x.Base.{
  All, ℕ, zero, suc, ◌+◌, ◌*◌, ◌≤◌, ◌≡◌, inl, inr, List, [], ◌∷◌, ◌++◌, arith, length, take,
  length-append, take_of_length-le, append_assoc, append-nil, min, nat_beq, Bool-cases,
  if◌then◌else◌, length-take,
}
use node_x.Base.Words.{IsArray, Bytes, to_be_bytes, length-to_be_bytes}
use node_x.Base.Outcome.{ok}
use node_x.Wire.Buffer.{Out, Writer, ◌▸◌, room, put, done}
use node_x.Wire.Message.{
  id_size, max_contacts, contact_size, SerializedContact, IsContact, IsContacts, IsValue, Payload,
  no_payload, store, store_ack, find_node, find_node_resp, find_value, find_value_resp,
  StorePayload, FindValueRespPayload, Message, IsPayload, IsWellFormed,
}
use node_x.Wire.Encode.{
  sent_len, put_contact, put_contacts, encode_contacts, encode_value, encode_store,
  encode_find_value_resp, encode_payload, encode_message,
}
use node_x.Wire.Format.{wire_contact, wire_all, wire_contacts, wire_value, wire_payload, wire}

-- Where `w` fits, the writer adds `w` and nothing else.
record Writes (f : Writer) (w : Bytes) : Type 0 where
  run :
      (o : Out)
      → length o.written + length w ≤ o.capacity
      → f o ≡ ok (record o { written = o.written ++ w })

Writes-put : (bs : Bytes) → Writes (put bs) bs
unfolding put
Writes-put bs = record { run = λ o h. ground arith }

Writes-done : Writes done []
unfolding done
Writes-done = record { run = λ o h. rw append-nil }

Writes-seq : {f g : Writer} {v w : Bytes} → Writes f v → Writes g w → Writes (f ▸ g) (v ++ w)
Writes-seq {f} {g} {v} {w} p q = record {
  run = λ o h.
      let n : length (v ++ w) ≡ length v + length w = length-append v w in
      rw (p.run o (omega arith), ◌▸◌)
        (rw (← append_assoc) (
          q.run (record o { written = o.written ++ v })
            (omega (arith, length-append o.written v))));
}

room_open : (n : ℕ) (o : Out) → length o.written + n ≤ o.capacity → room n o ≡ ok o
unfolding room
room_open n o h = ground arith

Writes-room : {f : Writer} {w : Bytes} (n : ℕ) → n ≤ length w → Writes f w → Writes (room n ▸ f) w
Writes-room n e p = record { run = λ o h. rw (room_open n o (omega arith), ◌▸◌) (p.run o h) }

length-wire_contact : (c : SerializedContact) → IsContact c → length (wire_contact c) ≡ contact_size
unfolding wire_contact
length-wire_contact c h = omega (arith, length-append {0}, length-to_be_bytes, h.id.0, h.ip.0)

Writes-put_contact : (c : SerializedContact) → Writes (put_contact c) (wire_contact c)
unfolding put_contact wire_contact
Writes-put_contact c = Writes-seq (Writes-put c.id) (
    Writes-seq (Writes-put (c.ip_type ∷ []))
      (Writes-seq (Writes-put c.ip) (Writes-put (to_be_bytes 2 c.port))))

Writes-put_contacts :
    (n : ℕ) (cs : List SerializedContact)
    → n ≤ length cs
    → Writes (put_contacts n cs) (wire_all (take n cs))
unfolding put_contacts wire_all
Writes-put_contacts zero cs h = record { run = λ o f. rw append-nil }
Writes-put_contacts (suc n) [] h = absurd (omega arith)
Writes-put_contacts (suc n) (c ∷ cs) h =
    let here = Writes-seq (Writes-put_contact c) (Writes-put_contacts n cs (omega arith)) in
    record { run = λ o f. here.run o f }

length-wire_all :
    (cs : List SerializedContact)
    → All IsContact cs
    → length (wire_all cs) ≡ length cs * contact_size
unfolding wire_all
length-wire_all [] h = omega arith
length-wire_all (c ∷ cs) h = omega (
  arith,
  length-append (wire_contact c) (wire_all cs),
  length-wire_contact c h.0,
  length-wire_all cs h.1,
)

pub length-wire_contacts :
    (n : ℕ) (cs : List SerializedContact)
    → IsContacts n cs
    → length (wire_contacts n cs) ≡ 1 + n * contact_size
unfolding wire_contacts
length-wire_contacts n cs h =
    omega (arith, length-wire_all (take n cs) h.live, length-take n cs, h.bounded, h.size)

Writes-encode_contacts :
    (n : ℕ) (cs : List SerializedContact)
    → IsContacts n cs
    → Writes (encode_contacts n cs) (wire_contacts n cs)
unfolding encode_contacts
Writes-encode_contacts n cs h =
    let e : min n max_contacts ≡ n = omega (arith, h.bounded) in
    let fits = h.bounded in
    let size = h.size in
    rw e (
      Writes-room (1 + n * contact_size) (omega (arith, length-wire_contacts n cs h)) (
        unfold wire_contacts in
        Writes-seq (Writes-put (n ∷ [])) (Writes-put_contacts n cs (omega arith))))

sent_len_lem : (n : ℕ) (value : Bytes) → IsValue n value → sent_len n value ≡ length value
sent_len_lem n value h = omega (arith, h.counted, h.bounded)

pub length-wire_value : (value : Bytes) → length (wire_value value) ≡ 4 + length value
unfolding wire_value
length-wire_value value =
    omega (
      arith,
      length-append (to_be_bytes 4 (length value)) value,
      length-to_be_bytes 4 (length value),
    )

Writes-value :
    (value : Bytes)
    → Writes
        (put (to_be_bytes 4 (length value)) ▸ put (take (length value) value))
        (wire_value value)
unfolding wire_value
Writes-value value =
    let whole : take (length value) value ≡ value =
      take_of_length-le (length value) value (omega arith) in
    rw whole (Writes-seq (Writes-put (to_be_bytes 4 (length value))) (Writes-put value))

Writes-encode_value :
    (n : ℕ) (value : Bytes) → IsValue n value → Writes (encode_value n value) (wire_value value)
unfolding encode_value
Writes-encode_value n value h =
    rw (sent_len_lem n value h)
      (Writes-room (4 + length value) (omega (arith, length-wire_value value)) (Writes-value value))

Writes-encode_store :
    (s : StorePayload)
    → IsArray id_size s.key
    → IsValue s.value_len s.value
    → Writes (encode_store s) (s.key ++ wire_value s.value)
unfolding encode_store
Writes-encode_store s k v = rw (sent_len_lem s.value_len s.value v) (
    Writes-room (id_size + 4 + length s.value)
      (omega (arith, length-append s.key (wire_value s.value), length-wire_value s.value, k.0))
      (Writes-seq (Writes-put s.key) (Writes-value s.value)))

Writes-encode_payload :
    (t : ℕ) (p : Payload) → IsPayload t p → Writes (encode_payload t p) (wire_payload p)
unfolding encode_payload wire_payload encode_find_value_resp
Writes-encode_payload t no_payload h = record { run = λ o f. rw append-nil (ground arith) }
Writes-encode_payload t (store s) h = Writes-encode_store s h.1 h.2
Writes-encode_payload t (store_ack status) h =
    Writes-room 1 (omega arith) (Writes-put (status ∷ []))
Writes-encode_payload t (find_node id) h =
    Writes-room id_size (omega (arith, h.1.0)) (Writes-put id)
Writes-encode_payload t (find_node_resp r) h = Writes-encode_contacts r.count r.contacts h.1
Writes-encode_payload t (find_value id) h =
    Writes-room id_size (omega (arith, h.1.0)) (Writes-put id)
Writes-encode_payload t (find_value_resp r) h = Writes-room 1 (omega arith) (
    Writes-seq (Writes-put (r.has_value ∷ []))
      (Writes-seq (optional r h.3) (Writes-encode_contacts r.count r.contacts h.2)))
  where
    optional :
        (r : FindValueRespPayload)
        → IsValue r.value_len r.value
        → Writes
            (if nat_beq r.has_value 0 then done else encode_value r.value_len r.value)
            (if nat_beq r.has_value 0 then [] else wire_value r.value)
    optional r v = elim (Bool-cases (nat_beq r.has_value 0)) [
      | inl e ↦ rw e Writes-done
      | inr e ↦ rw e (Writes-encode_value r.value_len r.value v)
    ]

Writes-encode_message :
    (m : Message)
    → IsWellFormed m
    → Writes
        (room (1 + 8 + id_size)
          ▸ put (m.msg_type ∷ [])
          ▸ put (to_be_bytes 8 m.request_id)
          ▸ put m.sender_id
          ▸ encode_payload m.msg_type m.payload)
        (wire m)
unfolding wire
Writes-encode_message m h =
    let rest = m.sender_id ++ wire_payload m.payload in
    let a : length (to_be_bytes 8 m.request_id ++ rest) ≡ 8 + length rest =
      omega (
        arith,
        length-append (to_be_bytes 8 m.request_id) rest,
        length-to_be_bytes 8 m.request_id,
      ) in
    let b : 20 ≤ length rest =
      omega (arith, length-append m.sender_id (wire_payload m.payload), h.sender_id.0) in
    Writes-room (1 + 8 + id_size) (omega arith) (
      Writes-seq (Writes-put (m.msg_type ∷ [])) (
        Writes-seq (Writes-put (to_be_bytes 8 m.request_id)) (
          Writes-seq (Writes-put m.sender_id)
            (Writes-encode_payload m.msg_type m.payload h.payload))))

pub length-wire :
    (m : Message) → IsWellFormed m → length (wire m) ≡ 29 + length (wire_payload m.payload)
unfolding wire
length-wire m h =
    let rest = m.sender_id ++ wire_payload m.payload in
    omega (
      arith,
      length-append (to_be_bytes 8 m.request_id) rest,
      length-to_be_bytes 8 m.request_id,
      length-append m.sender_id (wire_payload m.payload),
      h.sender_id.0,
    )

-- In a buffer with room for its wire format, a well-formed message is encoded, as that format.
pub encode_message-wire :
    (m : Message) (capacity : ℕ)
    → IsWellFormed m
    → length (wire m) ≤ capacity
    → encode_message m capacity ≡ ok (record { written = wire m; capacity = capacity })
unfolding encode_message
encode_message-wire m capacity h fits =
    (Writes-encode_message m h).run (record { written = []; capacity = capacity }) (omega arith)
