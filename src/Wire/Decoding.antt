-- ===== src/Wire/Decoding.antt =====
-- Laws of the decoder of core-ffi/src/lib.rs on the wire format.
use node_x.Wire.Reads.{
  Reads, Reads-pure, Reads-read, Reads-read_byte, Reads-bind, Reads-map, Reads-map_eq, Reads-need,
}
use node_x.Base.{
  drop-replicate, ltb-false, length-take, All, ℕ, ◌+◌, ◌*◌, ◌≤◌, ◌≡◌, refl, inl, inr, sym, ap, List,
  [], ◌∷◌, ◌++◌, arith, length, take, drop, length-append, min, nat_beq, Bool-cases, if◌then◌else◌,
  replicate, take-append-drop,
}
use node_x.Base.Words.{
  Bytes, to_be_bytes, length-to_be_bytes, from_be_bytes, from_be_bytes-to_be_bytes, IsArray,
}
use node_x.Base.Outcome.{ok}
use node_x.Wire.Buffer.{Out, ◌>>=◌, pure, read}
use node_x.Wire.Message.{
  id_size, max_contacts, contact_size, max_value_size, SerializedContact, IsContact, IsContacts,
  default_contact, FindNodeRespPayload, IsValue, Payload, no_payload, store, store_ack, find_node,
  find_node_resp, find_value, FindValueRespPayload, StorePayload, find_value_resp, Message,
  IsPayload, IsWellFormed, msg_find_value_resp,
}
use node_x.Wire.Encode.{encode_message}
use node_x.Wire.Decode.{
  decode_reader, read_contact, read_contacts, decode_contacts, decode_value, decode_store,
  decode_optional_value, decode_find_value_resp, decode_payload, decode_message,
}
use node_x.Wire.Encoding.{encode_message-wire, length-wire_contacts, length-wire_value}
use node_x.Wire.Format.{wire_contact, wire_all, wire_contacts, wire_value, wire_payload, wire}

Reads-read_contact : (c : SerializedContact) → IsContact c → Reads read_contact (wire_contact c) c
unfolding read_contact wire_contact
Reads-read_contact c h = Reads-bind _ (Reads-read id_size c.id (sym h.id.0)) (
    Reads-bind _ (Reads-read_byte c.ip_type) (
      Reads-bind _ (Reads-read 16 c.ip (sym h.ip.0)) (
        Reads-map_eq (λ bs. record c { port = from_be_bytes bs })
          (Reads-read 2 (to_be_bytes 2 c.port) (sym (length-to_be_bytes 2 c.port)))
          (ap (λ (x : ℕ). record c { port = x }) (from_be_bytes-to_be_bytes 2 c.port h.port)))))

-- The loop writes the contacts that it reads over the first ones of the array.
Reads-read_contacts :
    (cs old : List SerializedContact)
    → All IsContact cs
    → length cs ≤ length old
    → Reads (read_contacts (length cs) old) (wire_all cs) (cs ++ drop (length cs) old)
unfolding read_contacts wire_all
Reads-read_contacts [] old h e = record { run = λ rest. refl }
Reads-read_contacts (c ∷ cs) [] h e = absurd (omega arith)
Reads-read_contacts (c ∷ cs) (d ∷ old) h e =
    let here =
      Reads-bind _ (Reads-read_contact c h.0)
        (Reads-map (λ cs'. c ∷ cs') (Reads-read_contacts cs old h.1 (omega arith))) in
    record { run = λ rest. here.run rest }

Reads-filled :
    (n : ℕ) (cs : List SerializedContact)
    → IsContacts n cs
    → Reads (read_contacts n (replicate max_contacts default_contact)) (wire_all (take n cs)) cs
Reads-filled n cs h =
    let e : length (take n cs) ≡ n = omega (arith, length-take n cs, h.bounded, h.size) in
    let whole : take n cs ++ drop n (replicate max_contacts default_contact) ≡ cs =
      rw (drop-replicate n max_contacts default_contact, ← h.padding) (take-append-drop n cs) in
    let fits = h.bounded in
    let r =
      Reads-read_contacts (take n cs) (replicate max_contacts default_contact) h.live
        (omega arith) in
    rw (e, whole) at r

Reads-decode_contacts :
    (r : FindNodeRespPayload)
    → IsContacts r.count r.contacts
    → Reads decode_contacts (wire_contacts r.count r.contacts) r
unfolding decode_contacts
Reads-decode_contacts r h =
    let e : min r.count max_contacts ≡ r.count = omega (arith, h.bounded) in
    let size = length-wire_contacts r.count r.contacts h in
    Reads-need 1 (omega arith) (
      unfold wire_contacts in
      Reads-bind _ (Reads-read_byte r.count) (
        rw e (
          Reads-need (r.count * contact_size) (omega (arith, size)) (
            Reads-map (λ cs. record { count = r.count; contacts = cs })
              (Reads-filled r.count r.contacts h)))))

Reads-decode_value : (n : ℕ) (value : Bytes) → IsValue n value → Reads (decode_value n) value value
unfolding decode_value
Reads-decode_value n value h =
    let small = h.bounded in
    let counted = h.counted in
    rw (ltb-false max_value_size n small) (Reads-need n (omega arith) (Reads-read n value counted))

length_word : (n w : ℕ) → n ≡ length (to_be_bytes n w)
length_word n w = sym (length-to_be_bytes n w)

-- A value behind its length, and what is done with both.
Reads-value :
    {B : Type 0} (f : ℕ → Bytes → B) (n : ℕ) (value : Bytes)
    → IsValue n value
    → Reads
        (do len ← read 4; v ← decode_value (from_be_bytes len); pure (f (from_be_bytes len) v))
        (wire_value value)
        (f n value)
unfolding wire_value
Reads-value f n value h =
    let counted = h.counted in
    let small = h.bounded in
    let e : from_be_bytes (to_be_bytes 4 n) ≡ n = from_be_bytes-to_be_bytes 4 n (omega arith) in
    rw (← counted) (
      Reads-bind _ (Reads-read 4 (to_be_bytes 4 n) (length_word 4 n))
        (rw e (Reads-map (λ v. f n v) (Reads-decode_value n value h))))

Reads-decode_store :
    (s : StorePayload)
    → IsArray id_size s.key
    → IsValue s.value_len s.value
    → Reads decode_store (s.key ++ wire_value s.value) (store s)
unfolding decode_store
Reads-decode_store s k v =
    Reads-need (id_size + 4)
      (omega (arith, length-append s.key (wire_value s.value), length-wire_value s.value, k.0))
      (Reads-bind _ (Reads-read id_size s.key (sym k.0)) (
        Reads-value (λ n value. store (record { key = s.key; value_len = n; value = value }))
          s.value_len s.value v))

Reads-optional :
    (r : FindValueRespPayload)
    → IsValue r.value_len r.value
    → (r.has_value ≡ 0 → r.value ≡ [])
    → Reads
        (decode_optional_value r.has_value)
        (if nat_beq r.has_value 0 then [] else wire_value r.value)
        (r.value_len, r.value)
unfolding decode_optional_value
Reads-optional r v empty = elim (Bool-cases (nat_beq r.has_value 0)) [
  | inl e ↦
      let none_sent = empty (ground arith) in
      let zero_len : r.value_len ≡ 0 =
        omega (arith, v.counted, ap (λ (b : Bytes). length b) none_sent) in
      rw (e, none_sent, zero_len) (Reads-pure (0, []))
  | inr e ↦ rw e (
      Reads-need 4 (omega (arith, length-wire_value r.value))
        (Reads-value (λ n value. (n, value)) r.value_len r.value v))
]

Reads-decode_find_value_resp :
    (r : FindValueRespPayload)
    → IsPayload msg_find_value_resp (find_value_resp r)
    → Reads decode_find_value_resp (wire_payload (find_value_resp r)) (find_value_resp r)
unfolding decode_find_value_resp wire_payload
Reads-decode_find_value_resp r h = Reads-need 1 (omega arith) (
    Reads-bind _ (Reads-read_byte r.has_value) (
      Reads-bind _ (Reads-optional r h.3 h.4) (
        Reads-map
          (λ (c : FindNodeRespPayload).
            find_value_resp (record r { count = c.count; contacts = c.contacts }))
          (Reads-decode_contacts (record { count = r.count; contacts = r.contacts }) h.2))))

Reads-decode_payload :
    (t : ℕ) (p : Payload) → IsPayload t p → Reads (decode_payload t) (wire_payload p) p
unfolding decode_payload wire_payload
Reads-decode_payload t no_payload (inl e) = rw e (Reads-pure no_payload)
Reads-decode_payload t no_payload (inr e) = rw e (Reads-pure no_payload)
Reads-decode_payload t (store s) h = rw h.0 (Reads-decode_store s h.1 h.2)
Reads-decode_payload t (store_ack status) h =
    rw h.0 (Reads-need 1 (omega arith) (Reads-map (λ b. store_ack b) (Reads-read_byte status)))
Reads-decode_payload t (find_node id) h = rw h.0 (
    Reads-need id_size (omega (arith, h.1.0))
      (Reads-map (λ i. find_node i) (Reads-read id_size id (sym h.1.0))))
Reads-decode_payload t (find_node_resp r) h =
    rw h.0 (Reads-map (λ x. find_node_resp x) (Reads-decode_contacts r h.1))
Reads-decode_payload t (find_value id) h = rw h.0 (
    Reads-need id_size (omega (arith, h.1.0))
      (Reads-map (λ i. find_value i) (Reads-read id_size id (sym h.1.0))))
Reads-decode_payload t (find_value_resp r) h =
    rw h.0 (Reads-decode_find_value_resp r (refl, h.1, h.2, h.3, h.4))

Reads-decode_reader : (m : Message) → IsWellFormed m → Reads decode_reader (wire m) m
unfolding decode_reader wire
Reads-decode_reader m h =
    let rest = m.sender_id ++ wire_payload m.payload in
    let a : length (to_be_bytes 8 m.request_id ++ rest) ≡ 8 + length rest =
      omega (
        arith,
        length-append (to_be_bytes 8 m.request_id) rest,
        length-to_be_bytes 8 m.request_id,
      ) in
    let b : 20 ≤ length rest =
      omega (arith, length-append m.sender_id (wire_payload m.payload), h.sender_id.0) in
    let e = from_be_bytes-to_be_bytes 8 m.request_id h.request_id in
    Reads-need (1 + 8 + id_size) (omega arith) (
      Reads-bind _ (Reads-read_byte m.msg_type) (
        Reads-bind _ (Reads-read 8 (to_be_bytes 8 m.request_id) (length_word 8 m.request_id)) (
          Reads-bind _ (Reads-read id_size m.sender_id (sym h.sender_id.0)) (
            rw e (
              Reads-map (λ p. record m { payload = p })
                (Reads-decode_payload m.msg_type m.payload h.payload))))))

-- The decoder reads a well-formed message off its wire format, and ignores what follows it.
pub decode_message-wire :
    (m : Message) (rest : Bytes) → IsWellFormed m → decode_message (wire m ++ rest) ≡ ok m
unfolding decode_message
decode_message-wire m rest h = rw (decode_message, (Reads-decode_reader m h).run rest)

-- What the encoder wrote of a well-formed message, followed by any bytes, decodes to the message.
pub decode_message-encode_message :
    (m : Message) (capacity : ℕ) (rest : Bytes)
    → IsWellFormed m
    → length (wire m) ≤ capacity
    → (o : Out) × (encode_message m capacity ≡ ok o) × (decode_message (o.written ++ rest) ≡ ok m)
decode_message-encode_message m capacity rest h fits = (
  record { written = wire m; capacity = capacity },
  encode_message-wire m capacity h fits,
  decode_message-wire m rest h,
)
