-- ===== src/Wire/Safety.antt =====
-- Laws of the decoder of core-ffi/src/lib.rs on arbitrary bytes.
use node_x.Wire.Sound.{
  Sound, Sound-pure, Sound-fail, Sound-need, Sound-read, Sound-read_byte, Sound-bind, read_byte_lem,
}
use node_x.Base.{
  ◌∙◌, drop-replicate, ℕ, zero, suc, ◌+◌, ◌*◌, ◌≤◌, ◌≡◌, refl, ◌⊎◌, inl, inr, ap, Bool, true, false,
  List, [], ◌∷◌, arith, length, take, drop, All, replicate, min, nat_beq, ltb, Bool-cases,
  if◌then◌else◌, ◌||◌,
}
use node_x.Base.Words.{Bytes, IsByte, from_be_bytes, from_be_bytes-lt}
use node_x.Base.Outcome.{ok, err, panic, Ensures}
use node_x.Wire.Buffer.{Reader, Wired, ◌>>=◌, read_lem}
use node_x.Wire.Message.{
  msg_ping, msg_pong, msg_find_value, msg_find_node_resp, msg_find_node, msg_store_ack,
  msg_find_value_resp, msg_store, id_size, max_contacts, contact_size, max_value_size,
  SerializedContact, IsContact, IsContacts, default_contact, IsValue, Payload, no_payload, Message,
  IsPayload, IsWellFormed,
}
use node_x.Wire.Decode.{
  decode_reader, read_contact, read_contacts, decode_contacts, decode_value, decode_store,
  decode_optional_value, decode_find_value_resp, decode_payload, decode_message,
}

read_contact_lem :
    (buf : Bytes)
    → contact_size ≤ length buf
    → All IsByte buf
    → (c : SerializedContact) × (rest : Bytes) × (read_contact buf ≡ ok (c, rest))
      × IsContact c
      × (length rest + contact_size ≡ length buf)
      × All IsByte rest
unfolding read_contact
read_contact_lem buf h bytes =
    let (id, r1, e1, a1, l1, g1, b1) = read_lem id_size buf (omega arith) bytes in
    let (ip_type, r2, e2, g2, l2, b2) = read_byte_lem r1 (omega arith) b1 in
    let (ip, r3, e3, a3, l3, g3, b3) = read_lem 16 r2 (omega arith) b2 in
    let (port, r4, e4, a4, l4, g4, b4) = read_lem 2 r3 (omega arith) b3 in
    (
      record { id = id; ip_type = ip_type; ip = ip; port = from_be_bytes port },
      r4,
      rw (◌>>=◌, e1, e2, e3, e4),
      record {
        id = (a1, g1);
        ip_type = g2;
        ip = (a3, g3);
        port = from_be_bytes-lt 2 port (a4, g4);
      },
      omega arith,
      b4,
    )

Sound-contact :
    {B : Type 0} {P : B → Type 0} (k n : ℕ) (f : SerializedContact → Reader B)
    → ((c : SerializedContact) → IsContact c → Sound k (f c) P)
    → contact_size + k ≤ n
    → Sound n (read_contact >>= f) P
Sound-contact k n f s enough = record {
  run = λ buf h bytes.
      let (c, rest, e, good, left, goods) = read_contact_lem buf (omega arith) bytes in
      rw (◌>>=◌, e) ((s c good).run rest (omega arith) goods);
}

-- What the loop makes of the array `old`.
record IsFilled (n : ℕ) (old cs : List SerializedContact) : Type 0 where
  size : length cs ≡ length old
  live : All IsContact (take n cs)
  kept : drop n cs ≡ drop n old

Sound-read_contacts :
    (n : ℕ) (old : List SerializedContact)
    → n ≤ length old
    → Sound (n * contact_size) (read_contacts n old) (IsFilled n old)
unfolding read_contacts
Sound-read_contacts zero old h = record {
  run = λ buf more bytes. (record { size = refl; live = tt; kept = refl }, bytes);
}
Sound-read_contacts (suc n) [] h = absurd (omega arith)
Sound-read_contacts (suc n) (c ∷ old) h =
    let here =
      Sound-contact {P = IsFilled (suc n) (c ∷ old)} (n * contact_size) (suc n * contact_size) _
        (λ c' good.
          Sound-bind (IsFilled n old) (n * contact_size) (read_contacts n old) _
            (Sound-read_contacts n old (omega arith))
            (λ cs' f.
              Sound-pure (c' ∷ cs')
                (record { size = ap suc f.size; live = (good, f.live); kept = f.kept })))
        (omega arith) in
    record { run = λ buf more bytes. here.run buf more bytes }

Sound-decode_contacts : Sound 0 decode_contacts (λ r. IsContacts r.count r.contacts)
unfolding decode_contacts
Sound-decode_contacts = Sound-need 1 _ (
    Sound-read_byte 0 _ λ declared b. Sound-need (min declared max_contacts * contact_size) _ (
      Sound-bind (IsFilled (min declared max_contacts) (replicate max_contacts default_contact))
        (min declared max_contacts * contact_size) _ _
        (Sound-read_contacts (min declared max_contacts) (replicate max_contacts default_contact)
          (omega arith))
        (λ cs f. Sound-pure _ (record {
          bounded = omega arith;
          size = f.size;
          live = f.live;
          padding =
              f.kept ∙ drop-replicate (min declared max_contacts) max_contacts default_contact;
        }))))

Sound-decode_value : (n : ℕ) → Sound 0 (decode_value n) (λ value. IsValue n value)
unfolding decode_value
Sound-decode_value n = elim (Bool-cases (ltb max_value_size n)) [
  | inl e ↦ rw e Sound-fail
  | inr e ↦ rw e (
      Sound-need n _ (record {
        run = λ buf h bytes.
            let (bs, rest, r, size, left, good, goods) = read_lem n buf h bytes in
            rw r (record { counted = omega arith; bounded = ground arith; bytes = good }, goods);
      }))
]

Sound-decode_store : Sound 0 decode_store (IsPayload msg_store)
unfolding decode_store
Sound-decode_store = Sound-need (id_size + 4) _ (
    Sound-read id_size 4 _ λ key a. Sound-read 4 0 _ λ len b.
      Sound-bind (IsValue (from_be_bytes len)) 0 _ _ (Sound-decode_value (from_be_bytes len))
        λ value v. Sound-pure _ (refl, a, v))

Sound-decode_optional_value :
    (has_value : ℕ)
    → Sound 0 (decode_optional_value has_value) (λ r. IsValue r.0 r.1 × (has_value ≡ 0 → r.1 ≡ []))
unfolding decode_optional_value
Sound-decode_optional_value has_value = elim (Bool-cases (nat_beq has_value 0)) [
  | inl e ↦
      rw e (
        Sound-pure (0, [])
          (record { counted = refl; bounded = omega arith; bytes = tt }, λ z. refl))
  | inr e ↦ rw e (
      Sound-need 4 _ (
        Sound-read 4 0 _ λ len b.
          Sound-bind (IsValue (from_be_bytes len)) 0 _ _ (Sound-decode_value (from_be_bytes len))
            λ value v. Sound-pure _ (v, λ z. ground arith)))
]

Sound-decode_find_value_resp : Sound 0 decode_find_value_resp (IsPayload msg_find_value_resp)
unfolding decode_find_value_resp
Sound-decode_find_value_resp = Sound-need 1 _ (
    Sound-read_byte 0 _ λ has_value b.
      Sound-bind _ 0 _ _ (Sound-decode_optional_value has_value) λ sent v.
        Sound-bind _ 0 _ _ Sound-decode_contacts λ r c. Sound-pure _ (refl, b, c, v.0, v.1))

Sound-if :
    {A : Type 0} {P : A → Type 0} (b : Bool) (p q : Reader A)
    → (b ≡ true → Sound 0 p P)
    → (b ≡ false → Sound 0 q P)
    → Sound 0 (if b then p else q) P
Sound-if true p q s t = s refl
Sound-if false p q s t = t refl

-- `t` is the type that the test compares it with.
type_of : (t k : ℕ) → nat_beq t k ≡ true → t ≡ k
type_of t k h = ground arith

ping_or_pong :
    (t : ℕ) → (nat_beq t msg_ping || nat_beq t msg_pong) ≡ true → (t ≡ msg_ping) ⊎ (t ≡ msg_pong)
ping_or_pong t h = ground arith

Sound-typed :
    (t k : ℕ) (p : Reader Payload)
    → Sound 0 p (IsPayload k)
    → nat_beq t k ≡ true
    → Sound 0 p (IsPayload t)
Sound-typed t k p s h = rw (type_of t k h) s

Sound-decode_payload : (t : ℕ) → Sound 0 (decode_payload t) (IsPayload t)
unfolding decode_payload
Sound-decode_payload t =
    Sound-if _ _ _ (λ e. Sound-pure no_payload (ping_or_pong t e))
      λ _. Sound-if _ _ _ (Sound-typed t msg_store _ Sound-decode_store) λ _.
        Sound-if _ _ _
          (Sound-typed t msg_store_ack _
            (Sound-need 1 _ (Sound-read_byte 0 _ λ status b. Sound-pure _ (refl, b))))
          λ _.
            Sound-if _ _ _
              (Sound-typed t msg_find_node _
                (Sound-need id_size _ (Sound-read id_size 0 _ λ id a. Sound-pure _ (refl, a))))
              λ _.
                Sound-if _ _ _
                  (Sound-typed t msg_find_node_resp _
                    (Sound-bind _ 0 _ _ Sound-decode_contacts λ r c. Sound-pure _ (refl, c)))
                  λ _.
                    Sound-if _ _ _
                      (Sound-typed t msg_find_value _ (
                        Sound-need id_size _
                          (Sound-read id_size 0 _ λ id a. Sound-pure _ (refl, a))))
                      λ _.
                        Sound-if _ _ _
                          (Sound-typed t msg_find_value_resp _ Sound-decode_find_value_resp)
                          λ _. Sound-fail

Sound-decode_reader : Sound 0 decode_reader IsWellFormed
unfolding decode_reader
Sound-decode_reader = Sound-need 29 _ (
    Sound-read_byte 28 _ λ t b. Sound-read 8 20 _ λ request_id a.
      Sound-read id_size 0 _ λ sender_id s. Sound-bind _ 0 _ _ (Sound-decode_payload t) λ p h.
        Sound-pure _
          (record { request_id = from_be_bytes-lt 8 request_id a; sender_id = s; payload = h }))

-- Whatever bytes arrive, the decoder does not read out of bounds, and a message that it accepts is
-- well formed: its type fits its payload, its arrays have their sizes, its value its length.
pub decode_message-IsWellFormed :
    (buf : Bytes) → All IsByte buf → Ensures IsWellFormed (decode_message buf)
unfolding decode_message
decode_message-IsWellFormed buf bytes =
    go (decode_reader buf) (Sound-decode_reader.run buf (omega arith) bytes)
  where
    go :
        (m : Wired (Message × Bytes))
        → Ensures (λ (r : Message × Bytes). IsWellFormed r.0 × All IsByte r.1) m
        → Ensures IsWellFormed (elim m [ ok (a, rest) ↦ ok a | err e ↦ err e | panic ↦ panic ])
    go (ok (a, rest)) h = h.0
    go (err e) h = tt
    go panic h = h
