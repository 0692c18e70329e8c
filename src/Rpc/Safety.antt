-- ===== src/Rpc/Safety.antt =====
-- Laws of the decoder of nodex-kademlia/src/rpc.rs on arbitrary bytes.
use node_x.Wire.Safety.{decode_message-IsWellFormed}
use node_x.Wire.Decode.{decode_message}
use node_x.Rpc.Sendable.{IsRoutable, IsSendable, IsSendablePayload, IsSendableMessage}
use node_x.Base.{
  Bool-cases, inl, inr, length-take, All-take, Bool, ℕ, zero, suc, ◌≤◌, ◌≡◌, refl, ap, true, false,
  ◌||◌, some, List, [], ◌∷◌, length, take, min, ltb, nat_beq, if◌then◌else◌, arith, All,
}
use node_x.Base.Words.{Bytes, IsByte, IsArray}
use node_x.Base.Outcome.{Ensures, ok, err, panic, ◌>>=◌}
use node_x.Net.{v4, v6, Contact, is_unspecified, is_multicast, is_broadcast, new_contact}
use node_x.Wire.Buffer.{Wired}
use node_x.Wire.Message
use node_x.Wire.Message.{
  msg_find_value_resp, msg_find_node_resp, msg_store, SerializedContact, default_contact,
  max_contacts, max_value_size, IsContact, IsContacts, IsPayload, IsWellFormed, id_size,
  contact_size,
}
use node_x.Rpc.Payload.{RpcPayload, store, find_value_resp}
use node_x.Rpc.Convert.{
  value_too_large, RpcError, unroutable, received, Result, c_to_ip, c_to_contact, contacts_from_c,
  payload_from_c, from_c_message, decode,
}

IsRoutable-v4 :
    (o : Bytes)
    → IsArray 4 o
    → Ensures {E = RpcError} IsRoutable (
        if is_unspecified (v4 o) || (is_broadcast o || is_multicast (v4 o))
        then err unroutable
        else ok (v4 o))
IsRoutable-v4 o h =
    elim (Bool-cases (is_unspecified (v4 o) || (is_broadcast o || is_multicast (v4 o)))) [
      | inl e ↦ rw e tt
      | inr e ↦ rw e (h, ground arith, ground arith, ground arith)
    ]

IsRoutable-v6 :
    (o : Bytes)
    → IsArray 16 o
    → Ensures {E = RpcError} IsRoutable
        (if is_unspecified (v6 o) || is_multicast (v6 o) then err unroutable else ok (v6 o))
IsRoutable-v6 o h = elim (Bool-cases (is_unspecified (v6 o) || is_multicast (v6 o))) [
  | inl e ↦ rw e tt
  | inr e ↦ rw e (h, ground arith, ground arith)
]

take-IsArray : (n m : ℕ) (o : Bytes) → n ≤ m → IsArray m o → IsArray n (take n o)
take-IsArray n m o h a = (omega (arith, a.0, length-take n o), All-take IsByte n o a.1)

Ensures-if :
    {A : Type 0} (P : A → Type 0) (b : Bool) (x y : Result A)
    → (b ≡ true → Ensures P x)
    → (b ≡ false → Ensures P y)
    → Ensures P (if b then x else y)
Ensures-if P true x y h k = h refl
Ensures-if P false x y h k = k refl

Ensures-bind :
    {A B : Type 0} (Q : A → Type 0) (P : B → Type 0) (m : Result A) (f : A → Result B)
    → Ensures Q m
    → ((a : A) → Q a → Ensures P (f a))
    → Ensures P (m >>= f)
Ensures-bind Q P (ok a) f h k = k a h
Ensures-bind Q P (err e) f h k = tt
Ensures-bind Q P panic f h k = h

c_to_ip-IsRoutable : (t : ℕ) (ip : Bytes) → IsArray 16 ip → Ensures IsRoutable (c_to_ip t ip)
unfolding c_to_ip
c_to_ip-IsRoutable t ip h =
    Ensures-if IsRoutable (nat_beq t 4) _ _
      (λ _. IsRoutable-v4 (take 4 ip) (take-IsArray 4 16 ip (omega arith) h))
      λ _.
        Ensures-if IsRoutable (nat_beq t 6) _ _
          (λ _. IsRoutable-v6 (take 16 ip) (take-IsArray 16 16 ip (omega arith) h)) λ _. tt

c_to_contact-IsSendable :
    (now : ℕ) (c : SerializedContact) → IsContact c → Ensures (IsSendable now) (c_to_contact now c)
unfolding c_to_contact new_contact
c_to_contact-IsSendable now c h =
    Ensures-if (IsSendable now) (nat_beq c.port 0) _ _ (λ _. tt)
      λ e.
        Ensures-bind IsRoutable (IsSendable now) (c_to_ip c.ip_type c.ip) _
          (c_to_ip-IsRoutable c.ip_type c.ip h.ip)
          λ ip r. record {
            id = h.id;
            ip = r;
            port_pos = ground arith;
            port_bound = h.port;
            seen = refl;
          }

contacts_from_c-IsSendable :
    (now n : ℕ) (cs : List SerializedContact)
    → n ≤ length cs
    → All IsContact (take n cs)
    → Ensures
        (λ (r : List Contact). All (IsSendable now) r × (length r ≡ n))
        (contacts_from_c now n cs)
unfolding contacts_from_c
contacts_from_c-IsSendable now zero cs h live = (tt, refl)
contacts_from_c-IsSendable now (suc n) [] h live = absurd (omega arith)
contacts_from_c-IsSendable now (suc n) (c ∷ cs) h live =
    Ensures-bind (IsSendable now) _ (c_to_contact now c) _ (c_to_contact-IsSendable now c live.0)
      λ a good.
        Ensures-bind (λ (r : List Contact). All (IsSendable now) r × (length r ≡ n)) _
          (contacts_from_c now n cs) _ (contacts_from_c-IsSendable now n cs (omega arith) live.1)
          λ rest goods. ((good, goods.0), ap suc goods.1)

from_contacts :
    (now n : ℕ) (cs : List SerializedContact)
    → IsContacts n cs
    → Ensures
        (λ (r : List Contact). All (IsSendable now) r × (length r ≤ max_contacts))
        (contacts_from_c now (min n max_contacts) cs)
from_contacts now n cs h =
    let e : min n max_contacts ≡ n = omega (arith, h.bounded) in
    rw e (
      weaken (contacts_from_c now n cs)
        (contacts_from_c-IsSendable now n cs (omega (arith, h.bounded, h.size)) h.live))
  where
    weaken :
        (m : Result (List Contact))
        → Ensures (λ (r : List Contact). All (IsSendable now) r × (length r ≡ n)) m
        → Ensures (λ (r : List Contact). All (IsSendable now) r × (length r ≤ max_contacts)) m
    weaken (ok r) g = (g.0, omega (arith, g.1, h.bounded))
    weaken (err e) g = tt
    weaken panic g = g

-- Behind the test of its size, an acceptable payload is accepted or refused.
sized :
    (now : ℕ) (p : RpcPayload)
    → IsSendablePayload now p
    → (b : Bool) → Ensures (IsSendablePayload now) (if b then err value_too_large else ok p)
sized now p h true = tt
sized now p h false = h

payload_from_c-IsSendable :
    (now t : ℕ) (p : Message.Payload)
    → IsPayload t p
    → Ensures (IsSendablePayload now) (payload_from_c now t p)
unfolding payload_from_c
payload_from_c-IsSendable now t Message.no_payload (inl e) = rw e tt
payload_from_c-IsSendable now t Message.no_payload (inr e) = rw e tt
payload_from_c-IsSendable now t (Message.store s) h = rw h.0 (
    sized now (store s.key s.value) (h.1, h.2.bytes, omega (arith, h.2.counted, h.2.bounded))
      (ltb max_value_size s.value_len))
payload_from_c-IsSendable now t (Message.store_ack status) h = rw h.0 tt
payload_from_c-IsSendable now t (Message.find_node id) h = rw h.0 h.1
payload_from_c-IsSendable now t (Message.find_node_resp r) h = rw h.0 (
    Ensures-bind _ (IsSendablePayload now)
      (contacts_from_c now (min r.count max_contacts) r.contacts) _
      (from_contacts now r.count r.contacts h.1) λ cs g. g)
payload_from_c-IsSendable now t (Message.find_value id) h = rw h.0 h.1
payload_from_c-IsSendable now t (Message.find_value_resp r) h = rw h.0 (
    Ensures-if (IsSendablePayload now) (nat_beq r.has_value 0) _ _
      (λ _.
        Ensures-bind _ (IsSendablePayload now)
          (contacts_from_c now (min r.count max_contacts) r.contacts) _
          (from_contacts now r.count r.contacts h.2) λ cs g. g)
      λ _.
        sized now (find_value_resp (some r.value) [])
          (h.3.bytes, omega (arith, h.3.counted, h.3.bounded), refl)
          (ltb max_value_size r.value_len))

-- Whatever bytes arrive, the decoder does not panic; and of a message that it accepts every
-- contact is routable, and the whole message is one that this node could itself send.
pub decode-IsSendableMessage :
    (now : ℕ) (bytes : Bytes)
    → All IsByte bytes
    → Ensures (IsSendableMessage now) (decode now bytes)
unfolding decode from_c_message received
decode-IsSendableMessage now bytes h =
    go (decode_message bytes) (decode_message-IsWellFormed bytes h)
  where
    go :
        (m : Wired Message.Message)
        → Ensures IsWellFormed m
        → Ensures (IsSendableMessage now) (received now m)
    go (ok c) g =
        Ensures-bind (IsSendablePayload now) (IsSendableMessage now)
          (payload_from_c now c.msg_type c.payload) _
          (payload_from_c-IsSendable now c.msg_type c.payload g.payload)
          λ p s. record { request_id = g.request_id; sender_id = g.sender_id; payload = s }
    go (err e) g = tt
    go panic g = g
