-- ===== src/Rpc/Convert.antt =====
-- `to_c_message`, `from_c_message`, `encode` and `decode` of nodex-kademlia/src/rpc.rs.
use node_x.Base.{
  ℕ, zero, suc, ◌+◌, ◌||◌, none, some, List, [], ◌∷◌, ◌++◌, length, take, drop, min, ltb, nat_beq,
  replicate, if◌then◌else◌,
}
use node_x.Base.Words.{Bytes}
use node_x.Base.Outcome.{Outcome, ok, err, panic, ◌>>=◌}
use node_x.Net.{IpAddr, v4, v6, Contact, is_unspecified, is_multicast, is_broadcast, new_contact}
use node_x.Wire.Buffer.{Wired, Out}
use node_x.Wire.Message
use node_x.Wire.Message.{
  SerializedContact, default_contact, max_contacts, max_value_size, msg_ping, msg_pong, msg_store,
  msg_store_ack, msg_find_node, msg_find_node_resp, msg_find_value, msg_find_value_resp, Payload,
}
use node_x.Wire.Encode.{encode_message}
use node_x.Wire.Decode.{decode_message}
use node_x.Rpc.Payload.{
  RpcPayload, ping, pong, store, store_ack, find_node, find_node_resp, find_value, find_value_resp,
  RpcMessage,
}

-- The texts of the source's errors, as constructors.
pub data RpcError : Type 0 where
  value_too_large : RpcError
  mismatched_payload : RpcError
  unknown_type : ℕ → RpcError
  port_zero : RpcError
  unroutable : RpcError
  invalid_ip_type : ℕ → RpcError
  encode_failed : RpcError
  decode_failed : RpcError

abbrev pub Result : Type 0 → Type 0
Result = Outcome RpcError

-- `ip[..n].copy_from_slice(octets)` over 16 zeros.
abbrev pub pad_ip : Bytes → Bytes
pad_ip octets = octets ++ drop (length octets) (replicate 16 0)

unfoldable pub ip_to_c : IpAddr → ℕ × Bytes
ip_to_c (v4 o) = (4, pad_ip o)
ip_to_c (v6 o) = (6, pad_ip o)

unfoldable pub contact_to_c : Contact → SerializedContact
contact_to_c c =
    let (ip_type, ip) = ip_to_c c.addr.ip in
    record { id = c.id; ip_type = ip_type; ip = ip; port = c.addr.port }

unfoldable pub c_to_ip : ℕ → Bytes → Result IpAddr
c_to_ip ip_type ip =
    if nat_beq ip_type 4
    then (let o = take 4 ip in
        if is_unspecified (v4 o) || (is_broadcast o || is_multicast (v4 o))
        then err unroutable
        else ok (v4 o))
    else if nat_beq ip_type 6
    then (let o = take 16 ip in
        if is_unspecified (v6 o) || is_multicast (v6 o) then err unroutable else ok (v6 o))
    else err (invalid_ip_type ip_type)

unfoldable pub c_to_contact : ℕ → SerializedContact → Result Contact
c_to_contact now c = if nat_beq c.port 0 then err port_zero else do
  ip ← c_to_ip c.ip_type c.ip
  ok (new_contact now c.id (record { ip = ip; port = c.port }))

-- The loop that writes contacts over the first ones of the array.
unfoldable pub fill_contacts : List Contact → List SerializedContact → List SerializedContact
fill_contacts [] slots = slots
fill_contacts (c ∷ cs) [] = []
fill_contacts (c ∷ cs) (slot ∷ slots) = contact_to_c c ∷ fill_contacts cs slots

abbrev pub empty_slots : List SerializedContact
empty_slots = replicate max_contacts default_contact

unfoldable pub contacts_to_c : List Contact → Message.FindNodeRespPayload
unfolding fill_contacts
contacts_to_c cs =
    let count = min (length cs) max_contacts in
    record { count = count; contacts = fill_contacts (take count cs) empty_slots }

unfoldable pub payload_to_c : RpcPayload → Result (ℕ × Payload)
payload_to_c ping = ok (msg_ping, Message.no_payload)
payload_to_c pong = ok (msg_pong, Message.no_payload)
payload_to_c (store key value) =
    if ltb max_value_size (length value)
    then err value_too_large
    else ok
        (msg_store, Message.store (record { key = key; value_len = length value; value = value }))
payload_to_c (store_ack accepted) =
    ok (msg_store_ack, Message.store_ack (if accepted then 0 else 1))
payload_to_c (find_node target) = ok (msg_find_node, Message.find_node target)
payload_to_c (find_node_resp cs) =
    ok (msg_find_node_resp, Message.find_node_resp (contacts_to_c cs))
payload_to_c (find_value key) = ok (msg_find_value, Message.find_value key)
payload_to_c (find_value_resp (some value) cs) =
    if ltb max_value_size (length value)
    then err value_too_large
    else ok (
      msg_find_value_resp,
      Message.find_value_resp (record {
        has_value = 1;
        value_len = length value;
        value = value;
        count = 0;
        contacts = empty_slots;
      }),
    )
payload_to_c (find_value_resp none cs) =
    let filled = contacts_to_c cs in
    ok (
      msg_find_value_resp,
      Message.find_value_resp (record {
        has_value = 0;
        value_len = 0;
        value = [];
        count = filled.count;
        contacts = filled.contacts;
      }),
    )

unfoldable pub to_c_message : RpcMessage → Result Message.Message
unfolding payload_to_c
to_c_message m = do
  (t, p) ← payload_to_c m.payload
  ok (record { msg_type = t; request_id = m.request_id; sender_id = m.sender_id; payload = p })

-- The loop over `contacts[0..count]`; an index out of the array panics.
unfoldable pub contacts_from_c : ℕ → ℕ → List SerializedContact → Result (List Contact)
contacts_from_c now zero slots = ok []
contacts_from_c now (suc n) [] = panic
contacts_from_c now (suc n) (slot ∷ slots) = do
  c ← c_to_contact now slot
  cs ← contacts_from_c now n slots
  ok (c ∷ cs)

unfoldable pub from_store : Payload → Result RpcPayload
from_store (Message.store s) =
    if ltb max_value_size s.value_len then err value_too_large else ok (store s.key s.value)
from_store _ = err mismatched_payload

unfoldable pub from_store_ack : Payload → Result RpcPayload
from_store_ack (Message.store_ack status) = ok (store_ack (nat_beq status 0))
from_store_ack _ = err mismatched_payload

unfoldable pub from_find_node : Payload → Result RpcPayload
from_find_node (Message.find_node target) = ok (find_node target)
from_find_node _ = err mismatched_payload

unfoldable pub from_find_node_resp : ℕ → Payload → Result RpcPayload
from_find_node_resp now (Message.find_node_resp r) = do
  cs ← contacts_from_c now (min r.count max_contacts) r.contacts
  ok (find_node_resp cs)
from_find_node_resp now _ = err mismatched_payload

unfoldable pub from_find_value : Payload → Result RpcPayload
from_find_value (Message.find_value key) = ok (find_value key)
from_find_value _ = err mismatched_payload

unfoldable pub from_find_value_resp : ℕ → Payload → Result RpcPayload
from_find_value_resp now (Message.find_value_resp r) =
    if nat_beq r.has_value 0
    then (do
      cs ← contacts_from_c now (min r.count max_contacts) r.contacts
      ok (find_value_resp none cs))
    else if ltb max_value_size r.value_len
    then err value_too_large
    else ok (find_value_resp (some r.value) [])
from_find_value_resp now _ = err mismatched_payload

unfoldable pub payload_from_c : ℕ → ℕ → Payload → Result RpcPayload
unfolding from_store from_store_ack from_find_node from_find_node_resp from_find_value
    from_find_value_resp
payload_from_c now t p =
    if nat_beq t msg_ping
    then ok ping
    else if nat_beq t msg_pong
    then ok pong
    else if nat_beq t msg_store
    then from_store p
    else if nat_beq t msg_store_ack
    then from_store_ack p
    else if nat_beq t msg_find_node
    then from_find_node p
    else if nat_beq t msg_find_node_resp
    then from_find_node_resp now p
    else if nat_beq t msg_find_value
    then from_find_value p
    else if nat_beq t msg_find_value_resp
    then from_find_value_resp now p
    else err (unknown_type t)

unfoldable pub from_c_message : ℕ → Message.Message → Result RpcMessage
from_c_message now m = do
  p ← payload_from_c now m.msg_type m.payload
  ok (record { request_id = m.request_id; sender_id = m.sender_id; payload = p })

unfoldable pub estimated_size : RpcPayload → ℕ
estimated_size (store key value) = 64 + length value
estimated_size (find_value_resp (some value) cs) = 64 + length value
estimated_size _ = 1024

-- `buf.truncate(written)`, or the code -1 as an error.
unfoldable pub written : Wired Out → Result Bytes
written (ok o) = ok o.written
written (err e) = err encode_failed
written panic = panic

unfoldable pub encode : RpcMessage → Result Bytes
encode m = do c ← to_c_message m; written (encode_message c (estimated_size m.payload))

unfoldable pub received : ℕ → Wired Message.Message → Result RpcMessage
received now (ok c) = from_c_message now c
received now (err e) = err decode_failed
received now panic = panic

unfoldable pub decode : ℕ → Bytes → Result RpcMessage
decode now bytes = received now (decode_message bytes)
