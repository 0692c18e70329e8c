-- ===== src/Wire/Message.antt =====
-- The C-style messages of core-ffi/src/lib.rs.
use node_x.Base.{ℕ, ◌-◌, ◌^◌, ◌≤◌, ◌<◌, ◌≡◌, ◌⊎◌, List, [], length, take, drop, replicate, All}
use node_x.Base.Words.{Bytes, IsByte, IsArray}

abbrev pub id_size : ℕ
id_size = 20

abbrev pub max_value_size : ℕ
max_value_size = 65536

abbrev pub max_contacts : ℕ
max_contacts = 20

abbrev pub contact_size : ℕ
contact_size = 39

abbrev pub msg_ping : ℕ
msg_ping = 1

abbrev pub msg_pong : ℕ
msg_pong = 2

abbrev pub msg_store : ℕ
msg_store = 3

abbrev pub msg_store_ack : ℕ
msg_store_ack = 4

abbrev pub msg_find_node : ℕ
msg_find_node = 5

abbrev pub msg_find_node_resp : ℕ
msg_find_node_resp = 6

abbrev pub msg_find_value : ℕ
msg_find_value = 7

abbrev pub msg_find_value_resp : ℕ
msg_find_value_resp = 8

pub record SerializedContact : Type 0 where
  pub id : Bytes
  pub ip_type : ℕ
  pub ip : Bytes
  pub port : ℕ

-- `CSerializedContact::default()`
abbrev pub default_contact : SerializedContact
default_contact = record { id = replicate id_size 0; ip_type = 0; ip = replicate 16 0; port = 0 }

pub record StorePayload : Type 0 where
  pub key : Bytes
  pub value_len : ℕ
  pub value : Bytes

pub record FindNodeRespPayload : Type 0 where
  pub count : ℕ
  pub contacts : List SerializedContact

pub record FindValueRespPayload : Type 0 where
  pub has_value : ℕ
  pub value_len : ℕ
  pub value : Bytes
  pub count : ℕ
  pub contacts : List SerializedContact

pub data Payload : Type 0 where
  no_payload : Payload
  store : StorePayload → Payload
  store_ack : ℕ → Payload
  find_node : Bytes → Payload
  find_node_resp : FindNodeRespPayload → Payload
  find_value : Bytes → Payload
  find_value_resp : FindValueRespPayload → Payload

pub record Message : Type 0 where
  pub msg_type : ℕ
  pub request_id : ℕ
  pub sender_id : Bytes
  pub payload : Payload

-- A contact whose fields fit their Rust types.
pub record IsContact (c : SerializedContact) : Type 0 where
  pub id : IsArray id_size c.id
  pub ip_type : c.ip_type < 256
  pub ip : IsArray 16 c.ip
  pub port : c.port < 256 ^ 2

-- `count` contacts, and defaults up to the end of the array.
pub record IsContacts (count : ℕ) (cs : List SerializedContact) : Type 0 where
  pub bounded : count ≤ max_contacts
  pub size : length cs ≡ max_contacts
  pub live : All IsContact (take count cs)
  pub padding : drop count cs ≡ replicate (max_contacts - count) default_contact

-- A value with its length beside it.
pub record IsValue (len : ℕ) (value : Bytes) : Type 0 where
  pub counted : len ≡ length value
  pub bounded : len ≤ max_value_size
  pub bytes : All IsByte value

-- A payload that belongs to the message type, in the form that the decoder builds.
abbrev pub IsPayload : ℕ → Payload → Type 0
IsPayload t no_payload = (t ≡ msg_ping) ⊎ (t ≡ msg_pong)
IsPayload t (store s) = (t ≡ msg_store) × IsArray id_size s.key × IsValue s.value_len s.value
IsPayload t (store_ack status) = (t ≡ msg_store_ack) × IsByte status
IsPayload t (find_node id) = (t ≡ msg_find_node) × IsArray id_size id
IsPayload t (find_node_resp r) = (t ≡ msg_find_node_resp) × IsContacts r.count r.contacts
IsPayload t (find_value id) = (t ≡ msg_find_value) × IsArray id_size id
IsPayload t (find_value_resp r) =
    (t ≡ msg_find_value_resp)
    × IsByte r.has_value
    × IsContacts r.count r.contacts
    × IsValue r.value_len r.value
    × (r.has_value ≡ 0 → r.value ≡ [])

pub record IsWellFormed (m : Message) : Type 0 where
  pub request_id : m.request_id < 256 ^ 8
  pub sender_id : IsArray id_size m.sender_id
  pub payload : IsPayload m.msg_type m.payload
