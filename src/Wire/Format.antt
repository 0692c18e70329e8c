-- ===== src/Wire/Format.antt =====
-- The layout of the messages of core-ffi/src/lib.rs, as the bytes that stand on the wire.
use node_x.Base.{ℕ, List, [], ◌∷◌, ◌++◌, length, take, nat_beq, if◌then◌else◌}
use node_x.Base.Words.{Bytes, to_be_bytes}
use node_x.Wire.Message.{
  SerializedContact, Payload, no_payload, store, store_ack, find_node, find_node_resp, find_value,
  find_value_resp, Message,
}

unfoldable pub wire_contact : SerializedContact → Bytes
wire_contact c = c.id ++ (c.ip_type ∷ [] ++ (c.ip ++ to_be_bytes 2 c.port))

unfoldable pub wire_all : List SerializedContact → Bytes
wire_all [] = []
wire_all (c ∷ cs) = wire_contact c ++ wire_all cs

unfoldable pub wire_contacts : ℕ → List SerializedContact → Bytes
wire_contacts count cs = count ∷ [] ++ wire_all (take count cs)

unfoldable pub wire_value : Bytes → Bytes
wire_value value = to_be_bytes 4 (length value) ++ value

unfoldable pub wire_payload : Payload → Bytes
wire_payload no_payload = []
wire_payload (store s) = s.key ++ wire_value s.value
wire_payload (store_ack status) = status ∷ []
wire_payload (find_node id) = id
wire_payload (find_node_resp r) = wire_contacts r.count r.contacts
wire_payload (find_value id) = id
wire_payload (find_value_resp r) =
    r.has_value ∷ []
    ++ ((if nat_beq r.has_value 0 then [] else wire_value r.value)
        ++ wire_contacts r.count r.contacts)

unfoldable pub wire : Message → Bytes
wire m = m.msg_type ∷ [] ++ (to_be_bytes 8 m.request_id ++ (m.sender_id ++ wire_payload m.payload))
