-- ===== src/Receipts/Tests.antt =====
-- Receipts signed by a toy scheme: the signature is the key followed by the bytes.
use node_x.Base.{
  ℕ, ◌≡◌, refl, Bool, true, List, [], ◌∷◌, ◌++◌, arith, ◌==◌, list_eq, nat_eq, ==_refl,
}
use node_x.Base.Words.{Bytes}
use node_x.Receipts.{create_delivery, create_read, verify_delivery, verify_read, concat_ids}
use node_x.Receipts.Laws.{delivery_bytes-injective, create-verifies}

abbrev message_id : Bytes
message_id = 97 ∷ []

abbrev timestamp : ℕ
timestamp = 300

delivery_bytes-injective_example : (message_id ≡ message_id) × (timestamp ≡ timestamp)
delivery_bytes-injective_example =
    delivery_bytes-injective message_id message_id timestamp timestamp (omega arith) (omega arith)
      refl

abbrev key : Bytes → Bytes
key identity = identity

abbrev sign : Bytes → Bytes → Bytes
sign identity bytes = identity ++ bytes

abbrev verify : Bytes → Bytes → Bytes → Bool
verify key bytes signature = signature == (key ++ bytes)

signs : (identity bytes : Bytes) → verify (key identity) bytes (sign identity bytes) ≡ true
signs identity bytes = ==_refl (identity ++ bytes)

abbrev alice : Bytes
alice = 65 ∷ []

-- One id of two bytes, and two ids of one byte.
abbrev one_id : List Bytes
one_id = (49 ∷ 50 ∷ []) ∷ []

abbrev two_ids : List Bytes
two_ids = (49 ∷ []) ∷ (50 ∷ []) ∷ []

create-verifies_example :
    (verify_delivery verify alice (create_delivery key sign alice (49 ∷ []) 300) ≡ true)
    × (verify_read verify alice (create_read key sign alice one_id 300) ≡ true)
    × (verify_read verify alice
          (record (create_read key sign alice one_id 300) { message_ids = two_ids })
        ≡ true)
unfolding concat_ids
create-verifies_example =
    create-verifies key key sign verify signs alice (49 ∷ []) one_id two_ids 300 refl
