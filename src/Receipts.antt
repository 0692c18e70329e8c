-- ===== src/Receipts.antt =====
-- Delivery and read receipts, nodex-messenger/src/receipts.rs. Strings are their UTF-8 bytes; the
-- signatures of the ed25519 crate, which UserIdentity passes on, are parameters.
pub mod Laws
mod Tests
use node_x.Base.{ℕ, Bool, List, [], ◌∷◌, ◌++◌}
use node_x.Base.Words.{Bytes, to_be_bytes}

-- "DELIVERY_RECEIPT_V1"
abbrev pub delivery_tag : Bytes
delivery_tag =
    68 ∷ 69 ∷ 76 ∷ 73 ∷ 86 ∷ 69 ∷ 82 ∷ 89 ∷ 95 ∷ 82 ∷ 69 ∷ 67 ∷ 69 ∷ 73 ∷ 80 ∷ 84 ∷ 95 ∷ 86 ∷ 49
    ∷ []

-- "READ_RECEIPT_V1"
abbrev pub read_tag : Bytes
read_tag = 82 ∷ 69 ∷ 65 ∷ 68 ∷ 95 ∷ 82 ∷ 69 ∷ 67 ∷ 69 ∷ 73 ∷ 80 ∷ 84 ∷ 95 ∷ 86 ∷ 49 ∷ []

pub record DeliveryReceipt : Type 0 where
  pub message_id : Bytes
  pub recipient_id : Bytes
  pub timestamp : ℕ
  pub signature : Bytes

pub record ReadReceipt : Type 0 where
  pub message_ids : List Bytes
  pub reader_id : Bytes
  pub timestamp : ℕ
  pub signature : Bytes

-- The bytes that are signed.
unfoldable pub delivery_bytes : Bytes → ℕ → Bytes
delivery_bytes message_id timestamp = delivery_tag ++ (message_id ++ to_be_bytes 8 timestamp)

unfoldable pub concat_ids : List Bytes → Bytes
concat_ids [] = []
concat_ids (id ∷ ids) = id ++ concat_ids ids

unfoldable pub read_bytes : List Bytes → ℕ → Bytes
unfolding concat_ids
read_bytes message_ids timestamp = read_tag ++ (concat_ids message_ids ++ to_be_bytes 8 timestamp)

module _ {ℓ} {Identity : Type ℓ} (user_id_hex : Identity → Bytes)
    (sign : Identity → Bytes → Bytes) where
  unfoldable pub create_delivery : Identity → Bytes → ℕ → DeliveryReceipt
  unfolding delivery_bytes
  create_delivery identity message_id timestamp = record {
    message_id = message_id;
    recipient_id = user_id_hex identity;
    timestamp = timestamp;
    signature = sign identity (delivery_bytes message_id timestamp);
  }

  unfoldable pub create_read : Identity → List Bytes → ℕ → ReadReceipt
  unfolding read_bytes
  create_read identity message_ids timestamp = record {
    message_ids = message_ids;
    reader_id = user_id_hex identity;
    timestamp = timestamp;
    signature = sign identity (read_bytes message_ids timestamp);
  }

-- `verify` takes the public key, the bytes and the signature.
module _ (verify : Bytes → Bytes → Bytes → Bool) where
  unfoldable pub verify_delivery : Bytes → DeliveryReceipt → Bool
  unfolding delivery_bytes
  verify_delivery key r = verify key (delivery_bytes r.message_id r.timestamp) r.signature

  unfoldable pub verify_read : Bytes → ReadReceipt → Bool
  unfolding read_bytes
  verify_read key r = verify key (read_bytes r.message_ids r.timestamp) r.signature
