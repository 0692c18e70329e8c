-- ===== src/Queue.antt =====
-- The outbox, nodex-messenger/src/message_queue.rs. Each operation holds the queue's lock throughout,
-- so an interleaving of tasks is a sequence of operations.
pub mod Reach
mod Tests
use node_x.Base.{
  ℕ, suc, ◌+◌, ◌%◌, ◌^◌, min, Bool, true, false, ◌&&◌, Option, none, some, List, [], ◌∷◌, ◌++◌,
  length, get_elem?, any, position, remove_at, nat_beq, ltb, leb, if◌then◌else◌, ◌==◌, list_eq,
  nat_eq,
}
use node_x.Base.Words.{Bytes}

abbrev pub max_retry_attempts : ℕ
max_retry_attempts = 6

abbrev pub max_queued_messages : ℕ
max_queued_messages = 100

pub data MessageStatus : Type 0 where
  composing sending sent delivered read failed expired : MessageStatus

abbrev pub is_sending : MessageStatus → Bool
is_sending sending = true
is_sending _ = false

-- The queue reads the id of a message; the rest is carried along.
pub record SavedChatMessage : Type 0 where
  pub id : Bytes
  pub content : Bytes

pub record QueuedMessage : Type 0 where
  pub message : SavedChatMessage
  pub recipient_id : Bytes
  pub attempts : ℕ
  pub status : MessageStatus
  pub next_retry_at : ℕ

abbrev pub saturating_add : ℕ → ℕ → ℕ
saturating_add a b = min (a + b) 18446744073709551615

abbrev pub has_id : Bytes → QueuedMessage → Bool
has_id id m = m.message.id == id

-- `now` is the time that `current_timestamp` reads.
unfoldable pub push_after :
    ℕ → SavedChatMessage → Bytes → ℕ → List QueuedMessage → List QueuedMessage
push_after now msg recipient_id delay_secs q =
    if any (has_id msg.id) q
    then q
    else if leb max_queued_messages (length q)
    then q
    else q
      ++ record {
        message = msg;
        recipient_id = recipient_id;
        attempts = 0;
        status = sending;
        next_retry_at = saturating_add now delay_secs;
      }
        ∷ []

unfoldable pub push : ℕ → SavedChatMessage → Bytes → List QueuedMessage → List QueuedMessage
unfolding push_after
push now msg recipient_id q = push_after now msg recipient_id 0 q

abbrev pub is_pending : ℕ → QueuedMessage → Bool
is_pending now m = is_sending m.status && leb m.next_retry_at now

unfoldable pub pop_pending : ℕ → List QueuedMessage → List QueuedMessage × Option QueuedMessage
pop_pending now q = elim (position (is_pending now) q) [
  | none ↦ (q, none)
  | some pos ↦ elim (get_elem? q pos) [
    | none ↦ (q, none)
    | some item ↦ (remove_at pos q, some (record item { attempts = item.attempts + 1 }))
  ]
]

-- `2u64.pow(attempts.min(5)).min(32)`
unfoldable pub backoff_secs : ℕ → ℕ
backoff_secs attempts = min (2 ^ min attempts 5) 32

unfoldable pub rescheduled : ℕ → QueuedMessage → QueuedMessage
unfolding backoff_secs
rescheduled now m =
    if leb max_retry_attempts m.attempts then record m { status = failed } else record m {
      next_retry_at = (now + backoff_secs m.attempts) % 18446744073709551616;
      status = sending;
    }

unfoldable pub schedule_retry : ℕ → QueuedMessage → List QueuedMessage → List QueuedMessage
unfolding rescheduled
schedule_retry now m q = q ++ rescheduled now m ∷ []

unfoldable pub mark_delivered : Bytes → List QueuedMessage → List QueuedMessage
mark_delivered id q = elim (position (has_id id) q) [ none ↦ q | some pos ↦ remove_at pos q ]
