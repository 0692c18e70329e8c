-- ===== src/Queue/Tests.antt =====
-- A concrete run of the outbox.
use node_x.Base.{[], ◌∷◌, ◌≡◌, refl, some}
use node_x.Queue.{SavedChatMessage, QueuedMessage, push_after, sending, schedule_retry, pop_pending}
use node_x.Queue.Reach.{
  State, Reaches, starts, steps, pushes, pops, retries, IsOutbox, Reaches-IsOutbox,
}

abbrev message : SavedChatMessage
message = record { id = 49 ∷ []; content = 104 ∷ 105 ∷ [] }

abbrev popped : QueuedMessage
popped = record {
  message = message;
  recipient_id = 98 ∷ [];
  attempts = 1;
  status = sending;
  next_retry_at = 10;
}

abbrev retried : State
retried = record { queue = schedule_retry 12 popped []; in_flight = [] }

popped_first : pop_pending 11 (push_after 10 message (98 ∷ []) 0 []) ≡ ([], some popped)
unfolding pop_pending push_after
popped_first = refl

retried-Reaches : Reaches retried
retried-Reaches =
    steps
      (steps (steps starts (pushes 10 0 message (98 ∷ []) [] []))
        (pops 11 popped (push_after 10 message (98 ∷ []) 0 []) [] [] popped_first))
      (retries 12 popped [] [])

Reaches-IsOutbox_example : IsOutbox retried
Reaches-IsOutbox_example = Reaches-IsOutbox retried-Reaches
