-- ===== src/Queue/Reach.antt =====
-- The outbox of nodex-messenger/src/message_queue.rs together with the messages that a sender has
-- popped and not yet put back or dropped, as a step relation.
use node_x.Base.{
  subst, &&-true, get_elem?-All, position-get_elem?, true, false, ◌<◌, ◌⊎◌, inl, inr, All,
  All-append, All-remove_at, Bool-cases, Option-cases, any, leb, position, ℕ, ◌+◌, ◌≤◌, ◌≡◌, refl,
  Option, none, some, List, [], ◌∷◌, length, arith,
}
use node_x.Base.Words.{Bytes}
use node_x.Queue.{
  is_sending, sending, failed, max_retry_attempts, max_queued_messages, has_id, is_pending,
  rescheduled, QueuedMessage, SavedChatMessage, push_after, pop_pending, schedule_retry,
  mark_delivered,
}

-- The queue and the messages in flight.
pub record State : Type 0 where
  pub queue : List QueuedMessage
  pub in_flight : List QueuedMessage

-- One operation, at any time of the clock.
pub data Step : State → State → Type 0 where
  pushes :
      (now delay : ℕ) (msg : SavedChatMessage) (to : Bytes) (q f : List QueuedMessage)
      → Step
          (record { queue = q; in_flight = f })
          (record { queue = push_after now msg to delay q; in_flight = f })
  pops :
      (now : ℕ) (m : QueuedMessage) (q q' f : List QueuedMessage)
      → pop_pending now q ≡ (q', some m)
      → Step (record { queue = q; in_flight = f }) (record { queue = q'; in_flight = m ∷ f })
  retries :
      (now : ℕ) (m : QueuedMessage) (q f : List QueuedMessage)
      → Step
          (record { queue = q; in_flight = m ∷ f })
          (record { queue = schedule_retry now m q; in_flight = f })
  finishes :
      (m : QueuedMessage) (q f : List QueuedMessage)
      → Step (record { queue = q; in_flight = m ∷ f }) (record { queue = q; in_flight = f })
  delivers :
      (id : Bytes) (q f : List QueuedMessage)
      → Step
          (record { queue = q; in_flight = f })
          (record { queue = mark_delivered id q; in_flight = f })

pub data Reaches : State → Type 0 where
  starts : Reaches (record { queue = []; in_flight = [] })
  steps : {s s' : State} → Reaches s → Step s s' → Reaches s'

-- A message that waits has tries left; one that failed has had all six; no other status occurs.
abbrev pub IsQueued : QueuedMessage → Type 0
IsQueued m =
    ((m.status ≡ sending) × (m.attempts < max_retry_attempts))
    ⊎ ((m.status ≡ failed) × (m.attempts ≡ max_retry_attempts))

-- A message in flight counts the attempt under way.
abbrev pub IsInFlight : QueuedMessage → Type 0
IsInFlight m = (m.status ≡ sending) × (1 ≤ m.attempts) × (m.attempts ≤ max_retry_attempts)

pub record IsOutbox (s : State) : Type 0 where
  pub waiting : All IsQueued s.queue
  pub flying : All IsInFlight s.in_flight

push_after-All :
    (now delay : ℕ) (msg : SavedChatMessage) (to : Bytes) (q : List QueuedMessage)
    → All IsQueued q
    → All IsQueued (push_after now msg to delay q)
unfolding push_after
push_after-All now delay msg to q h = elim (Bool-cases (any (has_id msg.id) q)) [
  | inl e ↦ rw (push_after, e) h
  | inr e ↦ elim (Bool-cases (leb max_queued_messages (length q))) [
    | inl d ↦ rw (push_after, e, d) h
    | inr d ↦ rw (push_after, e, d) (All-append IsQueued q (_ ∷ []) h (inl (refl, omega arith), tt))
  ]
]

popped :
    (now : ℕ) (m : QueuedMessage)
    → IsQueued m
    → is_pending now m ≡ true
    → IsInFlight (record m { attempts = m.attempts + 1 })
popped now m (inl (s, n)) p = (s, omega arith, omega arith)
popped now m (inr (s, n)) p =
    let (a, b) = &&-true (is_sending m.status) (leb m.next_retry_at now) p in
    let c : is_sending m.status ≡ false = rw s refl in absurd (cc)

abbrev Popped : List QueuedMessage × Option QueuedMessage → Type 0
Popped (q, none) = All IsQueued q
Popped (q, some m) = All IsQueued q × IsInFlight m

pop_pending-Popped :
    (now : ℕ) (q : List QueuedMessage) → All IsQueued q → Popped (pop_pending now q)
unfolding pop_pending
pop_pending-Popped now q h = elim (Option-cases (position (is_pending now) q)) [
  | inl e ↦ rw (pop_pending, e) h
  | inr (pos, e) ↦
      let (m, found, ready) = position-get_elem? (is_pending now) q pos e in
      rw (pop_pending, e, found)
        (
          All-remove_at IsQueued pos q h,
          popped now m (get_elem?-All IsQueued q pos m h found) ready,
        )
]

rescheduled-IsQueued : (now : ℕ) (m : QueuedMessage) → IsInFlight m → IsQueued (rescheduled now m)
unfolding rescheduled
rescheduled-IsQueued now m h = elim (Bool-cases (leb max_retry_attempts m.attempts)) [
  | inl e ↦ rw (rescheduled, e) (inr (refl, ground arith))
  | inr e ↦ rw (rescheduled, e) (inl (refl, ground arith))
]

mark_delivered-All :
    (id : Bytes) (q : List QueuedMessage) → All IsQueued q → All IsQueued (mark_delivered id q)
unfolding mark_delivered
mark_delivered-All id q h = elim (Option-cases (position (has_id id) q)) [
  | inl e ↦ rw (mark_delivered, e) h
  | inr (pos, e) ↦ rw (mark_delivered, e) (All-remove_at IsQueued pos q h)
]

Step-IsOutbox : {s s' : State} → Step s s' → IsOutbox s → IsOutbox s'
unfolding schedule_retry
Step-IsOutbox (pushes now delay msg to q f) v = record {
  waiting = push_after-All now delay msg to q v.waiting;
  flying = v.flying;
}
Step-IsOutbox (pops now m q q' f e) v =
    let (w, k) = subst Popped e (pop_pending-Popped now q v.waiting) in
    record { waiting = w; flying = (k, v.flying) }
Step-IsOutbox (retries now m q f) v = record {
  waiting =
      All-append IsQueued q (rescheduled now m ∷ []) v.waiting
        (rescheduled-IsQueued now m v.flying.0, tt);
  flying = v.flying.1;
}
Step-IsOutbox (finishes m q f) v = record { waiting = v.waiting; flying = v.flying.1 }
Step-IsOutbox (delivers id q f) v = record {
  waiting = mark_delivered-All id q v.waiting;
  flying = v.flying;
}

-- In every state that the outbox reaches, a queued message either waits with fewer than six
-- attempts or has failed after exactly six, and a message in flight is at attempt one to six.
pub Reaches-IsOutbox : {s : State} → Reaches s → IsOutbox s
Reaches-IsOutbox starts = record { waiting = tt; flying = tt }
Reaches-IsOutbox (steps r p) = Step-IsOutbox p (Reaches-IsOutbox r)
