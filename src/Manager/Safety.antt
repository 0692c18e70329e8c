-- ===== src/Manager/Safety.antt =====
-- The receive loop on what strangers send (nodex-kademlia/src/rpc.rs).
use node_x.Manager.{
  Manager, Received, Effect, ignored, to_messenger, delivered, canceled, handled, probe, settle,
  max_tasks,
}
use node_x.Rpc.Sendable.{IsSendableMessage}
use node_x.Rpc.Convert.{decode}
use node_x.Base.Outcome.{ok, err, panic}
use node_x.Rpc.Payload.{RpcMessage, is_response}
use node_x.Routing.Table.Laws.{IsTable}
use node_x.Routing.Bucket.{UpdateResult, full, inserted, updated, self_ignored}
use node_x.Chunking.Assembler.Limits.{IsAssembler}
use node_x.Chunking.Assembler.Content.{Content}
use node_x.Chunking.Assembler.{AssemblyKey}
use node_x.Net.{addr_eq, SocketAddr, Contact}
use mathlib.Core.Option
use node_x.Base.Map.{get, remove}
use node_x.Base.Words.{Bytes, IsByte}
use node_x.Base.{
  ℕ, ◌≤◌, ◌≡◌, ◌≢◌, refl, sym, subst, Bool, if◌then◌else◌, true, false, Option, some, none, List,
  All, ltb, if-elim, Bool-cases, Option-cases, inl, inr, ◌==◌, ==→eq, ==_refl, nat_eq, arith,
}

-- Parts of byte values.
abbrev pub IsBytePart : AssemblyKey → ℕ → Bytes → Type 0
IsBytePart key i part = All IsByte part

pub record IsManager (m : Manager) : Type 0 where
  pub assembler : IsAssembler m.assembler
  pub bytes : Content IsBytePart m.assembler
  pub table : IsTable m.table
  pub tasks : m.tasks ≤ max_tasks

-- An answer goes to the call that waits for it; only a valid message is passed on.
abbrev pub IsDue : ℕ → SocketAddr → List (ℕ × (SocketAddr × ℕ)) → Effect → Type 0
IsDue now src pending ignored = Unit
IsDue now src pending (to_messenger bytes from) = from ≡ src
IsDue now src pending (delivered channel msg) =
    (get msg.request_id pending ≡ some (src, channel))
    × (is_response msg ≡ true)
    × IsSendableMessage now msg
IsDue now src pending (canceled channel) =
    (id : ℕ) × (expected : SocketAddr) × (get id pending ≡ some (expected, channel))
    × (expected ≢ src)
IsDue now src pending (handled msg from) =
    (from ≡ src) × (is_response msg ≡ false) × IsSendableMessage now msg

-- The message that bytes encode.
abbrev pub decoded : ℕ → Bytes → Option RpcMessage
decoded now bytes = elim (decode now bytes) [ ok msg ↦ some msg | err e ↦ none | panic ↦ none ]

-- The request id, the address and the channel of the pending call that a message answers.
abbrev pub call_of : Option RpcMessage → List (ℕ × (SocketAddr × ℕ)) → Option (ℕ × SocketAddr × ℕ)
call_of none pending = none
call_of (some msg) pending =
    if is_response msg
    then Option.map (λ w. (msg.request_id, w.0, w.1)) (get msg.request_id pending)
    else none

-- The channel of the call that an effect ends.
abbrev pub ended : Effect → Option ℕ
ended (delivered channel msg) = some channel
ended (canceled channel) = some channel
ended _ = none

abbrev pub is_delivery : Effect → Bool
is_delivery (delivered channel msg) = true
is_delivery _ = false

-- An answer to a pending call ends that call, by its delivery or by canceling the call; nothing else
-- changes the pending calls, and without one nothing is delivered or canceled.
abbrev pub IsEnded :
    SocketAddr
    → List (ℕ × (SocketAddr × ℕ))
    → Option (ℕ × SocketAddr × ℕ)
    → List (ℕ × (SocketAddr × ℕ))
    → Effect
    → Type 0
IsEnded src pending none after effect = (after ≡ pending) × (ended effect ≡ none)
IsEnded src pending (some (id, expected, channel)) after effect =
    (after ≡ remove id pending)
    × (ended effect ≡ some channel)
    × (is_delivery effect ≡ (expected == src))

pub record IsReceived (now : ℕ) (src : SocketAddr) (m : Manager) (o : Option RpcMessage)
    (r : Option Received) : Type 0 where
  pub after : Manager
  pub probe' : Option (Contact × Contact)
  pub effect : Effect
  pub returns : r ≡ some (after, probe', effect)
  pub valid : IsManager after
  pub due : IsDue now src m.pending effect
  pub calls : IsEnded src m.pending (call_of o m.pending) after.pending effect

pub quiet :
    (now : ℕ) (src : SocketAddr) (m : Manager)
    → IsManager m
    → IsReceived now src m none (some (m, none, ignored))
quiet now src m v = record {
  after = m;
  probe' = none;
  effect = ignored;
  returns = refl;
  valid = v;
  due = tt;
  calls = (refl, refl);
}

-- The probe leaves the pending calls.
pub record IsProbed (m : Manager) (r : Manager × Option (Contact × Contact)) : Type 0 where
  pub valid : IsManager r.0
  pub same : r.0.pending ≡ m.pending

pub probe-IsProbed :
    (m : Manager) (res : UpdateResult) (c : Contact) → IsManager m → IsProbed m (probe m res c)
unfolding probe
probe-IsProbed m (full oldest) c v =
    if-elim (IsProbed m) (ltb m.tasks max_tasks)
      (λ e. record {
        valid = record {
          assembler = v.assembler;
          bytes = v.bytes;
          table = v.table;
          tasks = ground arith;
        };
        same = refl;
      })
      (λ e. record { valid = v; same = refl })
probe-IsProbed m inserted c v = record { valid = v; same = refl }
probe-IsProbed m updated c v = record { valid = v; same = refl }
probe-IsProbed m self_ignored c v = record { valid = v; same = refl }

pub record IsSettled (now : ℕ) (src : SocketAddr) (msg : RpcMessage) (m : Manager)
    (r : Manager × Effect) : Type 0 where
  pub valid : IsManager r.0
  pub due : IsDue now src m.pending r.1
  pub calls : IsEnded src m.pending (call_of (some msg) m.pending) r.0.pending r.1

pub settle-IsSettled :
    (now : ℕ) (src : SocketAddr) (msg : RpcMessage) (m : Manager)
    → IsManager m
    → IsSendableMessage now msg
    → IsSettled now src msg m (settle src msg m)
unfolding settle
settle-IsSettled now src msg m v s = elim (Bool-cases (is_response msg)) [
  | inr e ↦
      rw (settle, e)
        (if-elim (IsSettled now src msg m) (ltb m.tasks max_tasks)
          (λ f. record {
            valid = record {
              assembler = v.assembler;
              bytes = v.bytes;
              table = v.table;
              tasks = ground arith;
            };
            due = (refl, e, s);
            calls = rw e (refl, refl);
          })
          (λ f. record { valid = v; due = tt; calls = rw e (refl, refl) }))
  | inl e ↦ elim (Option-cases (get msg.request_id m.pending)) [
    | inl p ↦ rw (settle, e, p) (record { valid = v; due = tt; calls = rw (e, p) (refl, refl) })
    | inr ((expected, channel), p) ↦ elim (Bool-cases (expected == src)) [
      | inl q ↦
          rw (settle, e, p, q)
            (record {
              valid = record {
                assembler = v.assembler;
                bytes = v.bytes;
                table = v.table;
                tasks = v.tasks;
              };
              due = (
                subst (λ (a : SocketAddr). get msg.request_id m.pending ≡ some (a, channel))
                    (==→eq q) p,
                e,
                s,
              );
              calls = rw (e, p) (refl, refl, sym q);
            })
      | inr q ↦
          rw (settle, e, p, q)
            (record {
              valid = record {
                assembler = v.assembler;
                bytes = v.bytes;
                table = v.table;
                tasks = v.tasks;
              };
              due = (msg.request_id, expected, p, λ r. cc (==_refl src));
              calls = rw (e, p) (refl, refl, sym q);
            })
    ]
  ]
]
