-- ===== src/Mailbox.antt =====
-- The merging of stored values, `merge_store_value` of nodex-kademlia/src/lib.rs. The serde_json
-- crate is a parameter: the parser of arrays, and the printers of one value and of an array.
pub mod Merged
pub mod Overfull
mod Tests
use node_x.Base.{
  ℕ, suc, ◌-◌, Bool, true, false, not, ◌||◌, Option, none, some, List, [], ◌∷◌, ◌++◌, length, any,
  drop, ltb, if◌then◌else◌, Eq, ◌==◌,
}
use node_x.Base.Words.{Bytes}
use node_x.Wire.Message.{max_value_size}

abbrev pub max_mailbox_value_bytes : ℕ
max_mailbox_value_bytes = 49152

abbrev pub max_mailbox_envelopes : ℕ
max_mailbox_envelopes = 50

pub record Json (V : Type 0) : Type 0 where
  pub parse : Bytes → Option (List V)
  pub print_value : V → Option Bytes
  pub print : List V → Option Bytes

abbrev pub unwrap_or_default {ℓ} : {A : Type ℓ} → Option (List A) → List A
unwrap_or_default none = []
unwrap_or_default (some xs) = xs

-- `envelopes.drain(..excess)`
unfoldable pub newest {ℓ} : {A : Type ℓ} → List A → List A
newest envelopes =
    if ltb max_mailbox_envelopes (length envelopes)
    then drop (length envelopes - max_mailbox_envelopes) envelopes
    else envelopes

module _ {V : Type 0} ⦃e : Eq V⦄ (json : Json V) where
  abbrev pub is_too_large : V → Bool
  is_too_large v = elim (json.print_value v) [
    | none ↦ true
    | some bytes ↦ ltb max_mailbox_value_bytes (length bytes)
  ]

  -- One round of the loop over the incoming envelopes.
  abbrev pub with_new : V → List V → List V
  with_new v envelopes =
      if is_too_large v
      then envelopes
      else if any (λ w. w == v) envelopes
      then envelopes
      else envelopes ++ v ∷ []

  unfoldable pub add_new : List V → List V → Bool → List V × Bool
  add_new [] envelopes rejected = (envelopes, rejected)
  add_new (v ∷ vs) envelopes rejected =
      add_new vs (with_new v envelopes) (rejected || is_too_large v)

  abbrev pub encoded : List V → Bytes
  encoded vs = unwrap_or_default (json.print vs)

  -- The loop that removes the oldest, with the number of rounds.
  unfoldable pub prune : List V → List V × ℕ
  prune [] = ([], 0)
  prune (v ∷ vs) =
      let rest = prune vs in
      if ltb max_mailbox_value_bytes (length (encoded (v ∷ vs)))
      then (rest.0, suc rest.1)
      else (v ∷ vs, 0)

  -- The envelopes that the stored value has.
  abbrev pub stored : Option Bytes → List V
  stored none = []
  stored (some bytes) = unwrap_or_default (json.parse bytes)

  unfoldable pub merge_envelopes : Option Bytes → List V → Bytes × Bool × ℕ
  unfolding add_new prune newest
  merge_envelopes existing new =
      let added = add_new new (stored existing) false in
      let kept = prune (newest added.0) in
      if ltb max_mailbox_value_bytes (length (encoded kept.0))
      then (unwrap_or_default existing, false, kept.1)
      else (encoded kept.0, not added.1, kept.1)

  -- The value to store, whether it is accepted, and how many envelopes were pruned.
  unfoldable pub merge_store_value : Option Bytes → Bytes → Bytes × Bool × ℕ
  unfolding merge_envelopes
  merge_store_value existing incoming = elim (json.parse incoming) [
    | some new ↦ merge_envelopes existing new
    | none ↦
        if ltb max_value_size (length incoming)
        then (unwrap_or_default existing, false, 0)
        else (incoming, true, 0)
  ]
