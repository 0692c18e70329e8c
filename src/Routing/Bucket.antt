-- ===== src/Routing/Bucket.antt =====
-- `KBucket` of nodex-kademlia/src/node.rs. `none` is a panic: an index out of the bucket.
pub mod Laws
use node_x.Base.{
  ℕ, ◌+◌, Bool, true, false, Option, none, some, List, [], ◌∷◌, ◌++◌, length, get_elem?, any,
  position, remove_at, ltb, leb, if◌then◌else◌, ◌==◌, list_eq, nat_eq,
}
use node_x.Net.{NodeId, Contact}

abbrev pub k_size : ℕ
k_size = 20

pub data UpdateResult : Type 0 where
  inserted updated self_ignored : UpdateResult
  full : Contact → UpdateResult

abbrev pub has_id : NodeId → Contact → Bool
has_id id c = c.id == id

unfoldable pub is_full : List Contact → Bool
is_full contacts = leb k_size (length contacts)

unfoldable pub contains : NodeId → List Contact → Bool
contains id contacts = any (has_id id) contacts

-- `if self.contacts.len() < K { push } else { Full(self.contacts[0].clone()) }`
unfoldable pub push_or_full : Contact → List Contact → Option (List Contact × UpdateResult)
push_or_full contact contacts =
    if ltb (length contacts) k_size
    then some (contacts ++ contact ∷ [], inserted)
    else elim (get_elem? contacts 0) [ none ↦ none | some oldest ↦ some (contacts, full oldest) ]

-- A known contact moves to the end, with the new time and its old address.
unfoldable pub update : Contact → List Contact → Option (List Contact × UpdateResult)
unfolding push_or_full
update contact contacts = elim (position (has_id contact.id) contacts) [
  | none ↦ push_or_full contact contacts
  | some pos ↦ elim (get_elem? contacts pos) [
    | none ↦ none
    | some existing ↦
        some (
          remove_at pos contacts ++ record existing { last_seen = contact.last_seen } ∷ [],
          updated,
        )
  ]
]

-- As `update`, but a known contact is replaced whole.
unfoldable pub force_update : Contact → List Contact → Option (List Contact × UpdateResult)
unfolding push_or_full
force_update contact contacts = elim (position (has_id contact.id) contacts) [
  | none ↦ push_or_full contact contacts
  | some pos ↦ some (remove_at pos contacts ++ contact ∷ [], updated)
]

unfoldable pub remove : NodeId → List Contact → List Contact × Option Contact
remove id contacts = elim (position (has_id id) contacts) [
  | none ↦ (contacts, none)
  | some pos ↦ (remove_at pos contacts, get_elem? contacts pos)
]

unfoldable pub replace_oldest : Contact → List Contact → List Contact
replace_oldest contact contacts = remove_at 0 contacts ++ contact ∷ []
