-- ===== src/Routing/Bucket/Laws.antt =====
-- The well-formed buckets, and laws of the bucket operations of nodex-kademlia/src/node.rs.
use node_x.Base.{
  get_elem?-All, ltb→lt, All, All-append, All-remove_at, ℕ, zero, suc, ◌+◌, ◌≤◌, ◌≡◌, refl, inl,
  inr, false, ◌||◌, Option, none, some, List, [], ◌∷◌, ◌++◌, arith, length, length-append,
  get_elem?, position, remove_at, ltb, if◌then◌else◌, ◌==◌, list_eq, nat_eq, list_beq_iff,
  Bool-cases, Option-cases,
}
use node_x.Net.{NodeId, Contact}
use node_x.Routing.Bucket.{
  k_size, UpdateResult, inserted, updated, full, has_id, contains, push_or_full, update,
  force_update,
}

-- No id twice.
abbrev pub IsDistinct : List Contact → Type 0
IsDistinct [] = Unit
IsDistinct (c ∷ cs) = (contains c.id cs ≡ false) × IsDistinct cs

pub record IsBucket (cs : List Contact) : Type 0 where
  pub bounded : length cs ≤ k_size
  pub distinct : IsDistinct cs

-- What `position` finds: an element with the id, in bounds.
position-contains :
    (id : NodeId) (cs : List Contact) → position (has_id id) cs ≡ none → contains id cs ≡ false
unfolding contains
position-contains id [] h = refl
position-contains id (c ∷ cs) h =
    ground (arith, position-contains id cs, Option-cases (position (has_id id) cs))

position-get :
    (id : NodeId) (cs : List Contact) (pos : ℕ)
    → position (has_id id) cs ≡ some pos
    → (c : Contact) × (get_elem? cs pos ≡ some c)
      × (c.id ≡ id)
      × (length (remove_at pos cs) + 1 ≡ length cs)
position-get id [] pos h = absurd (cc)
position-get id (c ∷ cs) zero h = elim (Bool-cases (has_id id c)) [
  | inl e ↦ (c, refl, (list_beq_iff c.id id).0 e, omega arith)
  | inr e ↦ absurd (ground (arith, Option-cases (position (has_id id) cs)))
]
position-get id (c ∷ cs) (suc pos) h =
    let (d, e, same, size) =
      position-get id cs pos (ground (arith, Option-cases (position (has_id id) cs))) in
    (d, e, same, omega arith)

contains-remove_at :
    (id : NodeId) (i : ℕ) (cs : List Contact)
    → contains id cs ≡ false
    → contains id (remove_at i cs) ≡ false
unfolding contains
contains-remove_at id i [] h = refl
contains-remove_at id zero (c ∷ cs) h = ground arith
contains-remove_at id (suc i) (c ∷ cs) h = ground (arith, contains-remove_at id i cs)

remove_at-IsDistinct : (i : ℕ) (cs : List Contact) → IsDistinct cs → IsDistinct (remove_at i cs)
remove_at-IsDistinct i [] h = tt
remove_at-IsDistinct zero (c ∷ cs) h = h.1
remove_at-IsDistinct (suc i) (c ∷ cs) h =
    (contains-remove_at c.id i cs h.0, remove_at-IsDistinct i cs h.1)

-- Of a distinct list, what is left when the element of an id is taken out has no element of that id.
contains-removed :
    (id : NodeId) (cs : List Contact) (pos : ℕ)
    → IsDistinct cs
    → position (has_id id) cs ≡ some pos
    → contains id (remove_at pos cs) ≡ false
unfolding contains
contains-removed id [] pos d h = refl
contains-removed id (c ∷ cs) zero d h = elim (Bool-cases (has_id id c)) [
  | inl e ↦ rw (← (list_beq_iff c.id id).0 e) d.0
  | inr e ↦ absurd (ground (arith, Option-cases (position (has_id id) cs)))
]
contains-removed id (c ∷ cs) (suc pos) d h =
    ground (arith, contains-removed id cs pos d.1, Option-cases (position (has_id id) cs))

pub contains-append :
    (id : NodeId) (cs : List Contact) (c : Contact)
    → contains id (cs ++ c ∷ []) ≡ (contains id cs || (c.id == id))
unfolding contains
contains-append id [] c = ground arith
contains-append id (d ∷ cs) c = ground (arith, contains-append id cs c)

append-IsDistinct :
    (cs : List Contact) (c : Contact)
    → IsDistinct cs
    → contains c.id cs ≡ false
    → IsDistinct (cs ++ c ∷ [])
unfolding contains
append-IsDistinct [] c d h = (refl, tt)
append-IsDistinct (b ∷ cs) c d h = ground (
  arith,
  contains-append b.id cs c,
  list_beq_iff c.id b.id,
  list_beq_iff b.id c.id,
  append-IsDistinct cs c d.1,
)

-- What a bucket operation ensures: it does not panic, its bucket is well formed, and all contacts
-- of its bucket have `P`.
pub record Kept {ℓ} (P : Contact → Type ℓ) (r : Option (List Contact × UpdateResult)) : Type ℓ where
  pub bucket : List Contact
  pub result : UpdateResult
  pub returns : r ≡ some (bucket, result)
  pub valid : IsBucket bucket
  pub all : All P bucket

length-snoc : (cs : List Contact) (c : Contact) → length (cs ++ c ∷ []) ≡ length cs + 1
length-snoc cs c = length-append cs (c ∷ [])

moved-IsBucket :
    (c : Contact) (cs : List Contact) (pos : ℕ)
    → IsBucket cs
    → position (has_id c.id) cs ≡ some pos
    → IsBucket (remove_at pos cs ++ c ∷ [])
moved-IsBucket c cs pos v e =
    let (d, found, same, size) = position-get c.id cs pos e in
    record {
      bounded = omega (arith, length-snoc (remove_at pos cs) c, v.bounded);
      distinct =
          append-IsDistinct (remove_at pos cs) c (remove_at-IsDistinct pos cs v.distinct)
            (contains-removed c.id cs pos v.distinct e);
    }

module _ {ℓ} (P : Contact → Type ℓ) where
  push_or_full-Kept :
      (c : Contact) (cs : List Contact)
      → IsBucket cs
      → All P cs
      → P c
      → contains c.id cs ≡ false
      → Kept P (push_or_full c cs)
  unfolding push_or_full
  push_or_full-Kept c cs v all good fresh = elim (Bool-cases (ltb (length cs) k_size)) [
    | inl e ↦ record {
      bucket = cs ++ c ∷ [];
      result = inserted;
      returns = rw e;
      valid = record {
        bounded = omega (arith, length-snoc cs c, ltb→lt (length cs) k_size e);
        distinct = append-IsDistinct cs c v.distinct fresh;
      };
      all = All-append P cs (c ∷ []) all (good, tt);
    }
    | inr e ↦ at_head cs v all e
  ]
    where
      at_head :
          (l : List Contact)
          → IsBucket l
          → All P l
          → ltb (length l) k_size ≡ false
          → Kept P (
              if ltb (length l) k_size
              then some (l ++ c ∷ [], inserted)
              else elim (get_elem? l 0) [ none ↦ none | some oldest ↦ some (l, full oldest) ])
      at_head [] w a e = absurd (ground arith)
      at_head (d ∷ l) w a e = record {
        bucket = d ∷ l;
        result = full d;
        returns = rw e;
        valid = w;
        all = a;
      }

  pub force_update-Kept :
      (c : Contact) (cs : List Contact) → IsBucket cs → All P cs → P c → Kept P (force_update c cs)
  unfolding force_update
  force_update-Kept c cs v all good = elim (Option-cases (position (has_id c.id) cs)) [
    | inl e ↦ rw (force_update, e) (push_or_full-Kept c cs v all good (position-contains c.id cs e))
    | inr (pos, e) ↦ record {
      bucket = remove_at pos cs ++ c ∷ [];
      result = updated;
      returns = rw (force_update, e);
      valid = moved-IsBucket c cs pos v e;
      all = All-append P (remove_at pos cs) (c ∷ []) (All-remove_at P pos cs all) (good, tt);
    }
  ]

  -- A known contact keeps what it has apart from its time.
  pub update-Kept :
      (c : Contact) (cs : List Contact)
      → IsBucket cs
      → All P cs
      → P c
      → ((d : Contact) → P d → P (record d { last_seen = c.last_seen }))
      → Kept P (update c cs)
  unfolding update
  update-Kept c cs v all good stable = elim (Option-cases (position (has_id c.id) cs)) [
    | inl e ↦ rw (update, e) (push_or_full-Kept c cs v all good (position-contains c.id cs e))
    | inr (pos, e) ↦
        let (d, found, same, size) = position-get c.id cs pos e in
        let moved : Contact = record d { last_seen = c.last_seen } in
        record {
          bucket = remove_at pos cs ++ moved ∷ [];
          result = updated;
          returns = rw (update, e, found);
          valid = moved-IsBucket moved cs pos v (rw same e);
          all =
              All-append P (remove_at pos cs) (moved ∷ []) (All-remove_at P pos cs all)
                (stable d (get_elem?-All P cs pos d all found), tt);
        }
  ]
