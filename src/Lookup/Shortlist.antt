-- ===== src/Lookup/Shortlist.antt =====
-- The well-formed shortlists of a lookup (nodex-kademlia/src/lookup.rs), and the steps of a round.
use node_x.Lookup.{Candidate, CandidateState, is_unqueried, nearer, select, mark}
use node_x.Routing.Distance.{distance}
use node_x.Net.{NodeId, Contact}
use node_x.Base.Sort.{sort_by, insert_sorted, All-sort_by}
use node_x.Base.{
  ℕ, zero, suc, ◌+◌, ◌≤◌, ◌≡◌, ◌∙◌, refl, sym, ap, subst, false, true, List, [], ◌∷◌, arith, All,
  length, Bool-cases, inl, inr, list_eq, nat_eq, ◌==◌, if◌then◌else◌,
}
use node_x.Base.Distinct.{Absent, Distinct, has, sort_by-Distinct, length-le, AllIn}

-- A candidate other than the node itself, with its distance, among the ids that can be heard of.
pub record IsCandidate (local_id target : NodeId) (ids : List NodeId) (c : Candidate) : Type 0 where
  pub measured : c.distance ≡ distance c.contact.id target
  pub other : (c.contact.id == local_id) ≡ false
  pub known : has (λ (i : NodeId). i) ids c.contact.id ≡ true

pub record IsHeardOf (local_id : NodeId) (ids : List NodeId) (c : Contact) : Type 0 where
  pub other : (c.id == local_id) ≡ false
  pub known : has (λ (i : NodeId). i) ids c.id ≡ true

abbrev pub candidate_id : Candidate → NodeId
candidate_id c = c.contact.id

pub record IsShortlist (local_id target : NodeId) (ids : List NodeId) (cs : List Candidate)
    : Type 0 where
  pub candidates : All (IsCandidate local_id target ids) cs
  pub distinct : Distinct candidate_id cs

-- The candidates that were asked.
unfoldable pub asked : List Candidate → ℕ
asked [] = 0
asked (c ∷ cs) = if is_unqueried c.state then asked cs else suc (asked cs)

pub asked-le : (cs : List Candidate) → asked cs ≤ length cs
unfolding asked
asked-le [] = omega arith
asked-le (c ∷ cs) = ground (arith, asked-le cs)

-- Two lists with the same contacts and distances, one after the other in the states.
pub data Moved : List Candidate → List Candidate → Type 0 where
  none_moved : Moved [] []
  moved :
      {c d : Candidate} {cs ds : List Candidate}
      → c.contact ≡ d.contact
      → c.distance ≡ d.distance
      → Moved cs ds
      → Moved (c ∷ cs) (d ∷ ds)

pub Moved-refl : (cs : List Candidate) → Moved cs cs
Moved-refl [] = none_moved
Moved-refl (c ∷ cs) = moved refl refl (Moved-refl cs)

Moved-Absent :
    {cs ds : List Candidate} (id : NodeId)
    → Moved cs ds
    → Absent candidate_id id cs
    → Absent candidate_id id ds
Moved-Absent id none_moved h = tt
Moved-Absent id (moved e f m) h =
    (λ p. h.0 (ap (λ (c : Contact). c.id) e ∙ p), Moved-Absent id m h.1)

module _ (local_id target : NodeId) (ids : List NodeId) where
  Moved-IsCandidate :
      {cs ds : List Candidate}
      → Moved cs ds
      → All (IsCandidate local_id target ids) cs
      → All (IsCandidate local_id target ids) ds
  Moved-IsCandidate none_moved h = tt
  Moved-IsCandidate (moved {c = c} {d = d} e f m) h = (
    record {
      measured = sym f ∙ (h.0.measured ∙ ap (λ (x : Contact). distance x.id target) e);
      other = rw (← e) h.0.other;
      known = rw (← e) h.0.known;
    },
    Moved-IsCandidate m h.1,
  )

  Moved-Distinct :
      {cs ds : List Candidate} → Moved cs ds → Distinct candidate_id cs → Distinct candidate_id ds
  Moved-Distinct none_moved h = tt
  Moved-Distinct (moved {c = c} {d = d} {ds = ds} e f m) h = (
    subst (λ (x : Contact). Absent candidate_id x.id ds) e (Moved-Absent c.contact.id m h.0),
    Moved-Distinct m h.1,
  )

  pub Moved-IsShortlist :
      {cs ds : List Candidate}
      → Moved cs ds
      → IsShortlist local_id target ids cs
      → IsShortlist local_id target ids ds
  Moved-IsShortlist m v = record {
    candidates = Moved-IsCandidate m v.candidates;
    distinct = Moved-Distinct m v.distinct;
  }

  -- As many as there are ids, at most.
  pub length-IsShortlist :
      (cs : List Candidate) → IsShortlist local_id target ids cs → length cs ≤ length ids
  length-IsShortlist cs v = length-le candidate_id ids cs v.distinct (knowns cs v.candidates)
    where
      knowns :
          (cs : List Candidate)
          → All (IsCandidate local_id target ids) cs
          → AllIn candidate_id ids cs
      knowns [] h = tt
      knowns (c ∷ cs) h = (h.0.known, knowns cs h.1)

  pub sort_by-IsShortlist :
      (cs : List Candidate)
      → IsShortlist local_id target ids cs
      → IsShortlist local_id target ids (sort_by nearer cs)
  sort_by-IsShortlist cs v = record {
    candidates = All-sort_by nearer (IsCandidate local_id target ids) cs v.candidates;
    distinct = sort_by-Distinct candidate_id nearer cs v.distinct;
  }

pub select-Moved : (n : ℕ) (cs : List Candidate) → Moved cs (select n cs).0
unfolding select
select-Moved zero cs = Moved-refl cs
select-Moved (suc n) [] = none_moved
select-Moved (suc n) (c ∷ cs) = elim (Bool-cases (is_unqueried c.state)) [
  | inl e ↦ rw e (moved refl refl (select-Moved n cs))
  | inr e ↦ rw e (moved refl refl (select-Moved (suc n) cs))
]

pub asked-select :
    (n : ℕ) (cs : List Candidate) → asked (select n cs).0 ≡ asked cs + length (select n cs).1
unfolding asked select
asked-select zero cs = omega arith
asked-select (suc n) [] = omega arith
asked-select (suc n) (c ∷ cs) = ground (arith, asked-select n cs, asked-select (suc n) cs)

pub mark-Moved :
    (id : NodeId) (st : CandidateState) (cs : List Candidate) → Moved cs (mark id st cs)
unfolding mark
mark-Moved id st [] = none_moved
mark-Moved id st (c ∷ cs) = elim (Bool-cases (c.contact.id == id)) [
  | inl e ↦ rw e (moved refl refl (Moved-refl cs))
  | inr e ↦ rw e (moved refl refl (mark-Moved id st cs))
]

pub asked-mark :
    (id : NodeId) (st : CandidateState) (cs : List Candidate)
    → is_unqueried st ≡ false
    → asked cs ≤ asked (mark id st cs)
unfolding asked mark
asked-mark id st [] h = omega arith
asked-mark id st (c ∷ cs) h = ground (arith, asked-mark id st cs)

asked-insert_sorted :
    (c : Candidate) (cs : List Candidate) → asked (insert_sorted nearer c cs) ≡ asked (c ∷ cs)
unfolding asked insert_sorted
asked-insert_sorted c [] = refl
asked-insert_sorted c (d ∷ cs) = ground (arith, asked-insert_sorted c cs)

pub asked-sort_by : (cs : List Candidate) → asked (sort_by nearer cs) ≡ asked cs
unfolding asked sort_by
asked-sort_by [] = refl
asked-sort_by (c ∷ cs) =
    asked-insert_sorted c (sort_by nearer cs) ∙ ground (arith, asked-sort_by cs)
