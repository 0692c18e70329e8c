-- ===== src/Lookup/Learning.antt =====
-- What a lookup makes of new contacts (nodex-kademlia/src/lookup.rs).
use node_x.Lookup.{Candidate, push_new, candidate, learn}
use node_x.Lookup.Shortlist.{asked, candidate_id, IsShortlist, IsCandidate, IsHeardOf}
use node_x.Routing.Table.Laws.{IsTable, update-IsTable}
use node_x.Routing.Table.{RoutingTable}
use node_x.Net.{NodeId, Contact}
use node_x.Base.{
  ◌+◌, ◌≡◌, ◌∙◌, refl, false, List, [], ◌∷◌, ◌++◌, arith, All, All-append, if-elim, list_eq, nat_eq,
  ◌==◌, list_beq_iff, any, Option, some,
}
use node_x.Base.Distinct.{Absent, append-Distinct}

asked-append : (cs ds : List Candidate) → asked (cs ++ ds) ≡ asked cs + asked ds
unfolding asked
asked-append [] ds = omega arith
asked-append (c ∷ cs) ds = ground (arith, asked-append cs ds)

new-Absent :
    (id : NodeId) (cs : List Candidate)
    → any (λ d. d.contact.id == id) cs ≡ false
    → Absent candidate_id id cs
new-Absent id [] h = tt
new-Absent id (c ∷ cs) h =
    (λ p. ground (arith, list_beq_iff c.contact.id id), new-Absent id cs (ground arith))

module _ (local_id target : NodeId) (ids : List NodeId) where
  push_new-IsShortlist :
      (c : Contact) (cs : List Candidate)
      → IsHeardOf local_id ids c
      → IsShortlist local_id target ids cs
      → IsShortlist local_id target ids (push_new target c cs)
  push_new-IsShortlist c cs h v =
      if-elim (IsShortlist local_id target ids) (any (λ d. d.contact.id == c.id) cs) (λ _. v)
        (λ e. record {
          candidates =
              All-append (IsCandidate local_id target ids) cs (candidate target c ∷ []) v.candidates
                (record { measured = refl; other = h.other; known = h.known }, tt);
          distinct =
              append-Distinct candidate_id cs (candidate target c ∷ []) v.distinct (tt, tt)
                (new-Absent c.id cs e, tt);
        })

  -- The table and the shortlist after the new contacts.
  pub record Learned (cs : List Candidate) (r : Option (RoutingTable × List Candidate))
      : Type 0 where
    pub table : RoutingTable
    pub shortlist : List Candidate
    pub returns : r ≡ some (table, shortlist)
    pub valid : IsTable table
    pub listed : IsShortlist local_id target ids shortlist
    pub same_asked : asked shortlist ≡ asked cs

  pub learn-Learned :
      (new : List Contact) (rt : RoutingTable) (cs : List Candidate)
      → All (IsHeardOf local_id ids) new
      → IsTable rt
      → IsShortlist local_id target ids cs
      → Learned cs (learn target new rt cs)
  unfolding learn
  learn-Learned [] rt cs h t v = record {
    table = rt;
    shortlist = cs;
    returns = refl;
    valid = t;
    listed = v;
    same_asked = refl;
  }
  learn-Learned (c ∷ new) rt cs h t v =
      let m = update-IsTable rt c t in
      let rest =
        learn-Learned new m.table (push_new target c cs) h.1 m.valid
          (push_new-IsShortlist c cs h.0 v) in
      record {
        table = rest.table;
        shortlist = rest.shortlist;
        returns = rw (learn, m.returns) rest.returns;
        valid = rest.valid;
        listed = rest.listed;
        same_asked = rest.same_asked ∙ asked-push_new c cs;
      }
    where
      asked-push_new : (c : Contact) (cs : List Candidate) → asked (push_new target c cs) ≡ asked cs
      asked-push_new c cs =
          if-elim (λ ds. asked ds ≡ asked cs) (any (λ d. d.contact.id == c.id) cs) (λ _. refl)
            (λ _. omega (arith, asked-append cs (candidate target c ∷ []), one))
        where
          one : asked (candidate target c ∷ []) ≡ 0
          one = unfold asked in refl
