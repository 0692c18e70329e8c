-- ===== src/Routing/Table/Closest.antt =====
-- Laws of `find_closest` (nodex-kademlia/src/node.rs).
use node_x.Routing.Distance.Metric.{id_le_total, id_le_trans}
use node_x.Routing.Distance.{distance}
use node_x.Routing.Table.{
  RoutingTable, total_contacts, all_contacts, closer, concat, sum_lens, find_closest,
}
use node_x.Net.{NodeId, Contact}
use node_x.Base.{
  refl, length-append, length-take, take-append-drop, ℕ, ◌≡◌, min, true, List, [], ◌∷◌, ◌++◌, arith,
  length, drop, All,
}
use node_x.Base.Sort.{
  sort_by, sort_by-perm, IsSorted, sort_by-IsSorted, take-IsSorted, take-below-drop, length-sort_by,
}
use mathlib.Core.List.{Perm}

-- The answer to a lookup: in order of distance, as many as asked for or there are, and each at
-- most as far as every contact left out.
pub record AreNearest (t : RoutingTable) (target : NodeId) (count : ℕ) (found : List Contact)
    : Type 0 where
  pub size : length found ≡ min count (total_contacts t)
  pub sorted : IsSorted (closer target) found
  pub rest : List Contact
  pub complete : Perm (found ++ rest) (all_contacts t)
  pub nearest : All (λ a. All (λ b. closer target a b ≡ true) rest) found

length-concat : (bs : List (List Contact)) → length (concat bs) ≡ sum_lens bs
unfolding concat sum_lens
length-concat [] = refl
length-concat (b ∷ bs) = omega (arith, length-append b (concat bs), length-concat bs)

length-all_contacts : (t : RoutingTable) → length (all_contacts t) ≡ total_contacts t
unfolding all_contacts total_contacts
length-all_contacts t = length-concat t.buckets

-- `find_closest` returns the contacts of the table nearest to the target, sorted by distance.
pub find_closest-AreNearest :
    (t : RoutingTable) (target : NodeId) (count : ℕ)
    → AreNearest t target count (find_closest t target count)
unfolding find_closest
find_closest-AreNearest t target count =
    let le = closer target in
    let cs = all_contacts t in
    let ordered : IsSorted le (sort_by le cs) =
      sort_by-IsSorted le (λ a b. id_le_total (distance a.id target) (distance b.id target))
        (λ a b c. id_le_trans (distance a.id target) (distance b.id target) (distance c.id target))
        cs in
    record {
      size =
          omega
            (arith, length-take count (sort_by le cs), length-sort_by le cs, length-all_contacts t);
      sorted = take-IsSorted le count (sort_by le cs) ordered;
      rest = drop count (sort_by le cs);
      complete = rw (take-append-drop count (sort_by le cs)) (sort_by-perm le cs);
      nearest = take-below-drop le count (sort_by le cs) ordered;
    }
