-- ===== src/Routing/Tests.antt =====
-- A concrete routing table for the laws of routing.
use node_x.Routing.Distance.Metric.{distance-injective, shared_prefix_bits-all}
use node_x.Routing.Distance.{shared_prefix_bits}
use node_x.Routing.Table.Closest.{AreNearest, find_closest-AreNearest}
use node_x.Routing.Table.Laws.{new-IsTable, Maintained, update-IsTable, force_update-IsTable}
use node_x.Base.{◌≡◌, refl, [], ◌∷◌, arith, replicate}
use node_x.Base.Words.{replicate-IsArray, IsArray}
use node_x.Net.{Contact, v4, NodeId}
use node_x.Routing.Table.{new, update, force_update, find_closest}

abbrev own_id : NodeId
own_id = replicate 20 1

abbrev peer : Contact
peer = record {
  id = replicate 20 3;
  addr = record { ip = v4 (10 ∷ 0 ∷ 0 ∷ 8 ∷ []); port = 4000 };
  last_seen = 50;
}

update-IsTable_example : Maintained (new own_id) (update (new own_id) peer)
update-IsTable_example = update-IsTable (new own_id) peer (new-IsTable own_id)

force_update-IsTable_example : Maintained (new own_id) (force_update (new own_id) peer)
force_update-IsTable_example = force_update-IsTable (new own_id) peer (new-IsTable own_id)

find_closest-AreNearest_example :
    AreNearest (new own_id) peer.id 20 (find_closest (new own_id) peer.id 20)
find_closest-AreNearest_example = find_closest-AreNearest (new own_id) peer.id 20

own_id-IsArray : IsArray 20 own_id
own_id-IsArray = replicate-IsArray 20 1 (omega arith)

peer_id-IsArray : IsArray 20 peer.id
peer_id-IsArray = replicate-IsArray 20 3 (omega arith)

distance-injective_example : own_id ≡ own_id
distance-injective_example =
    distance-injective 20 own_id own_id peer.id own_id-IsArray own_id-IsArray peer_id-IsArray refl

shared_prefix_bits-all_example : own_id ≡ own_id
unfolding shared_prefix_bits
shared_prefix_bits-all_example =
    shared_prefix_bits-all 20 own_id own_id own_id-IsArray own_id-IsArray refl
