-- ===== src/Mesh/Tests.antt =====
-- A concrete table of routes.
use node_x.Base.{refl, [], ◌∷◌, arith}
use node_x.Net.{v4}
use node_x.Mesh.{BlindMeshAnnouncement, Routes, insert_announcements, find_best_route}
use node_x.Mesh.Best.{IsTable, IsBest, insert_announcements-IsTable, find_best_route-IsBest}

abbrev near : BlindMeshAnnouncement
near = record {
  target_id_hex = 97 ∷ [];
  target_display_name = 65 ∷ [];
  target_x25519_pub_hex = [];
  relay_id_hex = 98 ∷ [];
  relay_addr = record { ip = v4 (10 ∷ 0 ∷ 0 ∷ 8 ∷ []); port = 4000 };
  hops = 1;
  expires_at = 90;
}

abbrev far : BlindMeshAnnouncement
far = record near { relay_id_hex = 99 ∷ []; hops = 3 }

abbrev routes : Routes
routes = (97 ∷ [], far ∷ []) ∷ []

routes-IsTable : IsTable 3 routes
routes-IsTable = record {
  distinct = (refl, tt);
  near = ((record { target = refl; near = omega arith }, tt), tt);
}

insert_announcements-IsTable_example : IsTable 3 (insert_announcements 20 (near ∷ []) 3 routes)
insert_announcements-IsTable_example =
    insert_announcements-IsTable 20 3 (near ∷ []) routes routes-IsTable

find_best_route-IsBest_example : IsBest 20 3 (97 ∷ []) routes (find_best_route 20 (97 ∷ []) routes)
find_best_route-IsBest_example = find_best_route-IsBest 20 3 (97 ∷ []) routes routes-IsTable
