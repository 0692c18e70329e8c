-- ===== src/Mesh.antt =====
-- The routes of the blind mesh, nodex-messenger/src/mesh.rs. `now` is the time that a call reads, in
-- seconds; ids are strings by their bytes. `MeshManager` only takes the table's lock.
pub mod Best
mod Tests
use node_x.Base.{
  ℕ, Bool, true, false, not, ◌&&◌, ◌||◌, Option, none, some, List, [], ◌∷◌, ◌++◌, is_empty, filter,
  ltb, leb, if◌then◌else◌, ◌==◌, list_eq, nat_eq,
}
use node_x.Base.Words.{Bytes}
use node_x.Base.Map.{get, insert}
use node_x.Net.{SocketAddr}

pub record BlindMeshAnnouncement : Type 0 where
  pub target_id_hex : Bytes
  pub target_display_name : Bytes
  pub target_x25519_pub_hex : Bytes
  pub relay_id_hex : Bytes
  pub relay_addr : SocketAddr
  pub hops : ℕ
  pub expires_at : ℕ

abbrev pub Routes : Type 0
Routes = List (Bytes × List BlindMeshAnnouncement)

-- `routes.entry(id).or_default()`
unfoldable pub route_entry : Bytes → Routes → List BlindMeshAnnouncement
route_entry id routes = elim (get id routes) [ none ↦ [] | some rs ↦ rs ]

abbrev pub is_live : ℕ → BlindMeshAnnouncement → Bool
is_live now r = ltb now r.expires_at

-- `r.relay_id_hex != ann.relay_id_hex && r.expires_at > now`
abbrev pub stays : ℕ → BlindMeshAnnouncement → BlindMeshAnnouncement → Bool
stays now ann r = not (r.relay_id_hex == ann.relay_id_hex) && is_live now r

unfoldable pub insert_one : ℕ → ℕ → BlindMeshAnnouncement → Routes → Routes
unfolding route_entry
insert_one now max_hops ann routes =
    if ltb max_hops ann.hops || leb ann.expires_at now
    then routes
    else insert ann.target_id_hex
        (filter (stays now ann) (route_entry ann.target_id_hex routes) ++ ann ∷ []) routes

unfoldable pub insert_announcements : ℕ → List BlindMeshAnnouncement → ℕ → Routes → Routes
unfolding insert_one
insert_announcements now [] max_hops routes = routes
insert_announcements now (ann ∷ anns) max_hops routes =
    insert_announcements now anns max_hops (insert_one now max_hops ann routes)

-- `min_by_key(hops)`: the first of the least.
unfoldable pub min_by_hops : List BlindMeshAnnouncement → Option BlindMeshAnnouncement
min_by_hops [] = none
min_by_hops (r ∷ rs) = elim (min_by_hops rs) [
  | none ↦ some r
  | some best ↦ if leb r.hops best.hops then some r else some best
]

unfoldable pub find_best_route : ℕ → Bytes → Routes → Option BlindMeshAnnouncement
unfolding min_by_hops
find_best_route now id routes = elim (get id routes) [
  | none ↦ none
  | some rs ↦ min_by_hops (filter (is_live now) rs)
]

unfoldable pub cleanup_expired : ℕ → Routes → Routes
cleanup_expired now [] = []
cleanup_expired now ((id, rs) ∷ routes) =
    let rest = cleanup_expired now routes in
    let live = filter (is_live now) rs in if not (is_empty live) then (id, live) ∷ rest else rest

unfoldable pub all_mesh_peers : ℕ → Routes → List BlindMeshAnnouncement
all_mesh_peers now [] = []
all_mesh_peers now ((id, rs) ∷ routes) = filter (is_live now) rs ++ all_mesh_peers now routes
