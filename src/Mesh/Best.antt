-- ===== src/Mesh/Best.antt =====
-- The well-formed tables of the mesh, and laws of its routes (nodex-messenger/src/mesh.rs).
use mathlib.Core.List.{Memᴰ}
use node_x.Base.{
  ap, ◌∙◌, ◌||◌, ℕ, ◌≤◌, ◌<◌, ◌≡◌, refl, Option, none, some, List, [], ◌∷◌, ◌++◌, arith, filter,
  All, All-append, All-filter, if-elim, Bool-cases, Option-cases, inl, inr, list_eq, nat_eq, ltb,
  leb,
}
use node_x.Base.Words.{Bytes}
use node_x.Base.Map.{get, IsMap, insert-IsMap, AllValues, AllValues-insert, AllValues-get}
use node_x.Mesh.{
  BlindMeshAnnouncement, Routes, route_entry, is_live, stays, insert_one, insert_announcements,
  min_by_hops, find_best_route,
}

-- An announcement under its own target, within the hops.
pub record IsRoute (max_hops : ℕ) (id : Bytes) (r : BlindMeshAnnouncement) : Type 0 where
  pub target : r.target_id_hex ≡ id
  pub near : r.hops ≤ max_hops

abbrev pub AreRoutes : ℕ → Bytes → List BlindMeshAnnouncement → Type 0
AreRoutes max_hops id rs = All (IsRoute max_hops id) rs

pub record IsTable (max_hops : ℕ) (routes : Routes) : Type 0 where
  pub distinct : IsMap routes
  pub near : AllValues (AreRoutes max_hops) routes

entry-AreRoutes :
    (max_hops : ℕ) (id : Bytes) (routes : Routes)
    → IsTable max_hops routes
    → AreRoutes max_hops id (route_entry id routes)
unfolding route_entry
entry-AreRoutes max_hops id routes v = elim (Option-cases (get id routes)) [
  | inl e ↦ rw (route_entry, e) tt
  | inr (rs, e) ↦ rw (route_entry, e) (AllValues-get (AreRoutes max_hops) id rs routes v.near e)
]

insert_one-IsTable :
    (now max_hops : ℕ) (ann : BlindMeshAnnouncement) (routes : Routes)
    → IsTable max_hops routes
    → IsTable max_hops (insert_one now max_hops ann routes)
unfolding insert_one
insert_one-IsTable now max_hops ann routes v =
    let id = ann.target_id_hex in
    let old = filter (stays now ann) (route_entry id routes) in
    if-elim (IsTable max_hops) (ltb max_hops ann.hops || leb ann.expires_at now) (λ _. v)
      (λ e. record {
        distinct = insert-IsMap id (old ++ ann ∷ []) routes v.distinct;
        near = AllValues-insert (AreRoutes max_hops) id (old ++ ann ∷ []) routes v.near (
            All-append (IsRoute max_hops id) old (ann ∷ [])
              (All-filter (IsRoute max_hops id) (stays now ann) (route_entry id routes)
                (entry-AreRoutes max_hops id routes v))
              (record { target = refl; near = ground arith }, tt));
      })

-- Gossip keeps the table of routes well formed: every route stands under its own target, and is at
-- most as long as the limit that the gossip is taken with.
pub insert_announcements-IsTable :
    (now max_hops : ℕ) (anns : List BlindMeshAnnouncement) (routes : Routes)
    → IsTable max_hops routes
    → IsTable max_hops (insert_announcements now anns max_hops routes)
unfolding insert_announcements
insert_announcements-IsTable now max_hops [] routes v = v
insert_announcements-IsTable now max_hops (ann ∷ anns) routes v =
    insert_announcements-IsTable now max_hops anns (insert_one now max_hops ann routes)
      (insert_one-IsTable now max_hops ann routes v)

-- The least of a list, which has it: none is only the answer for an empty list.
abbrev pub IsLeast : List BlindMeshAnnouncement → Option BlindMeshAnnouncement → Type 0
IsLeast rs none = rs ≡ []
IsLeast rs (some best) = All (λ r. best.hops ≤ r.hops) rs

below :
    (a b : ℕ) (rs : List BlindMeshAnnouncement)
    → a ≤ b
    → All (λ r. b ≤ r.hops) rs
    → All (λ r. a ≤ r.hops) rs
below a b [] h rest = tt
below a b (r ∷ rs) h rest = (omega (arith, rest.0), below a b rs h rest.1)

min_by_hops-IsLeast : (rs : List BlindMeshAnnouncement) → IsLeast rs (min_by_hops rs)
unfolding min_by_hops
min_by_hops-IsLeast [] = refl
min_by_hops-IsLeast (r ∷ rs) = by_rest (min_by_hops rs) refl (min_by_hops-IsLeast rs)
  where
    by_rest :
        (o : Option BlindMeshAnnouncement)
        → min_by_hops rs ≡ o
        → IsLeast rs o
        → IsLeast (r ∷ rs) (min_by_hops (r ∷ rs))
    by_rest none e h = rw (min_by_hops, e) (omega arith, rw h tt)
    by_rest (some best) e h = elim (Bool-cases (leb r.hops best.hops)) [
      | inl c ↦ rw (min_by_hops, e, c) (omega arith, below r.hops best.hops rs (ground arith) h)
      | inr c ↦ rw (min_by_hops, e, c) (ground arith, h)
    ]

abbrev OfOption : (BlindMeshAnnouncement → Type 0) → Option BlindMeshAnnouncement → Type 0
OfOption P none = Unit
OfOption P (some r) = P r

min_by_hops-OfOption :
    (P : BlindMeshAnnouncement → Type 0) (rs : List BlindMeshAnnouncement)
    → All P rs
    → OfOption P (min_by_hops rs)
unfolding min_by_hops
min_by_hops-OfOption P [] h = tt
min_by_hops-OfOption P (r ∷ rs) h = by_rest (min_by_hops rs) refl (min_by_hops-OfOption P rs h.1)
  where
    by_rest :
        (o : Option BlindMeshAnnouncement)
        → min_by_hops rs ≡ o
        → OfOption P o
        → OfOption P (min_by_hops (r ∷ rs))
    by_rest none e k = rw (min_by_hops, e) h.0
    by_rest (some best) e k = elim (Bool-cases (leb r.hops best.hops)) [
      | inl c ↦ rw (min_by_hops, e, c) h.0
      | inr c ↦ rw (min_by_hops, e, c) k
    ]

live-All :
    (now : ℕ) (rs : List BlindMeshAnnouncement)
    → All (λ r. now < r.expires_at) (filter (is_live now) rs)
live-All now [] = tt
live-All now (r ∷ rs) = ground (arith, live-All now rs)

min_by_hops-Memᴰ :
    (rs : List BlindMeshAnnouncement) (best : BlindMeshAnnouncement)
    → min_by_hops rs ≡ some best
    → Memᴰ best rs
unfolding min_by_hops
min_by_hops-Memᴰ [] best h = absurd (cc)
min_by_hops-Memᴰ (r ∷ rs) best h = elim (Option-cases (min_by_hops rs)) [
  | inl e ↦ let q : some r ≡ some best = rw (min_by_hops, e) at h in Memᴰ.head (cc)
  | inr (least, e) ↦ elim (Bool-cases (leb r.hops least.hops)) [
    | inl c ↦ let q : some r ≡ some best = rw (min_by_hops, e, c) at h in Memᴰ.head (cc)
    | inr c ↦
        let q : some least ≡ some best = rw (min_by_hops, e, c) at h in
        let same : least ≡ best = cc in Memᴰ.tail (min_by_hops-Memᴰ rs best (e ∙ ap some same))
  ]
]

-- The best of the live routes that the table has to a target, or none when there is no live route.
abbrev pub IsBest : ℕ → ℕ → Bytes → Routes → Option BlindMeshAnnouncement → Type 0
IsBest now max_hops id routes none = filter (is_live now) (route_entry id routes) ≡ []
IsBest now max_hops id routes (some best) =
    Memᴰ best (filter (is_live now) (route_entry id routes))
    × IsRoute max_hops id best
    × (now < best.expires_at)
    × All (λ r. best.hops ≤ r.hops) (filter (is_live now) (route_entry id routes))

-- In a well-formed table `find_best_route` returns one of the live routes that the table has to the
-- target, with the fewest hops of them all; it returns none only when the target has no live route.
pub find_best_route-IsBest :
    (now max_hops : ℕ) (id : Bytes) (routes : Routes)
    → IsTable max_hops routes
    → IsBest now max_hops id routes (find_best_route now id routes)
unfolding find_best_route route_entry
find_best_route-IsBest now max_hops id routes v = elim (Option-cases (get id routes)) [
  | inl e ↦ rw (find_best_route, e) (rw (route_entry, e) refl)
  | inr (rs, e) ↦
      let live = filter (is_live now) rs in
      let near = AllValues-get (AreRoutes max_hops) id rs routes v.near e in
      by_best rs e (min_by_hops live) refl (min_by_hops-IsLeast live)
        (min_by_hops-OfOption (IsRoute max_hops id) live
          (All-filter (IsRoute max_hops id) (is_live now) rs near))
        (min_by_hops-OfOption (λ r. now < r.expires_at) live (live-All now rs))
]
  where
    by_best :
        (rs : List BlindMeshAnnouncement)
        → get id routes ≡ some rs
        → (o : Option BlindMeshAnnouncement) → min_by_hops (filter (is_live now) rs) ≡ o
        → IsLeast (filter (is_live now) rs) o
        → OfOption (IsRoute max_hops id) o
        → OfOption (λ r. now < r.expires_at) o
        → IsBest now max_hops id routes (find_best_route now id routes)
    by_best rs e none q l n t = rw (find_best_route, e, q) (rw (route_entry, e) l)
    by_best rs e (some best) q l n t =
        rw (find_best_route, e, q)
          (
            rw (route_entry, e) (min_by_hops-Memᴰ (filter (is_live now) rs) best q),
            n,
            t,
            rw (route_entry, e) l,
          )
