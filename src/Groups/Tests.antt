-- ===== src/Groups/Tests.antt =====
-- A concrete group.
use node_x.Base.{◌≡◌, ◌||◌, [], ◌∷◌, ◌==◌, list_eq, nat_eq, if◌then◌else◌}
use node_x.Base.Words.{Bytes}
use node_x.Groups.{P2PGroup, GroupRole, new, add_member, is_member, is_admin, is_admin_role}
use node_x.Groups.Laws.{add_member_lem}

abbrev alice : Bytes
alice = 97 ∷ []

abbrev bob : Bytes
bob = 98 ∷ []

abbrev group : P2PGroup
group = new 100 [] (103 ∷ []) 8 (114 ∷ []) [] alice (65 ∷ [])

add_member_lem_example :
    (is_member bob (add_member 120 bob (66 ∷ []) GroupRole.member group)
      ≡ ((bob == bob) || is_member bob group))
    × (is_admin bob (add_member 120 bob (66 ∷ []) GroupRole.member group)
        ≡ (if bob == bob then is_admin_role GroupRole.member else is_admin bob group))
add_member_lem_example = add_member_lem 120 bob (66 ∷ []) GroupRole.member group bob
