-- ===== src/Groups/Laws.antt =====
-- Laws of group membership (nodex-messenger/src/groups.rs).
use node_x.Base.{
  ℕ, ◌≡◌, refl, not, ◌&&◌, ◌||◌, ◌==◌, list_eq, nat_eq, if◌then◌else◌, Bool-cases, inl, inr,
}
use node_x.Base.Words.{Bytes}
use node_x.Base.Map.{get-insert, get-remove, contains_key}
use node_x.Groups.{
  P2PGroup, GroupRole, member_of, add_member, remove_member, is_member, is_admin, is_admin_role,
}

-- After `add_member` a user belongs to the group if it is the one added or did before, and it is an
-- admin by the given role if it is the one added, and as before if not.
pub add_member_lem :
    (timestamp : ℕ) (user name : Bytes) (role : GroupRole) (g : P2PGroup) (other : Bytes)
    → (is_member other (add_member timestamp user name role g)
        ≡ ((user == other) || is_member other g))
      × (is_admin other (add_member timestamp user name role g)
          ≡ (if user == other then is_admin_role role else is_admin other g))
unfolding is_member is_admin add_member
add_member_lem timestamp user name role g other =
    let e = get-insert user other (member_of user name role timestamp) g.members in
    elim (Bool-cases (user == other)) [
      | inl h ↦ (rw (contains_key, e, h) refl, rw (is_admin, e, h) refl)
      | inr h ↦ (rw (contains_key, e, h) refl, rw (is_admin, e, h) refl)
    ]

-- After `remove_member` the user neither belongs to the group nor is its admin, everyone else is as
-- before, and the answer says whether the user belonged to it.
remove_member_lem :
    (user : Bytes) (g : P2PGroup) (other : Bytes)
    → (is_member other (remove_member user g).0 ≡ (not (user == other) && is_member other g))
      × (is_admin other (remove_member user g).0 ≡ (not (user == other) && is_admin other g))
      × ((remove_member user g).1 ≡ is_member user g)
unfolding is_member is_admin remove_member
remove_member_lem user g other =
    let e = get-remove user other g.members in
    elim (Bool-cases (user == other)) [
      | inl h ↦ (rw (contains_key, e, h) refl, rw (is_admin, e, h) refl, refl)
      | inr h ↦ (rw (contains_key, e, h) refl, rw (is_admin, e, h) refl, refl)
    ]
