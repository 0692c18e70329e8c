-- ===== src/Groups.antt =====
-- `P2PGroup` of nodex-messenger/src/groups.rs. The key, the group's id and the colour are drawn at
-- random, and arguments here; `timestamp` is the time that a call reads.
pub mod Laws
mod Tests
use node_x.Base.{
  ℕ, ◌%◌, Bool, true, false, ◌||◌, Option, none, some, List, [], ◌∷◌, ◌==◌, list_eq, nat_eq,
}
use node_x.Base.Words.{Bytes}
use node_x.Base.Map
use node_x.Base.Map.{get, insert, contains_key}

pub data GroupRole : Type 0 where
  creator admin member : GroupRole

pub record GroupMember : Type 0 where
  pub user_id_hex : Bytes
  pub display_name : Bytes
  pub role : GroupRole
  pub joined_at : ℕ

pub record P2PGroup : Type 0 where
  pub group_id : Bytes
  pub title : Bytes
  pub description : Bytes
  pub creator_id_hex : Bytes
  pub members : List (Bytes × GroupMember)
  pub group_key_hex : Bytes
  pub created_at : ℕ
  pub avatar_color_idx : ℕ

abbrev pub member_of : Bytes → Bytes → GroupRole → ℕ → GroupMember
member_of user_id_hex display_name role timestamp = record {
  user_id_hex = user_id_hex;
  display_name = display_name;
  role = role;
  joined_at = timestamp;
}

unfoldable pub new : ℕ → Bytes → Bytes → ℕ → Bytes → Bytes → Bytes → Bytes → P2PGroup
new timestamp group_key_hex group_id color title description creator_id_hex creator_name = record {
  group_id = group_id;
  title = title;
  description = description;
  creator_id_hex = creator_id_hex;
  members = insert creator_id_hex (member_of creator_id_hex creator_name creator timestamp) [];
  group_key_hex = group_key_hex;
  created_at = timestamp;
  avatar_color_idx = color % 6;
}

unfoldable pub add_member : ℕ → Bytes → Bytes → GroupRole → P2PGroup → P2PGroup
add_member timestamp user_id_hex display_name role g = record g {
  members = insert user_id_hex (member_of user_id_hex display_name role timestamp) g.members;
}

unfoldable pub remove_member : Bytes → P2PGroup → P2PGroup × Bool
remove_member user_id_hex g =
    (record g { members = Map.remove user_id_hex g.members }, contains_key user_id_hex g.members)

unfoldable pub is_member : Bytes → P2PGroup → Bool
is_member user_id_hex g = contains_key user_id_hex g.members

abbrev pub is_admin_role : GroupRole → Bool
is_admin_role creator = true
is_admin_role admin = true
is_admin_role member = false

unfoldable pub is_admin : Bytes → P2PGroup → Bool
is_admin user_id_hex g = elim (get user_id_hex g.members) [
  | none ↦ false
  | some m ↦ is_admin_role m.role
]
