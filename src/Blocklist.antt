-- ===== src/Blocklist.antt =====
-- The blocked users, nodex-messenger/src/blocklist.rs: a set of ids.
pub mod Laws
use node_x.Base.{
  Bool, true, false, List, [], ◌∷◌, ◌==◌, list_eq, nat_eq, any, filter, not, if◌then◌else◌,
}
use node_x.Base.Words.{Bytes}

abbrev pub Blocklist : Type 0
Blocklist = List Bytes

unfoldable pub is_blocked : Bytes → Blocklist → Bool
is_blocked user_id_hex b = any (λ u. u == user_id_hex) b

unfoldable pub block : Bytes → Blocklist → Blocklist
unfolding is_blocked
block user_id_hex b = if is_blocked user_id_hex b then b else user_id_hex ∷ b

unfoldable pub unblock : Bytes → Blocklist → Blocklist
unblock user_id_hex b = filter (λ u. not (u == user_id_hex)) b
