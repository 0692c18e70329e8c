-- ===== src/Blocklist/Laws.antt =====
-- Laws of the blocklist (nodex-messenger/src/blocklist.rs).
use node_x.Base.{
  ◌≡◌, refl, true, not, ◌&&◌, ◌||◌, [], ◌∷◌, arith, ◌==◌, list_eq, nat_eq, list_beq_iff, if-elim,
}
use node_x.Base.Words.{Bytes}
use node_x.Blocklist.{Blocklist, is_blocked, block, unblock}

blocked_same :
    (user other : Bytes) (b : Blocklist)
    → is_blocked user b ≡ true
    → is_blocked other b ≡ ((user == other) || is_blocked other b)
unfolding is_blocked
blocked_same user other b h = ground (arith, list_beq_iff user other)

is_blocked-cons :
    (user other : Bytes) (b : Blocklist)
    → is_blocked other (user ∷ b) ≡ ((user == other) || is_blocked other b)
unfolding is_blocked
is_blocked-cons user other b = refl

unblock_lem :
    (user other : Bytes) (b : Blocklist)
    → is_blocked other (unblock user b) ≡ (not (user == other) && is_blocked other b)
unfolding is_blocked unblock
unblock_lem user other [] = ground arith
unblock_lem user other (u ∷ b) = ground (
  arith,
  list_beq_iff u user,
  list_beq_iff u other,
  list_beq_iff user other,
  unblock_lem user other b,
)

-- After `block` a user is blocked if it is the one given or was before; after `unblock` if it was
-- before and is not the one given.
block-unblock :
    (user other : Bytes) (b : Blocklist)
    → (is_blocked other (block user b) ≡ ((user == other) || is_blocked other b))
      × (is_blocked other (unblock user b) ≡ (not (user == other) && is_blocked other b))
unfolding block
block-unblock user other b = (
  if-elim (λ c. is_blocked other c ≡ ((user == other) || is_blocked other b)) (is_blocked user b)
      (blocked_same user other b) (λ _. is_blocked-cons user other b),
  unblock_lem user other b,
)
