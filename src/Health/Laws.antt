-- ===== src/Health/Laws.antt =====
-- Laws of the health tracker (nodex-kademlia/src/health.rs).
use node_x.Base.{◌≡◌, ◌↔◌, ◌⊎◌, inl, inr, refl, true, arith}
use node_x.Health.{
  NodeHealthState, starting, binding, connecting, searching_peers, online, degraded, offline,
  stopping, HealthTracker, set_state, get_state, is_online,
}

-- A tracker is in the state that was set last, and online exactly in the states online and degraded.
get_state-set_state :
    (s : NodeHealthState) (h : HealthTracker)
    → (get_state (set_state s h) ≡ s)
      × ((is_online (set_state s h) ≡ true) ↔ ((s ≡ online) ⊎ (s ≡ degraded)))
unfolding get_state set_state is_online
get_state-set_state starting h = (refl, ground arith)
get_state-set_state binding h = (refl, ground arith)
get_state-set_state connecting h = (refl, ground arith)
get_state-set_state searching_peers h = (refl, ground arith)
get_state-set_state online h = (refl, (λ _. inl refl, λ _. refl))
get_state-set_state degraded h = (refl, (λ _. inr refl, λ _. refl))
get_state-set_state offline h = (refl, ground arith)
get_state-set_state stopping h = (refl, ground arith)
