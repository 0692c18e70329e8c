-- ===== src/Health.antt =====
-- The state of a node, nodex-kademlia/src/health.rs: a byte behind an atomic.
pub mod Laws
use node_x.Base.{ℕ, Bool, true, false, nat_beq, if◌then◌else◌}

pub data NodeHealthState : Type 0 where
  starting binding connecting searching_peers online degraded offline stopping : NodeHealthState

-- `state as u8`
abbrev pub as_u8 : NodeHealthState → ℕ
as_u8 starting = 0
as_u8 binding = 1
as_u8 connecting = 2
as_u8 searching_peers = 3
as_u8 online = 4
as_u8 degraded = 5
as_u8 offline = 6
as_u8 stopping = 7

unfoldable pub from_u8 : ℕ → NodeHealthState
from_u8 val =
    if nat_beq val 0
    then starting
    else if nat_beq val 1
    then binding
    else if nat_beq val 2
    then connecting
    else if nat_beq val 3
    then searching_peers
    else if nat_beq val 4
    then online
    else if nat_beq val 5
    then degraded
    else if nat_beq val 6
    then offline
    else stopping

pub record HealthTracker : Type 0 where
  pub state : ℕ

unfoldable pub new : NodeHealthState → HealthTracker
new initial = record { state = as_u8 initial }

unfoldable pub set_state : NodeHealthState → HealthTracker → HealthTracker
set_state new_state h = record h { state = as_u8 new_state }

unfoldable pub get_state : HealthTracker → NodeHealthState
unfolding from_u8
get_state h = from_u8 h.state

unfoldable pub is_online : HealthTracker → Bool
unfolding get_state
is_online h = elim (get_state h) [ online ↦ true | degraded ↦ true | _ ↦ false ]
