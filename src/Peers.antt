-- ===== src/Peers.antt =====
-- `PeerManager` of nodex-kademlia/src/peer_manager.rs. Each operation holds the map's lock throughout;
-- `now` is the time that it reads.
pub mod Laws
mod Tests
use node_x.Base.{
  ℕ, ◌+◌, ◌-◌, min, Bool, true, false, ◌&&◌, Option, none, some, List, [], ◌∷◌, length, filter, map,
  ltb, list_eq, nat_eq,
}
use node_x.Base.Map.{get, insert, retain}
use node_x.Net.{NodeId, SocketAddr}

pub record PeerInfo : Type 0 where
  pub node_id : NodeId
  pub socket_addr : SocketAddr
  pub last_seen : ℕ
  pub last_latency_ms : Option ℕ
  pub failed_attempts : ℕ

pub record PeerManager : Type 0 where
  pub peers : List (NodeId × PeerInfo)
  pub peer_timeout : ℕ

unfoldable pub new : ℕ → PeerManager
new peer_timeout_secs = record { peers = []; peer_timeout = peer_timeout_secs }

unfoldable pub record_success : ℕ → NodeId → SocketAddr → Option ℕ → PeerManager → PeerManager
record_success now node_id socket_addr latency_ms m = record m {
  peers =
      insert node_id
        (record {
          node_id = node_id;
          socket_addr = socket_addr;
          last_seen = now;
          last_latency_ms = latency_ms;
          failed_attempts = 0;
        })
        m.peers;
}

-- `failed_attempts.saturating_add(1)` on a `u32`.
abbrev pub failed_again : PeerInfo → PeerInfo
failed_again p = record p { failed_attempts = min (p.failed_attempts + 1) 4294967295 }

unfoldable pub record_failure : NodeId → PeerManager → PeerManager
record_failure node_id m = elim (get node_id m.peers) [
  | none ↦ m
  | some p ↦ record m { peers = insert node_id (failed_again p) m.peers }
]

unfoldable pub get_peer_addr : NodeId → PeerManager → Option SocketAddr
get_peer_addr node_id m = elim (get node_id m.peers) [ none ↦ none | some p ↦ some p.socket_addr ]

abbrev pub is_recent : ℕ → PeerManager → PeerInfo → Bool
is_recent now m p = ltb (now - p.last_seen) m.peer_timeout

unfoldable pub get_active_peers : ℕ → PeerManager → List PeerInfo
get_active_peers now m = filter (is_recent now m) (map (λ e. e.1) m.peers)

unfoldable pub cleanup_stale : ℕ → PeerManager → PeerManager × ℕ
cleanup_stale now m =
    let kept = retain (λ id p. is_recent now m p && ltb p.failed_attempts 5) m.peers in
    (record m { peers = kept }, length m.peers - length kept)
