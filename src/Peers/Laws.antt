-- ===== src/Peers/Laws.antt =====
-- Laws of the peer manager (nodex-kademlia/src/peer_manager.rs).
use node_x.Base.{
  Bool-cases, inl, inr, ap, ℕ, zero, suc, ◌-◌, ◌<◌, ◌≡◌, refl, ◌&&◌, Option, none, some, arith, ltb,
  list_eq, nat_eq, if◌then◌else◌, ==_refl,
}
use node_x.Base.Map.{get, IsMap, get-insert, get-retain, insert-IsMap}
use node_x.Net.{NodeId, SocketAddr}
use node_x.Peers.{
  PeerInfo, PeerManager, record_success, record_failure, failed_again, cleanup_stale, get_peer_addr,
  is_recent,
}

abbrev pub fail_times : ℕ → NodeId → PeerManager → PeerManager
fail_times zero node_id m = m
fail_times (suc n) node_id m = record_failure node_id (fail_times n node_id m)

-- A peer in a map, with its failures.
record Failed (n : ℕ) (node_id : NodeId) (now : ℕ) (addr : SocketAddr) (timeout : ℕ)
    (m : PeerManager) : Type 0 where
  info : PeerInfo
  found : get node_id m.peers ≡ some info
  failures : info.failed_attempts ≡ n
  seen : info.last_seen ≡ now
  where_ : info.socket_addr ≡ addr
  same_timeout : m.peer_timeout ≡ timeout
  distinct : IsMap m.peers

success-Failed :
    (now : ℕ) (node_id : NodeId) (addr : SocketAddr) (latency : Option ℕ) (m : PeerManager)
    → IsMap m.peers
    → Failed 0 node_id now addr m.peer_timeout (record_success now node_id addr latency m)
unfolding record_success
success-Failed now node_id addr latency m v =
    let info : PeerInfo = record {
      node_id = node_id;
      socket_addr = addr;
      last_seen = now;
      last_latency_ms = latency;
      failed_attempts = 0;
    } in
    record {
      info = info;
      found = rw (get-insert node_id node_id info m.peers, ==_refl node_id) refl;
      failures = refl;
      seen = refl;
      where_ = refl;
      same_timeout = refl;
      distinct = insert-IsMap node_id info m.peers v;
    }

record_failure-Failed :
    (n : ℕ) (node_id : NodeId) (now : ℕ) (addr : SocketAddr) (timeout : ℕ) (m : PeerManager)
    → n < 4294967295
    → Failed n node_id now addr timeout m
    → Failed (suc n) node_id now addr timeout (record_failure node_id m)
unfolding record_failure
record_failure-Failed n node_id now addr timeout m small f =
    rw (record_failure, f.found)
      (record {
        info = failed_again f.info;
        found = rw (get-insert node_id node_id (failed_again f.info) m.peers, ==_refl node_id) refl;
        failures = omega (arith, f.failures);
        seen = f.seen;
        where_ = f.where_;
        same_timeout = f.same_timeout;
        distinct = insert-IsMap node_id (failed_again f.info) m.peers f.distinct;
      })

fail_times-Failed :
    (n : ℕ) (node_id : NodeId) (now : ℕ) (addr : SocketAddr) (timeout : ℕ) (m : PeerManager)
    → n < 4294967295
    → Failed 0 node_id now addr timeout m
    → Failed n node_id now addr timeout (fail_times n node_id m)
fail_times-Failed zero node_id now addr timeout m small f = f
fail_times-Failed (suc n) node_id now addr timeout m small f =
    record_failure-Failed n node_id now addr timeout (fail_times n node_id m) (omega arith)
      (fail_times-Failed n node_id now addr timeout m (omega arith) f)

-- A peer that answered at `now` and then failed `n` times is still known after a cleanup at `later`
-- exactly when it failed fewer than five times and it answered within the timeout.
pub get_peer_addr-cleanup_stale :
    (now later n : ℕ) (node_id : NodeId) (addr : SocketAddr) (latency : Option ℕ) (m : PeerManager)
    → IsMap m.peers
    → n < 4294967295
    → get_peer_addr node_id
        (cleanup_stale later (fail_times n node_id (record_success now node_id addr latency m))).0
      ≡ (if ltb (later - now) m.peer_timeout && ltb n 5 then some addr else none)
unfolding get_peer_addr cleanup_stale
get_peer_addr-cleanup_stale now later n node_id addr latency m v small =
    let s = fail_times n node_id (record_success now node_id addr latency m) in
    let f =
      fail_times-Failed n node_id now addr m.peer_timeout
        (record_success now node_id addr latency m) small
        (success-Failed now node_id addr latency m v) in
    let kept =
      get-retain (λ id p. is_recent later s p && ltb p.failed_attempts 5) node_id f.info s.peers
        f.distinct f.found in
    elim (Bool-cases (is_recent later s f.info && ltb f.info.failed_attempts 5)) [
      | inl h ↦
          let h' = rw (f.seen, f.same_timeout, f.failures) at h in
          rw (get_peer_addr, kept, h, h') (ap some f.where_)
      | inr h ↦
          let h' = rw (f.seen, f.same_timeout, f.failures) at h in
          rw (get_peer_addr, kept, h, h') refl
    ]
