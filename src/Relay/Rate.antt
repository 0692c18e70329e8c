-- ===== src/Relay/Rate.antt =====
-- Laws of the relay's rate limit (nodex-kademlia/src/relay_client.rs).
use node_x.Base.{
  list_eq, nat_eq, ==_refl, ℕ, ◌+◌, ◌-◌, ◌≤◌, ◌<◌, ◌≡◌, refl, Option, some, List, [], ◌∷◌, length,
  arith, Option-cases, inl, inr, ◌⊎◌, not, ltb, if-elim, All,
}
use node_x.Base.Outcome.{Outcome, ok, err, panic}
use node_x.Base.Map.{get, insert, get-insert}
use node_x.Net.{SocketAddr, addr_eq}
use node_x.Relay.{
  ActiveSession, RelayService, RelayPacket, RelayError, PeerRateTracker, forward_packet, route,
  tracked, target_of, max_relay_packet_size, max_packets_per_sec,
}

abbrev pub is_ok : Outcome RelayError (Option SocketAddr) → ℕ
is_ok (ok t) = 1
is_ok (err e) = 0
is_ok panic = 0

-- How many of the packets, each with its time, are accepted from an address.
abbrev pub accepted : SocketAddr → List (ℕ × RelayPacket) → RelayService → ℕ
accepted from_addr [] s = 0
accepted from_addr ((now, p) ∷ ps) s =
    let r = forward_packet now p from_addr s in is_ok r.1 + accepted from_addr ps r.0

-- One packet is counted by the tracker, if it gets that far.
record Counted (from_addr : SocketAddr) (t : PeerRateTracker)
    (r : RelayService × Outcome RelayError (Option SocketAddr)) : Type 0 where
  after : PeerRateTracker
  found : get from_addr r.0.rate_limiters ≡ some after
  same_reset : after.last_reset ≡ t.last_reset
  counts : is_ok r.1 + t.packet_count ≤ after.packet_count
  one_more : after.packet_count ≤ t.packet_count + 1
  limited : (is_ok r.1 ≡ 0) ⊎ (after.packet_count ≤ max_packets_per_sec)

abbrev SameLimiters : RelayService → RelayService → Type 0
SameLimiters s s' = s'.rate_limiters ≡ s.rate_limiters

route-limiters :
    (p : RelayPacket) (from_addr : SocketAddr) (s : RelayService)
    → SameLimiters s (route p from_addr s).0
unfolding route
route-limiters p from_addr s = elim (Option-cases (get p.session_id s.active_sessions)) [
  | inl e ↦ rw (route, e) refl
  | inr (session, e) ↦ by_target session e (target_of from_addr session) refl
]
  where
    by_target :
        (session : ActiveSession)
        → get p.session_id s.active_sessions ≡ some session
        → (o : Outcome RelayError (Option SocketAddr)) → target_of from_addr session ≡ o
        → SameLimiters s (route p from_addr s).0
    by_target session e (ok t) q = rw (route, e, q) refl
    by_target session e (err x) q = rw (route, e, q) refl
    by_target session e panic q = rw (route, e, q) refl

is_ok-le : (o : Outcome RelayError (Option SocketAddr)) → is_ok o ≤ 1
is_ok-le (ok t) = omega arith
is_ok-le (err e) = omega arith
is_ok-le panic = omega arith

module _ (from_addr : SocketAddr) (t : PeerRateTracker) (now : ℕ) (s : RelayService)
    (found : get from_addr s.rate_limiters ≡ some t) (recent : now - t.last_reset < 1000)
    (fits : t.packet_count + 1 < 4294967296) where
  tracked-counts : (tracked now from_addr s.rate_limiters).packet_count ≡ t.packet_count + 1
  unfolding tracked
  tracked-counts = rw (tracked, found) (ground arith)

  tracked-reset : (tracked now from_addr s.rate_limiters).last_reset ≡ t.last_reset
  unfolding tracked
  tracked-reset = rw (tracked, found) (ground arith)

  unseen : (e : RelayError) → Counted from_addr t (s, err e)
  unseen e = record {
    after = t;
    found = found;
    same_reset = refl;
    counts = omega arith;
    one_more = omega arith;
    limited = inl refl;
  }

  forward_packet-Counted :
      (p : RelayPacket) → Counted from_addr t (forward_packet now p from_addr s)
  unfolding forward_packet
  forward_packet-Counted p =
      let t' = tracked now from_addr s.rate_limiters in
      let s' : RelayService = record s { rate_limiters = insert from_addr t' s.rate_limiters } in
      let stored : get from_addr (insert from_addr t' s.rate_limiters) ≡ some t' =
        rw (get-insert from_addr from_addr t' s.rate_limiters, ==_refl from_addr) refl in
      let P = Counted from_addr t in
      if-elim P (not s.config.enabled) (λ _. unseen RelayError.disabled)
        (λ _.
          if-elim P (ltb max_relay_packet_size (length p.payload))
            (λ _. unseen RelayError.packet_too_large)
            (λ _.
              if-elim P (ltb max_packets_per_sec t'.packet_count)
                (λ _. record {
                  after = t';
                  found = stored;
                  same_reset = tracked-reset;
                  counts = omega (arith, tracked-counts);
                  one_more = omega (arith, tracked-counts);
                  limited = inl refl;
                })
                (λ small. record {
                  after = t';
                  found = rw (route-limiters p from_addr s') stored;
                  same_reset = tracked-reset;
                  counts = omega (arith, tracked-counts, is_ok-le (route p from_addr s').1);
                  one_more = omega (arith, tracked-counts);
                  limited = inr (ground arith);
                })))

-- Of the packets that come from an address within a second after its tracker was last reset, the
-- relay accepts at most as many as are left of twenty, as long as the 32-bit count does not wrap.
pub accepted-le :
    (from_addr : SocketAddr) (t : PeerRateTracker) (ps : List (ℕ × RelayPacket)) (s : RelayService)
    → get from_addr s.rate_limiters ≡ some t
    → All (λ p. p.0 - t.last_reset < 1000) ps
    → t.packet_count + length ps < 4294967296
    → accepted from_addr ps s ≤ max_packets_per_sec - t.packet_count
accepted-le from_addr t [] s found recent fits = omega arith
accepted-le from_addr t ((now, p) ∷ ps) s found recent fits =
    let c = forward_packet-Counted from_addr t now s found recent.0 (omega arith) p in
    let later : All (λ q. q.0 - c.after.last_reset < 1000) ps = rw c.same_reset recent.1 in
    let rest =
      accepted-le from_addr c.after ps (forward_packet now p from_addr s).0 c.found later
        (omega (arith, c.one_more)) in
    elim c.limited [
      | inl none_more ↦ omega (arith, c.counts, none_more, rest)
      | inr small ↦ omega (arith, c.counts, small, rest)
    ]
