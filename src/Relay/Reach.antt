-- ===== src/Relay/Reach.antt =====
-- The states that the relay of nodex-kademlia/src/relay_client.rs reaches.
use node_x.Base.Outcome.{Outcome, ok, err, panic}
use node_x.Net.{SocketAddr, addr_eq}
use node_x.Base.Map.{
  AllValues-get, insert-IsMap, length-insert-le, AllValues-insert, get, insert, IsMap, AllValues,
}
use node_x.Base.{
  ◌==◌, if-elim, not, ◌||◌, leb, min, inl, inr, Bool-cases, Option-cases, ltb, list_eq, nat_eq,
  false, Bool, ℕ, ◌≤◌, ◌≡◌, refl, Option, none, some, length, arith,
}
use node_x.Base.Words.{Bytes}
use node_x.Relay.{
  session_of, new, blacklist_peer, is_blacklisted, handle_session_request, forward_packet, route,
  tracked, target_of, RelaySessionRequest, RelayPacket, ActiveSession, RelayError,
  max_relay_sessions, max_relay_packet_size, max_packets_per_sec, RelayService, RelayConfig,
}

-- One call, with any arguments at any time.
pub data Step : RelayService → RelayService → Type 0 where
  blacklists : (user : Bytes) (s : RelayService) → Step s (blacklist_peer user s)
  requests :
      (now : ℕ) (r : RelaySessionRequest) (from_addr : SocketAddr) (timestamp : ℕ)
      (s : RelayService)
      → Step s (handle_session_request now r from_addr timestamp s).0
  forwards :
      (now : ℕ) (p : RelayPacket) (from_addr : SocketAddr) (s : RelayService)
      → Step s (forward_packet now p from_addr s).0

pub data Reaches (config : RelayConfig) : RelayService → Type 0 where
  starts : Reaches config (new config)
  steps : {s s' : RelayService} → Reaches config s → Step s s' → Reaches config s'

abbrev pub HasNoRecipient : Bytes → ActiveSession → Type 0
HasNoRecipient id session = session.recipient_addr ≡ none

pub record IsRelay (config : RelayConfig) (s : RelayService) : Type 0 where
  pub same_config : s.config ≡ config
  pub distinct : IsMap s.active_sessions
  pub few : length s.active_sessions ≤ max_relay_sessions
  pub no_recipient : AllValues HasNoRecipient s.active_sessions

-- A call that leaves the configuration and the sessions as they are.
same-IsRelay :
    (config : RelayConfig) (s s' : RelayService)
    → s'.config ≡ s.config
    → s'.active_sessions ≡ s.active_sessions
    → IsRelay config s
    → IsRelay config s'
same-IsRelay config s s' p q v = record {
  same_config = cc (p, v.same_config);
  distinct = rw q v.distinct;
  few = rw q v.few;
  no_recipient = rw q v.no_recipient;
}

blacklist_peer-same :
    (user : Bytes) (s : RelayService)
    → ((blacklist_peer user s).config ≡ s.config)
      × ((blacklist_peer user s).active_sessions ≡ s.active_sessions)
unfolding blacklist_peer
blacklist_peer-same user s = elim (Bool-cases (is_blacklisted user s)) [
  | inl e ↦ rw (blacklist_peer, e) (refl, refl)
  | inr e ↦ rw (blacklist_peer, e) (refl, refl)
]

abbrev Same : RelayService → RelayService → Type 0
Same s s' = (s'.config ≡ s.config) × (s'.active_sessions ≡ s.active_sessions)

route-Same :
    (p : RelayPacket) (from_addr : SocketAddr) (s : RelayService) → Same s (route p from_addr s).0
unfolding route
route-Same p from_addr s = elim (Option-cases (get p.session_id s.active_sessions)) [
  | inl e ↦ rw (route, e) (refl, refl)
  | inr (session, e) ↦ by_target session e (target_of from_addr session) refl
]
  where
    by_target :
        (session : ActiveSession)
        → get p.session_id s.active_sessions ≡ some session
        → (o : Outcome RelayError (Option SocketAddr)) → target_of from_addr session ≡ o
        → Same s (route p from_addr s).0
    by_target session e (ok t) q = rw (route, e, q) (refl, refl)
    by_target session e (err x) q = rw (route, e, q) (refl, refl)
    by_target session e panic q = rw (route, e, q) (refl, refl)

forward_packet-Same :
    (now : ℕ) (p : RelayPacket) (from_addr : SocketAddr) (s : RelayService)
    → Same s (forward_packet now p from_addr s).0
unfolding forward_packet
forward_packet-Same now p from_addr s =
    let t = tracked now from_addr s.rate_limiters in
    let s' : RelayService = record s { rate_limiters = insert from_addr t s.rate_limiters } in
    let P : RelayService × Outcome RelayError (Option SocketAddr) → Type 0 = λ r. Same s r.0 in
    if-elim P (not s.config.enabled) (λ _. (refl, refl))
      (λ _.
        if-elim P (ltb max_relay_packet_size (length p.payload)) (λ _. (refl, refl))
          (λ _.
            if-elim P (ltb max_packets_per_sec t.packet_count) (λ _. (refl, refl))
              (λ _. route-Same p from_addr s')))

opened-IsRelay :
    (config : RelayConfig) (now : ℕ) (r : RelaySessionRequest) (from_addr : SocketAddr)
    (s : RelayService)
    → IsRelay config s
    → leb (min s.config.max_sessions max_relay_sessions) (length s.active_sessions) ≡ false
    → IsRelay config (record s {
      active_sessions = insert r.session_id (session_of now r from_addr) s.active_sessions;
    })
opened-IsRelay config now r from_addr s v room =
    let session = session_of now r from_addr in
    record {
      same_config = v.same_config;
      distinct = insert-IsMap r.session_id session s.active_sessions v.distinct;
      few = ground (arith, length-insert-le r.session_id session s.active_sessions);
      no_recipient =
          AllValues-insert HasNoRecipient r.session_id session s.active_sessions v.no_recipient
            refl;
    }

handle_session_request-IsRelay :
    (config : RelayConfig) (now : ℕ) (r : RelaySessionRequest) (from_addr : SocketAddr)
    (timestamp : ℕ) (s : RelayService)
    → IsRelay config s
    → IsRelay config (handle_session_request now r from_addr timestamp s).0
unfolding handle_session_request
handle_session_request-IsRelay config now r from_addr timestamp s v =
    let P : RelayService × Outcome RelayError Bool → Type 0 = λ o. IsRelay config o.0 in
    if-elim P (not s.config.enabled) (λ _. v)
      (λ _.
        if-elim P (leb r.expires_at timestamp) (λ _. v)
          (λ _.
            if-elim P (is_blacklisted r.sender_user_id s || is_blacklisted r.recipient_user_id s)
              (λ _. v)
              (λ _.
                if-elim P (leb s.config.daily_traffic_limit_bytes s.daily_bytes_relayed) (λ _. v)
                  (λ _.
                    if-elim P
                      (leb (min s.config.max_sessions max_relay_sessions)
                        (length s.active_sessions))
                      (λ _. v) (opened-IsRelay config now r from_addr s v)))))

Step-IsRelay :
    (config : RelayConfig) {s s' : RelayService} → Step s s' → IsRelay config s → IsRelay config s'
Step-IsRelay config (blacklists user s) v =
    let (p, q) = blacklist_peer-same user s in same-IsRelay config s (blacklist_peer user s) p q v
Step-IsRelay config (requests now r from_addr timestamp s) v =
    handle_session_request-IsRelay config now r from_addr timestamp s v
Step-IsRelay config (forwards now p from_addr s) v =
    let (a, b) = forward_packet-Same now p from_addr s in
    same-IsRelay config s (forward_packet now p from_addr s).0 a b v

-- In every state that the relay reaches it has at most ten sessions, no session twice, and the
-- configuration that it started with; and no session has a recipient's address.
pub Reaches-IsRelay :
    (config : RelayConfig) {s : RelayService} → Reaches config s → IsRelay config s
unfolding new
Reaches-IsRelay config starts = record {
  same_config = refl;
  distinct = tt;
  few = omega arith;
  no_recipient = tt;
}
Reaches-IsRelay config (steps r p) = Step-IsRelay config p (Reaches-IsRelay config r)

-- A packet that goes nowhere: refused, or accepted without a destination.
abbrev pub GoesNowhere : Outcome RelayError (Option SocketAddr) → Type 0
GoesNowhere (ok target) = target ≡ none
GoesNowhere (err e) = Unit
GoesNowhere panic = ⊥

target_of-GoesNowhere :
    (from_addr : SocketAddr) (session : ActiveSession)
    → session.recipient_addr ≡ none
    → GoesNowhere (target_of from_addr session)
unfolding target_of
target_of-GoesNowhere from_addr session h =
    if-elim GoesNowhere (from_addr == session.sender_addr) (λ _. h) (λ _. rw h tt)

route-GoesNowhere :
    (p : RelayPacket) (from_addr : SocketAddr) (s : RelayService)
    → AllValues HasNoRecipient s.active_sessions
    → GoesNowhere (route p from_addr s).1
unfolding route
route-GoesNowhere p from_addr s h = elim (Option-cases (get p.session_id s.active_sessions)) [
  | inl e ↦ rw (route, e) tt
  | inr (session, e) ↦
      let k = AllValues-get HasNoRecipient p.session_id session s.active_sessions h e in
      by_target session e (target_of from_addr session) refl
        (target_of-GoesNowhere from_addr session k)
]
  where
    by_target :
        (session : ActiveSession)
        → get p.session_id s.active_sessions ≡ some session
        → (o : Outcome RelayError (Option SocketAddr)) → target_of from_addr session ≡ o
        → GoesNowhere o
        → GoesNowhere (route p from_addr s).1
    by_target session e (ok t) q g = rw (route, e, q) g
    by_target session e (err x) q g = rw (route, e, q) tt
    by_target session e panic q g = absurd g

-- In every state that the relay reaches, every packet is refused or accepted without a destination.
pub forward_packet-GoesNowhere :
    (config : RelayConfig) {s : RelayService} (now : ℕ) (p : RelayPacket) (from_addr : SocketAddr)
    → Reaches config s
    → GoesNowhere (forward_packet now p from_addr s).1
unfolding forward_packet
forward_packet-GoesNowhere config {s} now p from_addr r =
    let t = tracked now from_addr s.rate_limiters in
    let s' : RelayService = record s { rate_limiters = insert from_addr t s.rate_limiters } in
    let P : RelayService × Outcome RelayError (Option SocketAddr) → Type 0 = λ o. GoesNowhere o.1 in
    if-elim P (not s.config.enabled) (λ _. tt)
      (λ _.
        if-elim P (ltb max_relay_packet_size (length p.payload)) (λ _. tt)
          (λ _.
            if-elim P (ltb max_packets_per_sec t.packet_count) (λ _. tt)
              (λ _. route-GoesNowhere p from_addr s' (Reaches-IsRelay config r).no_recipient)))
