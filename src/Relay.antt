-- ===== src/Relay.antt =====
-- The opt-in relay, nodex-kademlia/src/relay_client.rs. Times of `Instant` are milliseconds; a call
-- returns the service after it beside its result. Arithmetic wraps, as in a release build.
pub mod Reach
pub mod Rate
mod Tests
use node_x.Base.{
  ℕ, zero, suc, ◌+◌, ◌-◌, ◌%◌, min, Bool, true, false, not, ◌&&◌, ◌||◌, Option, none, some, List,
  [], ◌∷◌, length, any, ltb, leb, if◌then◌else◌, ◌==◌, list_eq, nat_eq,
}
use node_x.Base.Words.{Bytes}
use node_x.Base.Outcome.{panic, Outcome, ok, err}
use node_x.Base.Map.{get, insert}
use node_x.Net.{SocketAddr, addr_eq}

abbrev pub max_relay_sessions : ℕ
max_relay_sessions = 10

abbrev pub max_packets_per_sec : ℕ
max_packets_per_sec = 20

abbrev pub max_relay_packet_size : ℕ
max_relay_packet_size = 1200

pub record RelaySessionRequest : Type 0 where
  pub session_id : Bytes
  pub sender_user_id : Bytes
  pub recipient_user_id : Bytes
  pub created_at : ℕ
  pub expires_at : ℕ
  pub signature_hex : Bytes

pub record RelayPacket : Type 0 where
  pub session_id : Bytes
  pub sender_user_id : Bytes
  pub payload : Bytes

pub record RelayConfig : Type 0 where
  pub enabled : Bool
  pub max_sessions : ℕ
  pub daily_traffic_limit_bytes : ℕ

pub record PeerRateTracker : Type 0 where
  pub last_reset : ℕ
  pub packet_count : ℕ

pub record ActiveSession : Type 0 where
  pub sender_addr : SocketAddr
  pub recipient_addr : Option SocketAddr
  pub sender_id : Bytes
  pub recipient_id : Bytes
  pub created_at : ℕ

pub record RelayService : Type 0 where
  pub config : RelayConfig
  pub active_sessions : List (Bytes × ActiveSession)
  pub rate_limiters : List (SocketAddr × PeerRateTracker)
  pub blacklist : List Bytes
  pub daily_bytes_relayed : ℕ

pub data RelayError : Type 0 where
  disabled request_expired blacklisted quota_reached capacity_full : RelayError
  packet_too_large rate_limited unauthorized session_not_found : RelayError

unfoldable pub new : RelayConfig → RelayService
new config = record {
  config = config;
  active_sessions = [];
  rate_limiters = [];
  blacklist = [];
  daily_bytes_relayed = 0;
}

unfoldable pub is_blacklisted : Bytes → RelayService → Bool
is_blacklisted user_id s = any (λ u. u == user_id) s.blacklist

unfoldable pub blacklist_peer : Bytes → RelayService → RelayService
unfolding is_blacklisted
blacklist_peer user_id s =
    if is_blacklisted user_id s then s else record s { blacklist = user_id ∷ s.blacklist }

abbrev pub session_of : ℕ → RelaySessionRequest → SocketAddr → ActiveSession
session_of now request from_addr = record {
  sender_addr = from_addr;
  recipient_addr = none;
  sender_id = request.sender_user_id;
  recipient_id = request.recipient_user_id;
  created_at = now;
}

-- `now` is the `Instant`, `current_timestamp` the argument.
unfoldable pub handle_session_request :
    ℕ → RelaySessionRequest → SocketAddr → ℕ → RelayService → RelayService × Outcome RelayError Bool
unfolding is_blacklisted
handle_session_request now request from_addr current_timestamp s =
    if not s.config.enabled
    then (s, err disabled)
    else if leb request.expires_at current_timestamp
    then (s, err request_expired)
    else if is_blacklisted request.sender_user_id s || is_blacklisted request.recipient_user_id s
    then (s, err blacklisted)
    else if leb s.config.daily_traffic_limit_bytes s.daily_bytes_relayed
    then (s, err quota_reached)
    else if leb (min s.config.max_sessions max_relay_sessions) (length s.active_sessions)
    then (s, err capacity_full)
    else (
      record s {
        active_sessions =
            insert request.session_id (session_of now request from_addr) s.active_sessions;
      },
      ok true,
    )

-- The tracker of an address, with its count reset after a second, and this packet counted.
unfoldable pub tracked : ℕ → SocketAddr → List (SocketAddr × PeerRateTracker) → PeerRateTracker
tracked now from_addr limiters = elim (get from_addr limiters) [
  | none ↦ record { last_reset = now; packet_count = 1 }
  | some t ↦
      if leb 1000 (now - t.last_reset)
      then record { last_reset = now; packet_count = 1 }
      else record t { packet_count = (t.packet_count + 1) % 4294967296 }
]

-- The address that a packet of a session goes to.
unfoldable pub target_of : SocketAddr → ActiveSession → Outcome RelayError (Option SocketAddr)
target_of from_addr session =
    if from_addr == session.sender_addr
    then ok session.recipient_addr
    else elim session.recipient_addr [
      | none ↦ err unauthorized
      | some r ↦ if from_addr == r then ok (some session.sender_addr) else err unauthorized
    ]

unfoldable pub route :
    RelayPacket → SocketAddr → RelayService → RelayService × Outcome RelayError (Option SocketAddr)
unfolding target_of
route packet from_addr s = elim (get packet.session_id s.active_sessions) [
  | none ↦ (s, err session_not_found)
  | some session ↦ elim (target_of from_addr session) [
    | ok target ↦ (
      record s {
        daily_bytes_relayed =
            (s.daily_bytes_relayed + length packet.payload) % 18446744073709551616;
      },
      ok target,
    )
    | err e ↦ (s, err e)
    | panic ↦ (s, panic)
  ]
]

unfoldable pub forward_packet :
    ℕ
    → RelayPacket
    → SocketAddr
    → RelayService
    → RelayService × Outcome RelayError (Option SocketAddr)
unfolding tracked route
forward_packet now packet from_addr s =
    if not s.config.enabled
    then (s, err disabled)
    else if ltb max_relay_packet_size (length packet.payload)
    then (s, err packet_too_large)
    else let t = tracked now from_addr s.rate_limiters in
      let s' : RelayService = record s { rate_limiters = insert from_addr t s.rate_limiters } in
      if ltb max_packets_per_sec t.packet_count
      then (s', err rate_limited)
      else route packet from_addr s'
