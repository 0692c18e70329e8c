-- ===== src/Relay/Tests.antt =====
-- A concrete relay with a session for the laws of the relay.
use node_x.Base.{◌-◌, ◌≤◌, refl, true, [], ◌∷◌, arith, replicate}
use node_x.Net.{SocketAddr, v4}
use node_x.Relay.{
  RelayConfig, RelayService, RelaySessionRequest, RelayPacket, PeerRateTracker, new,
  handle_session_request, forward_packet, max_packets_per_sec,
}
use node_x.Relay.Reach.{
  Reaches, starts, steps, requests, IsRelay, Reaches-IsRelay, GoesNowhere,
  forward_packet-GoesNowhere,
}
use node_x.Relay.Rate.{accepted, accepted-le}

abbrev config : RelayConfig
config = record { enabled = true; max_sessions = 4; daily_traffic_limit_bytes = 1000 }

abbrev sender : SocketAddr
sender = record { ip = v4 (10 ∷ 0 ∷ 0 ∷ 8 ∷ []); port = 4000 }

abbrev request : RelaySessionRequest
request = record {
  session_id = replicate 16 5;
  sender_user_id = 97 ∷ [];
  recipient_user_id = 98 ∷ [];
  created_at = 10;
  expires_at = 60;
  signature_hex = [];
}

abbrev packet : RelayPacket
packet = record { session_id = replicate 16 5; sender_user_id = 97 ∷ []; payload = 1 ∷ 2 ∷ [] }

abbrev opened : RelayService
opened = (handle_session_request 0 request sender 20 (new config)).0

opened-Reaches : Reaches config opened
opened-Reaches = steps starts (requests 0 request sender 20 (new config))

Reaches-IsRelay_example : IsRelay config opened
Reaches-IsRelay_example = Reaches-IsRelay config opened-Reaches

forward_packet-GoesNowhere_example : GoesNowhere (forward_packet 5 packet sender opened).1
forward_packet-GoesNowhere_example =
    forward_packet-GoesNowhere config 5 packet sender opened-Reaches

-- A relay whose tracker has counted eighteen packets of the sender.
abbrev tracker : PeerRateTracker
tracker = record { last_reset = 1000; packet_count = 18 }

abbrev busy : RelayService
busy = record {
  config = config;
  active_sessions = [];
  rate_limiters = (sender, tracker) ∷ [];
  blacklist = [];
  daily_bytes_relayed = 0;
}

accepted-le_example :
    accepted sender ((1100, packet) ∷ (1200, packet) ∷ (1900, packet) ∷ []) busy
    ≤ max_packets_per_sec - 18
accepted-le_example =
    accepted-le sender tracker ((1100, packet) ∷ (1200, packet) ∷ (1900, packet) ∷ []) busy refl
      (omega arith, (omega arith, (omega arith, tt))) (omega arith)
