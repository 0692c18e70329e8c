-- ===== src/Peers/Tests.antt =====
-- A concrete peer.
use node_x.Base.{◌-◌, ◌≡◌, ◌&&◌, none, some, [], ◌∷◌, arith, ltb, if◌then◌else◌, replicate}
use node_x.Net.{NodeId, SocketAddr, v4}
use node_x.Peers.{PeerManager, record_success, cleanup_stale, get_peer_addr}
use node_x.Peers.Laws.{fail_times, get_peer_addr-cleanup_stale}

abbrev peer_id : NodeId
peer_id = replicate 20 3

abbrev peer_addr : SocketAddr
peer_addr = record { ip = v4 (10 ∷ 0 ∷ 0 ∷ 8 ∷ []); port = 4000 }

abbrev manager : PeerManager
manager = record { peers = []; peer_timeout = 300 }

get_peer_addr-cleanup_stale_example :
    get_peer_addr peer_id
      (cleanup_stale 70
        (fail_times 3 peer_id (record_success 50 peer_id peer_addr (some 12) manager))).0
    ≡ (if ltb (70 - 50) 300 && ltb 3 5 then some peer_addr else none)
get_peer_addr-cleanup_stale_example =
    get_peer_addr-cleanup_stale 50 70 3 peer_id peer_addr (some 12) manager tt (omega arith)
