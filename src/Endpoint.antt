-- ===== src/Endpoint.antt =====
-- The ranking of endpoints, nodex-kademlia/src/endpoint.rs.
pub mod Ranking
mod Tests
use node_x.Base.{ℕ, Bool, true, false, List, [], ◌∷◌, ◌++◌, any, leb, if◌then◌else◌, ◌==◌}
use node_x.Base.Sort.{sort_by}
use node_x.Net.{SocketAddr, addr_eq}

pub data EndpointType : Type 0 where
  ipv6 upnp stun local : EndpointType

-- The discriminants, which the derived order compares.
abbrev pub discriminant : EndpointType → ℕ
discriminant ipv6 = 4
discriminant upnp = 3
discriminant stun = 2
discriminant local = 1

pub record EndpointCandidate : Type 0 where
  pub addr : SocketAddr
  pub endpoint_type : EndpointType

-- `Reverse(a.endpoint_type)` is not above `Reverse(b.endpoint_type)`.
abbrev pub ranks_before : EndpointCandidate → EndpointCandidate → Bool
ranks_before a b = leb (discriminant b.endpoint_type) (discriminant a.endpoint_type)

abbrev pub has_addr : SocketAddr → EndpointCandidate → Bool
has_addr addr u = u.addr == addr

-- The loop over the candidates, with those that are taken so far.
unfoldable pub take_unique :
    List EndpointCandidate → List EndpointCandidate → List EndpointCandidate
take_unique unique [] = unique
take_unique unique (c ∷ cs) =
    take_unique (if any (has_addr c.addr) unique then unique else unique ++ c ∷ []) cs

unfoldable pub rank_candidates : List EndpointCandidate → List EndpointCandidate
unfolding take_unique
rank_candidates candidates = take_unique [] (sort_by ranks_before candidates)
