-- ===== src/Endpoint/Tests.antt =====
-- Two candidates with one address.
use node_x.Base.{List, [], ◌∷◌}
use node_x.Net.{SocketAddr, v4}
use node_x.Endpoint.{EndpointCandidate, local, upnp, rank_candidates}
use node_x.Endpoint.Ranking.{IsRanked, rank_candidates-IsRanked}

abbrev address : SocketAddr
address = record { ip = v4 (10 ∷ 0 ∷ 0 ∷ 8 ∷ []); port = 4000 }

abbrev candidates : List EndpointCandidate
candidates =
    record { addr = address; endpoint_type = local }
    ∷ record { addr = address; endpoint_type = upnp }
    ∷ []

rank_candidates-IsRanked_example : IsRanked candidates (rank_candidates candidates)
rank_candidates-IsRanked_example = rank_candidates-IsRanked candidates
