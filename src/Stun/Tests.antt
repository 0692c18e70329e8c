-- ===== src/Stun/Tests.antt =====
-- A concrete response for the laws of the STUN client.
use node_x.Stun.RoundTrip.{
  Endpoint, response, xor_mapped, address_of, parse_binding_response-response,
}
use node_x.Stun.Total.{parse_binding_response-total}
use node_x.Stun.{parse_binding_response}
use node_x.Net.{SocketAddr}
use node_x.Base.Words.{Bytes}
use node_x.Base.{◌≡◌, refl, Option, some, [], ◌∷◌, ◌++◌, replicate, arith}

abbrev endpoint : Endpoint
endpoint = record { p0 = 15; p1 = 160; a0 = 203; a1 = 0; a2 = 113; a3 = 9 }

abbrev id : Bytes
id = replicate 12 7

-- A trailing attribute SOFTWARE without a value.
abbrev trailing : Bytes
trailing = 128 ∷ 34 ∷ 0 ∷ 0 ∷ []

parse_binding_response-response_example :
    parse_binding_response (response 0 16 id (xor_mapped endpoint ++ trailing)) id
    ≡ some (some (address_of endpoint))
parse_binding_response-response_example =
    parse_binding_response-response endpoint 0 16 id trailing (omega arith) refl (omega arith)

-- The value of the attribute is cut off.
parse_binding_response-total_example :
    (found : Option SocketAddr) × (parse_binding_response
        (response 0 16 id (0 ∷ 32 ∷ 0 ∷ 8 ∷ 0 ∷ 1 ∷ []))
        id
      ≡ some found)
parse_binding_response-total_example =
    parse_binding_response-total (response 0 16 id (0 ∷ 32 ∷ 0 ∷ 8 ∷ 0 ∷ 1 ∷ [])) id
