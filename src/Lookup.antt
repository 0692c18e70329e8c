-- ===== src/Lookup.antt =====
-- The iterative lookups of nodex-kademlia/src/lookup.rs. The network is a parameter: what the tasks
-- of a round return, in the order of completion. A task that panics returns nothing, and an error
-- of the call is `none`. A result `none` of a model function is a panic of the routing table.
pub mod Shortlist
pub mod Learning
pub mod Replies
pub mod Ends
pub mod Told
pub mod Rounds
pub mod Kept
pub mod Nearest
pub mod Result
pub mod Correct
pub mod Finds
mod Tests
use node_x.Base.{
  ℕ, zero, suc, Bool, true, false, not, ◌&&◌, ◌||◌, Option, none, some, List, [], ◌∷◌, ◌++◌, map,
  take, any, all, filter, if◌then◌else◌, ◌==◌, list_eq, nat_eq,
}
use node_x.Base.Words.{Bytes}
use node_x.Base.Sort.{sort_by}
use node_x.Net.{NodeId, SocketAddr, Contact, addr_eq}
use node_x.Routing.Distance.{distance, id_le}
use node_x.Routing.Table.{RoutingTable, update, find_closest}
use node_x.Rpc.Payload.{RpcPayload, find_node_resp, find_value_resp}

abbrev pub alpha : ℕ
alpha = 3

abbrev pub bucket_size : ℕ
bucket_size = 20

pub data CandidateState : Type 0 where
  unqueried in_flight queried failed : CandidateState

pub record Candidate : Type 0 where
  pub contact : Contact
  pub distance : NodeId
  pub state : CandidateState

abbrev pub Reply : Type 0
Reply = Contact × Option RpcPayload

-- What the lookup reads of the network manager, and the replies of each round.
pub record Network : Type 0 where
  pub local_id : NodeId
  pub local_addr : SocketAddr
  pub replies : ℕ → List Contact → List Reply

abbrev pub is_unqueried : CandidateState → Bool
is_unqueried unqueried = true
is_unqueried _ = false

abbrev pub is_queried : CandidateState → Bool
is_queried queried = true
is_queried _ = false

abbrev pub is_failed : CandidateState → Bool
is_failed failed = true
is_failed _ = false

abbrev pub candidate : NodeId → Contact → Candidate
candidate target c = record { contact = c; distance = distance c.id target; state = unqueried }

abbrev pub nearer : Candidate → Candidate → Bool
nearer a b = id_le a.distance b.distance

abbrev pub is_foreign : Network → Contact → Bool
is_foreign net c = not (c.id == net.local_id) && not (c.addr == net.local_addr)

unfoldable pub first_shortlist : Network → RoutingTable → NodeId → List Candidate
first_shortlist net rt target =
    sort_by nearer
      (map (candidate target) (filter (is_foreign net) (find_closest rt target bucket_size)))

-- The scan for at most `n` further candidates, which become in flight.
unfoldable pub select : ℕ → List Candidate → List Candidate × List Contact
select zero cs = (cs, [])
select (suc n) [] = ([], [])
select (suc n) (c ∷ cs) =
    let picked = select n cs in
    let passed = select (suc n) cs in
    if is_unqueried c.state
    then ((record c { state = in_flight }) ∷ picked.0, c.contact ∷ picked.1)
    else (c ∷ passed.0, passed.1)

-- The first candidate of the id takes the state.
unfoldable pub mark : NodeId → CandidateState → List Candidate → List Candidate
mark id st [] = []
mark id st (c ∷ cs) =
    let rest = mark id st cs in
    if c.contact.id == id then (record c { state = st }) ∷ cs else c ∷ rest

-- What a round makes of its replies: the shortlist and the new contacts, or the value found.
pub data Round : Type 0 where
  learned : List Candidate → List Contact → Round
  found : Bytes → Contact → Round

unfoldable pub contacts_of : Network → RpcPayload → List Contact
contacts_of net (find_node_resp cs) = filter (is_foreign net) cs
contacts_of net _ = []

unfoldable pub read_nodes : Network → List Reply → List Candidate → List Contact → Round
unfolding contacts_of
read_nodes net [] cs acc = learned cs acc
read_nodes net ((c, none) ∷ rs) cs acc = read_nodes net rs (mark c.id failed cs) acc
read_nodes net ((c, some reply) ∷ rs) cs acc =
    read_nodes net rs (mark c.id queried cs) (acc ++ contacts_of net reply)

unfoldable pub read_values : Network → List Reply → List Candidate → List Contact → Round
read_values net [] cs acc = learned cs acc
read_values net ((c, none) ∷ rs) cs acc = read_values net rs (mark c.id failed cs) acc
read_values net ((c, some (find_value_resp (some value) _)) ∷ rs) cs acc = found value c
read_values net ((c, some (find_value_resp none contacts)) ∷ rs) cs acc =
    read_values net rs (mark c.id queried cs)
      (acc ++ filter (λ d. not (d.id == net.local_id)) contacts)
read_values net ((c, some _) ∷ rs) cs acc = read_values net rs (mark c.id queried cs) acc

abbrev pub push_new : NodeId → Contact → List Candidate → List Candidate
push_new target c cs =
    if any (λ d. d.contact.id == c.id) cs then cs else cs ++ candidate target c ∷ []

-- The new contacts go into the table, and into the shortlist if their ids are new there.
unfoldable pub learn :
    NodeId → List Contact → RoutingTable → List Candidate → Option (RoutingTable × List Candidate)
learn target [] rt cs = some (rt, cs)
learn target (c ∷ new) rt cs = elim (update rt c) [
  | none ↦ none
  | some (rt', _) ↦ learn target new rt' (push_new target c cs)
]

abbrev pub is_settled : CandidateState → Bool
is_settled st = is_queried st || is_failed st

unfoldable pub stops : List Candidate → Bool
stops cs =
    let top = take bucket_size cs in
    all (λ c. is_settled c.state) top && any (λ c. is_queried c.state) top

pub data Search : Type 0 where
  done : RoutingTable → List Candidate → ℕ → Search
  value_found : RoutingTable → Bytes → Contact → Search
  panicked : Search
  out_of_fuel : Search

module _ (net : Network) (read : List Reply → List Candidate → List Contact → Round)
    (target : NodeId) where
  -- The loop over the rounds; `hop` counts them.
  unfoldable pub search_loop : ℕ → ℕ → RoutingTable → List Candidate → Search
  search_loop zero hop rt cs = out_of_fuel
  search_loop (suc fuel) hop rt cs = elim (select alpha cs).1 [
    | [] ↦ done rt cs hop
    | q ∷ qs ↦ elim (read (net.replies (suc hop) (q ∷ qs)) (select alpha cs).0 []) [
      | found value from ↦ value_found rt value from
      | learned cs' new ↦ elim (learn target new rt cs') [
        | none ↦ panicked
        | some (rt', cs'') ↦ elim (stops (sort_by nearer cs'')) [
          | true ↦ done rt' (sort_by nearer cs'') (suc hop)
          | false ↦ search_loop fuel (suc hop) rt' (sort_by nearer cs'')
        ]
      ]
    ]
  ]

unfoldable pub closest_known : List Candidate → List Contact
closest_known cs =
    map (λ c. c.contact) (take bucket_size (filter (λ c. not (is_failed c.state)) cs))

pub data LookupValueResult : Type 0 where
  value : Bytes → Contact → LookupValueResult
  closest_nodes : List Contact → LookupValueResult

abbrev pub node_search : ℕ → Network → RoutingTable → NodeId → Search
node_search fuel net rt target =
    search_loop net (read_nodes net) target fuel 0 rt (first_shortlist net rt target)

abbrev pub value_search : ℕ → Network → RoutingTable → NodeId → Search
value_search fuel net rt key =
    search_loop net (read_values net) key fuel 0 rt (first_shortlist net rt key)

-- The table after the search, and the result.
abbrev pub nodes_result : Search → Option (RoutingTable × List Contact)
nodes_result (done rt cs hop) = some (rt, closest_known cs)
nodes_result _ = none

abbrev pub value_result : Search → Option (RoutingTable × LookupValueResult)
value_result (done rt cs hop) = some (rt, closest_nodes (closest_known cs))
value_result (value_found rt v from) = some (rt, value v from)
value_result _ = none

unfoldable pub lookup_nodes :
    ℕ → Network → RoutingTable → NodeId → Option (RoutingTable × List Contact)
lookup_nodes fuel net rt target = nodes_result (node_search fuel net rt target)

unfoldable pub lookup_value :
    ℕ → Network → RoutingTable → NodeId → Option (RoutingTable × LookupValueResult)
lookup_value fuel net rt key = value_result (value_search fuel net rt key)
