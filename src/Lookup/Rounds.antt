-- ===== src/Lookup/Rounds.antt =====
-- The rounds of a lookup keep what the states say of the replies (nodex-kademlia/src/lookup.rs).
use node_x.Lookup.{
  Candidate, queried, failed, Network, Reply, Round, learned, found, is_foreign, mark, read_nodes,
  read_values, contacts_of,
}
use node_x.Lookup.Shortlist.{mark-Moved}
use node_x.Lookup.Told.{
  listed, named_in-All, listed-Moved, IsReply, IsTold, IsTold-map, mark-IsTold, Heard,
}
use node_x.Net.{NodeId, Contact}
use node_x.Rpc.Payload.{RpcPayload, find_node_resp, find_value_resp}
use mathlib.Core.List.{append-nil}
use node_x.Base.{
  not, ◌≡◌, ◌∙◌, refl, subst, Option, none, some, List, [], ◌∷◌, ◌++◌, any-append, filter, All,
  All-map, list_eq, nat_eq, ◌==◌, arith,
}

-- The contacts that a reply names in a search for nodes.
abbrev pub node_names : Network → RpcPayload → Option (List Contact)
node_names net (find_node_resp cs) = some (filter (is_foreign net) cs)
node_names net _ = some []

-- And in one for a value, which a reply with the value ends.
abbrev pub value_names : Network → RpcPayload → Option (List Contact)
value_names net (find_value_resp (some value) cs) = none
value_names net (find_value_resp none cs) = some (filter (λ d. not (d.id == net.local_id)) cs)
value_names net _ = some []

module _ (net : Network) (named : RpcPayload → Option (List Contact)) where
  -- After the replies the states tell of them, and the shortlist has the same ids.
  abbrev pub RoundTold : List Candidate → Round → Type 0
  RoundTold known (learned cs new) =
      All (IsTold net named (Heard known new)) cs × ((id : NodeId) → listed known id ≡ listed cs id)
  RoundTold known (found v from) = Unit

  module _ (known : List Candidate) where
    -- A shortlist with the ids of `known`, and the contacts that were named so far.
    pub record Reading (cs : List Candidate) (acc : List Contact) : Type 0 where
      pub same : (id : NodeId) → listed known id ≡ listed cs id
      pub told : All (IsTold net named (Heard known acc)) cs

    failed-Reading :
        (c : Contact) (cs : List Candidate) (acc : List Contact)
        → IsReply net (c, none)
        → Reading cs acc
        → Reading (mark c.id failed cs) acc
    failed-Reading c cs acc (hop, queries, m) h = record {
      same = λ id. h.same id ∙ listed-Moved (mark-Moved c.id failed cs) id;
      told =
          mark-IsTold net named (Heard known acc) c.id failed cs (hop, queries, c, m, refl) h.told;
    }

    queried-Reading :
        (c : Contact) (reply : RpcPayload) (more : List Contact) (cs : List Candidate)
        (acc : List Contact)
        → IsReply net (c, some reply)
        → named reply ≡ some more
        → Reading cs acc
        → Reading (mark c.id queried cs) (acc ++ more)
    queried-Reading c reply more cs acc (hop, queries, m) e h = record {
      same = λ id. h.same id ∙ listed-Moved (mark-Moved c.id queried cs) id;
      told =
          mark-IsTold net named (Heard known (acc ++ more)) c.id queried cs
            (
              reply,
              more,
              (hop, queries, c, m, refl),
              e,
              All-map
                  (λ (d : Contact) x.
                    ground (arith, any-append (λ (y : Contact). y.id == d.id) acc more))
                  more (named_in-All more),
            )
            (IsTold-map net named
              (λ id x. ground (arith, any-append (λ (y : Contact). y.id == id) acc more)) cs
              h.told);
    }

module _ (net : Network) (known : List Candidate) where
  node_names-contacts_of :
      (reply : RpcPayload) → node_names net reply ≡ some (contacts_of net reply)
  unfolding contacts_of
  node_names-contacts_of (find_node_resp cs) = refl
  node_names-contacts_of _ = refl

  pub read_nodes-RoundTold :
      (rs : List Reply) (cs : List Candidate) (acc : List Contact)
      → All (IsReply net) rs
      → Reading net (node_names net) known cs acc
      → RoundTold net (node_names net) known (read_nodes net rs cs acc)
  unfolding read_nodes
  read_nodes-RoundTold [] cs acc k h = (h.told, h.same)
  read_nodes-RoundTold ((c, none) ∷ rs) cs acc k h =
      read_nodes-RoundTold rs (mark c.id failed cs) acc k.1
        (failed-Reading net (node_names net) known c cs acc k.0 h)
  read_nodes-RoundTold ((c, some reply) ∷ rs) cs acc k h =
      read_nodes-RoundTold rs (mark c.id queried cs) (acc ++ contacts_of net reply) k.1 (
        queried-Reading net (node_names net) known c reply (contacts_of net reply) cs acc k.0
          (node_names-contacts_of reply) h)

  pub read_values-RoundTold :
      (rs : List Reply) (cs : List Candidate) (acc : List Contact)
      → All (IsReply net) rs
      → Reading net (value_names net) known cs acc
      → RoundTold net (value_names net) known (read_values net rs cs acc)
  unfolding read_values
  read_values-RoundTold [] cs acc k h = (h.told, h.same)
  read_values-RoundTold ((c, none) ∷ rs) cs acc k h =
      read_values-RoundTold rs (mark c.id failed cs) acc k.1
        (failed-Reading net (value_names net) known c cs acc k.0 h)
  read_values-RoundTold ((c, some (find_value_resp (some value) contacts)) ∷ rs) cs acc k h = tt
  read_values-RoundTold ((c, some (find_value_resp none contacts)) ∷ rs) cs acc k h =
      let more = filter (λ (d : Contact). not (d.id == net.local_id)) contacts in
      read_values-RoundTold rs (mark c.id queried cs) (acc ++ more) k.1 (
        queried-Reading net (value_names net) known c (find_value_resp none contacts) more cs acc
          k.0 refl h)
  read_values-RoundTold ((c, some reply) ∷ rs) cs acc k h =
      read_values-RoundTold rs (mark c.id queried cs) acc k.1 (
        subst (Reading net (value_names net) known (mark c.id queried cs)) (append-nil acc)
          (queried-Reading net (value_names net) known c reply [] cs acc k.0 refl h))
