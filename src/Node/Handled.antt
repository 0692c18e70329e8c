-- ===== src/Node/Handled.antt =====
-- The handler of requests (nodex-kademlia/src/lib.rs).
use node_x.Storage.Laws.{get-Stored}
use node_x.Rpc.Payload.{
  RpcPayload, RpcMessage, ping, pong, store, store_ack, find_node, find_node_resp, find_value,
  find_value_resp,
}
use node_x.Routing.Table.{RoutingTable, find_closest}
use node_x.Node.{respond, handle, reply_message, closest_count, accept, read_repaired, default_ttl}
use node_x.Storage.Invariant.{IsStorage}
use node_x.Storage.Put.{put-IsStorage}
use node_x.Storage.{Storage, Record, new_record, is_expired}
use node_x.Mailbox.Merged.{merge_store_value-none, merge_store_value-bounded}
use node_x.Mailbox.{Json, merge_store_value}
use node_x.Net.{NodeId}
use node_x.Storage
use node_x.Base.Words.{Bytes}
use node_x.Base.{
  [], list_eq, nat_eq, ℕ, ◌≡◌, refl, true, false, Bool, Option, some, none, length, ltb, Eq, arith,
  Bool-cases, Option-cases, inl, inr,
}

module _ {V : Type 0} ⦃e : Eq V⦄ (json : Json V) (now : ℕ) where
  -- A store after a request to store.
  record IsAccepted (key : NodeId) (v : Bytes) (s : Storage) (r : Option (Storage × Bool))
      : Type 0 where
    store' : Storage
    ok : Bool
    returns : r ≡ some (store', ok)
    valid : IsStorage store'
    kept :
        ok ≡ true
        → Storage.get now key store' ≡ some (merge_store_value json (Storage.get now key s) v).0
    left : ok ≡ false → store' ≡ s

  accept-IsAccepted :
      (key : NodeId) (v : Bytes) (s : Storage)
      → IsStorage s
      → IsAccepted key v s (accept json now key v s)
  unfolding accept
  accept-IsAccepted key v s w =
      let old = Storage.get now key s in
      let merged = merge_store_value json old v in
      elim (Bool-cases merged.1) [
        | inl p ↦
            let st = put-IsStorage now key merged.0 default_ttl s w in
            let small = merge_store_value-bounded json old v p in
            rw (accept, p, st.returns)
              (record {
                store' = st.store';
                ok = true;
                returns = refl;
                valid = st.valid;
                kept = λ _.
                    get-Stored now default_ttl key merged.0 st.store'
                      (new_record now merged.0 default_ttl) refl (st.holds (omega (arith, small)));
                left = λ q. absurd (cc);
              })
        | inr p ↦
            rw (accept, p)
              (record {
                store' = s;
                ok = false;
                returns = refl;
                valid = w;
                kept = λ q. absurd (cc);
                left = λ _. refl;
              })
      ]

  -- A store after the request for a value.
  record IsRead (key : NodeId) (s : Storage) (r : Option (Storage × Option Bytes)) : Type 0 where
    store' : Storage
    value : Option Bytes
    returns : r ≡ some (store', value)
    valid : IsStorage store'
    held : Storage.get now key store' ≡ value

  read_repaired-IsRead :
      (key : NodeId) (s : Storage) → IsStorage s → IsRead key s (read_repaired json now key s)
  unfolding read_repaired
  read_repaired-IsRead key s w = elim (Option-cases (Storage.get now key s)) [
    | inl p ↦
        rw (read_repaired, p)
          (record { store' = s; value = none; returns = refl; valid = w; held = p })
    | inr (v, p) ↦
        let bounded = (merge_store_value json none v).0 in
        elim (Bool-cases (ltb (length bounded) (length v))) [
          | inl q ↦
              let st = put-IsStorage now key bounded default_ttl s w in
              rw (read_repaired, p, q, st.returns)
                (record {
                  store' = st.store';
                  value = some bounded;
                  returns = refl;
                  valid = st.valid;
                  held =
                      get-Stored now default_ttl key bounded st.store'
                        (new_record now bounded default_ttl) refl
                        (st.holds (omega (arith, merge_store_value-none json v)));
                })
          | inr q ↦
              rw (read_repaired, p, q)
                (record { store' = s; value = some v; returns = refl; valid = w; held = p })
        ]
  ]

  module _ (rt : RoutingTable) where
    -- The answer to the request for a value.
    abbrev pub value_reply : NodeId → Option Bytes → RpcPayload
    value_reply key none = find_value_resp none (find_closest rt key closest_count)
    value_reply key (some v) = find_value_resp (some v) []

    -- The response to a payload: to a request the one that its kind asks for.
    abbrev pub IsResponse : RpcPayload → Storage → Storage → Option RpcPayload → Type 0
    IsResponse ping s s' r = (r ≡ some pong) × (s' ≡ s)
    IsResponse (store key v) s s' r =
        (ok : Bool) × (r ≡ some (store_ack ok))
        × (ok ≡ true
            → Storage.get now key s' ≡ some (merge_store_value json (Storage.get now key s) v).0)
        × (ok ≡ false → s' ≡ s)
    IsResponse (find_node target) s s' r =
        (r ≡ some (find_node_resp (find_closest rt target closest_count))) × (s' ≡ s)
    IsResponse (find_value key) s s' r = r ≡ some (value_reply key (Storage.get now key s'))
    IsResponse pong s s' r = (r ≡ none) × (s' ≡ s)
    IsResponse (store_ack ok) s s' r = (r ≡ none) × (s' ≡ s)
    IsResponse (find_node_resp cs) s s' r = (r ≡ none) × (s' ≡ s)
    IsResponse (find_value_resp v cs) s s' r = (r ≡ none) × (s' ≡ s)

    record IsResponded (p : RpcPayload) (s : Storage) (r : Option (Storage × Option RpcPayload))
        : Type 0 where
      store' : Storage
      response : Option RpcPayload
      returns : r ≡ some (store', response)
      valid : IsStorage store'
      fits : IsResponse p s store' response

    unchanged :
        (p : RpcPayload) (s : Storage) (r : Option RpcPayload)
        → IsStorage s
        → IsResponse p s s r
        → IsResponded p s (some (s, r))
    unchanged p s r w f = record { store' = s; response = r; returns = refl; valid = w; fits = f }

    read-IsResponded :
        (key : NodeId) (s store' : Storage) (v : Option Bytes)
        → read_repaired json now key s ≡ some (store', v)
        → IsStorage store'
        → Storage.get now key store' ≡ v
        → IsResponded (find_value key) s (respond json now rt (find_value key) s)
    unfolding respond
    read-IsResponded key s store' none q w h =
        rw (respond, q)
          (record {
            store' = store';
            response = some (value_reply key none);
            returns = refl;
            valid = w;
            fits = rw h refl;
          })
    read-IsResponded key s store' (some v) q w h =
        rw (respond, q)
          (record {
            store' = store';
            response = some (value_reply key (some v));
            returns = refl;
            valid = w;
            fits = rw h refl;
          })

    respond-IsResponded :
        (p : RpcPayload) (s : Storage) → IsStorage s → IsResponded p s (respond json now rt p s)
    unfolding respond
    respond-IsResponded ping s w = unchanged ping s (some pong) w (refl, refl)
    respond-IsResponded (store key v) s w =
        let a = accept-IsAccepted key v s w in
        rw (respond, a.returns)
          (record {
            store' = a.store';
            response = some (store_ack a.ok);
            returns = refl;
            valid = a.valid;
            fits = (a.ok, refl, a.kept, a.left);
          })
    respond-IsResponded (find_node target) s w =
        unchanged (find_node target) s
          (some (find_node_resp (find_closest rt target closest_count))) w (refl, refl)
    respond-IsResponded (find_value key) s w =
        let r = read_repaired-IsRead key s w in
        read-IsResponded key s r.store' r.value r.returns r.valid r.held
    respond-IsResponded pong s w = unchanged pong s none w (refl, refl)
    respond-IsResponded (store_ack ok) s w = unchanged (store_ack ok) s none w (refl, refl)
    respond-IsResponded (find_node_resp cs) s w =
        unchanged (find_node_resp cs) s none w (refl, refl)
    respond-IsResponded (find_value_resp v cs) s w =
        unchanged (find_value_resp v cs) s none w (refl, refl)

    -- A request that was handled.
    pub record IsHandled (local_id : NodeId) (msg : RpcMessage) (s : Storage)
        (r : Option (Storage × Option RpcMessage)) : Type 0 where
      pub store' : Storage
      pub response : Option RpcPayload
      pub returns : r ≡ some (store', reply_message local_id msg.request_id response)
      pub valid : IsStorage store'
      pub fits : IsResponse msg.payload s store' response

    -- On a well-formed store the handler answers every message without a panic, and the store stays
    -- well formed. The reply has the request's id and comes from the node. PING is answered by PONG,
    -- FIND_NODE by the 20 closest contacts, FIND_VALUE by the value that the store then has, or by
    -- the 20 closest contacts if it has none; after a STORE that is acknowledged the key reads as the
    -- merged value, and one that is not leaves the store as it was. A response gets no reply, and
    -- only STORE and FIND_VALUE change the store.
    pub handle-IsHandled :
        (local_id : NodeId) (msg : RpcMessage) (s : Storage)
        → IsStorage s
        → IsHandled local_id msg s (handle json now rt local_id msg s)
    unfolding handle
    handle-IsHandled local_id msg s w =
        let r = respond-IsResponded msg.payload s w in
        rw (handle, r.returns)
          (record {
            store' = r.store';
            response = r.response;
            returns = refl;
            valid = r.valid;
            fits = r.fits;
          })
