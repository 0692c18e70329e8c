-- ===== src/Node/Tests.antt =====
-- A concrete node for the laws of its requests.
use node_x.Storage.Invariant.{new-IsStorage}
use node_x.Node.Client.{IsPut, put-IsPut}
use node_x.Node.Handled.{IsHandled, handle-IsHandled}
use node_x.Node.{handle, put}
use node_x.Routing.Table.Laws.{new-IsTable}
use node_x.Routing.Table.{all_contacts}
use node_x.Lookup.{Network}
use node_x.Mailbox.{Json}
use node_x.Rpc.Payload.{RpcMessage, store}
use node_x.Storage
use node_x.Routing.Table
use node_x.Net.{NodeId, v4}
use node_x.Base.{ℕ, none, [], ◌∷◌, replicate, nat_eq, arith}

abbrev own_id : NodeId
own_id = replicate 20 1

abbrev no_json : Json ℕ
no_json = record { parse = λ bytes. none; print_value = λ v. none; print = λ vs. none }

abbrev request : RpcMessage
request = record {
  request_id = 7;
  sender_id = replicate 20 3;
  payload = store (replicate 20 9) (1 ∷ 2 ∷ []);
}

handle-IsHandled_example :
    IsHandled no_json 100
      (Table.new own_id)
      own_id
      request
      Storage.new
      (handle no_json 100 (Table.new own_id) own_id request Storage.new)
handle-IsHandled_example =
    handle-IsHandled no_json 100 (Table.new own_id) own_id request Storage.new new-IsStorage

abbrev net : Network
net = record {
  local_id = own_id;
  local_addr = record { ip = v4 (10 ∷ 0 ∷ 0 ∷ 8 ∷ []); port = 3000 };
  replies = λ hop queries. [];
}

put-IsPut_example :
    IsPut net 1 100
      (replicate 20 9)
      (1 ∷ 2 ∷ [])
      60
      (put net 1 100 (Table.new own_id) (λ c. none) (replicate 20 9) (1 ∷ 2 ∷ []) 60 Storage.new)
put-IsPut_example =
    put-IsPut net [] (Table.new own_id) 1 100 (new-IsTable own_id)
      (unfold Table.new all_contacts in tt) (λ hop queries. tt) (omega arith) (λ c. none)
      (replicate 20 9) (1 ∷ 2 ∷ []) 60 Storage.new new-IsStorage
