-- ===== src/Manager/Tests.antt =====
-- A concrete node for the laws of the receive loop.
use node_x.Manager.Receive.{receive-IsReceived, decoded?, payload}
use node_x.Manager.Safety.{IsManager, IsReceived}
use node_x.Manager.{Manager, receive}
use node_x.Chunking.Assembler.Limits.{new-IsAssembler}
use node_x.Routing.Table.Laws.{new-IsTable}
use node_x.Chunking.Assembler
use node_x.Routing.Table
use node_x.Net.{NodeId, SocketAddr, v4}
use node_x.Base.Words.{Bytes}
use node_x.Base.{◌++◌, ℕ, [], ◌∷◌, replicate, arith}

abbrev checksum : Bytes → ℕ
checksum bytes = 0

abbrev sender : SocketAddr
sender = record { ip = v4 (10 ∷ 0 ∷ 0 ∷ 8 ∷ []); port = 4000 }

abbrev own_id : NodeId
own_id = replicate 20 1

abbrev manager : Manager
manager = record {
  assembler = Assembler.new 30;
  table = Table.new own_id;
  pending = (7, (sender, 0)) ∷ [];
  tasks = 0;
}

manager-IsManager : IsManager manager
unfolding Assembler.new
manager-IsManager = record {
  assembler = new-IsAssembler 30;
  bytes = tt;
  table = new-IsTable own_id;
  tasks = omega arith;
}

-- The answer PONG to the pending call 7.
abbrev pong : Bytes
pong = 2 ∷ replicate 7 0 ++ (7 ∷ replicate 20 3)

receive-IsReceived_example :
    IsReceived 100 sender manager
      (decoded? 100 (payload checksum 100 sender pong manager.assembler))
      (receive checksum 100 sender pong manager)
receive-IsReceived_example =
    receive-IsReceived 100 sender checksum pong manager manager-IsManager (omega arith)
