-- ===== src/Rpc/Tests.antt =====
-- A concrete answer with a contact, and received bytes, for the laws of the messages.
use node_x.Rpc.Safety.{decode-IsSendableMessage}
use node_x.Rpc.RoundTrip.{decode-encode}
use node_x.Rpc.Convert.{encode, decode}
use node_x.Rpc.Sendable.{IsSendable, IsSendableMessage}
use node_x.Rpc.Payload.{RpcMessage, find_node_resp}
use node_x.Base.{◌≡◌, refl, [], ◌∷◌, ◌++◌, arith, replicate, All}
use node_x.Base.Words.{Bytes, IsByte, replicate-IsArray}
use node_x.Base.Outcome.{ok, Ensures}
use node_x.Net.{is_unspecified, is_broadcast, is_multicast, Contact, v4}

abbrev peer : Contact
peer = record {
  id = replicate 20 3;
  addr = record { ip = v4 (10 ∷ 0 ∷ 0 ∷ 8 ∷ []); port = 4000 };
  last_seen = 50;
}

abbrev answer : RpcMessage
answer = record {
  request_id = 12;
  sender_id = replicate 20 7;
  payload = find_node_resp (peer ∷ []);
}

peer-IsSendable : IsSendable 50 peer
unfolding is_unspecified is_broadcast is_multicast
peer-IsSendable = record {
  id = replicate-IsArray 20 3 (omega arith);
  ip = ((refl, (omega arith, (omega arith, (omega arith, (omega arith, tt))))), refl, refl, refl);
  port_pos = omega arith;
  port_bound = omega arith;
  seen = refl;
}

answer-IsSendableMessage : IsSendableMessage 50 answer
answer-IsSendableMessage = record {
  request_id = omega arith;
  sender_id = replicate-IsArray 20 7 (omega arith);
  payload = ((peer-IsSendable, tt), omega arith);
}

decode-encode_example :
    (bytes : Bytes) × (encode answer ≡ ok bytes) × (decode 50 (bytes ++ (255 ∷ [])) ≡ ok answer)
decode-encode_example = decode-encode 50 answer (255 ∷ []) answer-IsSendableMessage

-- A pong of 29 bytes.
abbrev datagram : Bytes
datagram = 2 ∷ replicate 28 0

datagram-IsByte : All IsByte datagram
datagram-IsByte = (omega arith, (replicate-IsArray 28 0 (omega arith)).1)

decode-IsSendableMessage_example : Ensures (IsSendableMessage 50) (decode 50 datagram)
decode-IsSendableMessage_example = decode-IsSendableMessage 50 datagram datagram-IsByte
