-- ===== src/Net.antt =====
-- Socket addresses, as std::net has them, and the contacts of nodex-kademlia/src/node.rs.
use node_x.Base.{
  ℕ, ◌≡◌, ◌↔◌, Bool, true, false, ◌&&◌, [], ◌∷◌, arith, leb, nat_beq, replicate, Eq, ◌==◌, list_beq,
  list_beq_iff, pair_eq, list_eq, nat_eq,
}
use node_x.Base.Words.{Bytes, IsArray}

-- An address with its octets: 4 of them, or 16.
pub data IpAddr : Type 0 where
  v4 : Bytes → IpAddr
  v6 : Bytes → IpAddr

pub record SocketAddr : Type 0 where
  pub ip : IpAddr
  pub port : ℕ

-- The first octet, which the multicast ranges are read from.
abbrev pub first : Bytes → ℕ
first [] = 0
first (b ∷ bs) = b

unfoldable pub is_unspecified : IpAddr → Bool
is_unspecified (v4 o) = list_beq o (replicate 4 0)
is_unspecified (v6 o) = list_beq o (replicate 16 0)

-- 224.0.0.0/4, and ff00::/8.
unfoldable pub is_multicast : IpAddr → Bool
is_multicast (v4 o) = leb 224 (first o) && leb (first o) 239
is_multicast (v6 o) = nat_beq (first o) 255

unfoldable pub is_broadcast : Bytes → Bool
is_broadcast o = list_beq o (replicate 4 255)

abbrev pub IsIp : IpAddr → Type 0
IsIp (v4 o) = IsArray 4 o
IsIp (v6 o) = IsArray 16 o

abbrev pub ip_beq : IpAddr → IpAddr → Bool
ip_beq (v4 a) (v4 b) = list_beq a b
ip_beq (v6 a) (v6 b) = list_beq a b
ip_beq _ _ = false

pub ip_beq_iff : (a b : IpAddr) → (ip_beq a b ≡ true) ↔ (a ≡ b)
ip_beq_iff (v4 a) (v4 b) = ground (arith, list_beq_iff a b)
ip_beq_iff (v4 a) (v6 b) = ground arith
ip_beq_iff (v6 a) (v4 b) = ground arith
ip_beq_iff (v6 a) (v6 b) = ground (arith, list_beq_iff a b)

instance abbrev pub ip_eq : Eq IpAddr
ip_eq = record { eqb = ip_beq; eqb_iff = ip_beq_iff }

abbrev pub addr_beq : SocketAddr → SocketAddr → Bool
addr_beq a b = (a.ip == b.ip) && nat_beq a.port b.port

pub addr_beq_iff : (a b : SocketAddr) → (addr_beq a b ≡ true) ↔ (a ≡ b)
addr_beq_iff a b = ground (arith, ip_beq_iff a.ip b.ip)

instance abbrev pub addr_eq : Eq SocketAddr
addr_eq = record { eqb = addr_beq; eqb_iff = addr_beq_iff }

abbrev pub NodeId : Type 0
NodeId = Bytes

pub record Contact : Type 0 where
  pub id : NodeId
  pub addr : SocketAddr
  pub last_seen : ℕ

-- `Contact::new` at the time `now`.
unfoldable pub new_contact : ℕ → NodeId → SocketAddr → Contact
new_contact now id addr = record { id = id; addr = addr; last_seen = now }
