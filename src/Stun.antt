-- ===== src/Stun.antt =====
-- The STUN client's messages (nodex-kademlia/src/stun.rs). The outer `none` of a result is an index
-- out of bounds, or that the fuel of the loop does not suffice.
pub mod Total
pub mod RoundTrip
mod Tests
use Prim.Native.Nat.{bit_xor}
use node_x.Base.{
  ℕ, zero, suc, ◌+◌, ◌-◌, ◌*◌, ◌%◌, min, Bool, true, false, not, ◌&&◌, ◌||◌, Option, none, some,
  List, [], ◌∷◌, ◌++◌, length, get_elem?, take, drop, ltb, leb, nat_beq, if◌then◌else◌, ◌==◌,
  list_eq, nat_eq,
}
use node_x.Base.Words.{Bytes, from_be_bytes}
use node_x.Net.{SocketAddr, v4}

-- 0x2112A442, in big-endian order.
abbrev pub stun_magic_cookie : Bytes
stun_magic_cookie = 33 ∷ 18 ∷ 164 ∷ 66 ∷ []

abbrev pub binding_request : Bytes
binding_request = 0 ∷ 1 ∷ []

abbrev pub binding_response : Bytes
binding_response = 1 ∷ 1 ∷ []

abbrev pub attr_mapped_address : ℕ
attr_mapped_address = 1

abbrev pub attr_xor_mapped_address : ℕ
attr_xor_mapped_address = 32

unfoldable pub build_binding_request : Bytes → Bytes
build_binding_request transaction_id =
    binding_request ++ (0 ∷ 0 ∷ [] ++ (stun_magic_cookie ++ transaction_id))

infixl 5 ◌>>=◌
abbrev pub ◌>>=◌ {ℓ κ} : {A : Type ℓ} {B : Type κ} → Option A → (A → Option B) → Option B
none >>= f = none
some a >>= f = f a

-- `u16::from_be_bytes([buf[i], buf[i + 1]])`
unfoldable pub read_u16 : Bytes → ℕ → Option ℕ
read_u16 buf i = do high ← get_elem? buf i; low ← get_elem? buf (suc i); some (high * 256 + low)

-- `&buf[from..from + len]`
unfoldable pub slice : Bytes → ℕ → ℕ → Option Bytes
slice buf from len = if ltb (length buf) (from + len) then none else some (take len (drop from buf))

-- The address in an attribute: its family, its port and its octets. An index below 8 is in bounds
-- where the attribute has 8 bytes.
unfoldable pub read_mapped : Bytes → Option (Option SocketAddr)
read_mapped (r ∷ family ∷ p0 ∷ p1 ∷ a0 ∷ a1 ∷ a2 ∷ a3 ∷ rest) =
    if nat_beq family 1
    then some (some (record { ip = v4 (a0 ∷ a1 ∷ a2 ∷ a3 ∷ []); port = p0 * 256 + p1 }))
    else some none
read_mapped value = none

-- The same where the port and the address are xored to the cookie, byte by byte.
unfoldable pub read_xor_mapped : Bytes → Option (Option SocketAddr)
read_xor_mapped (r ∷ family ∷ p0 ∷ p1 ∷ a0 ∷ a1 ∷ a2 ∷ a3 ∷ rest) =
    if nat_beq family 1
    then some (
        some (record {
          ip = v4 (bit_xor a0 33 ∷ bit_xor a1 18 ∷ bit_xor a2 164 ∷ bit_xor a3 66 ∷ []);
          port = bit_xor p0 33 * 256 + bit_xor p1 18;
        }))
    else some none
read_xor_mapped value = none

-- What one attribute says.
unfoldable pub read_attribute : ℕ → Bytes → Option (Option SocketAddr)
unfolding read_xor_mapped read_mapped
read_attribute attr_type value =
    if nat_beq attr_type attr_xor_mapped_address && leb 8 (length value)
    then read_xor_mapped value
    else if nat_beq attr_type attr_mapped_address && leb 8 (length value)
    then read_mapped value
    else some none

-- Attributes are padded to a multiple of 4 bytes.
abbrev pub padding : ℕ → ℕ
padding attr_len = (4 - attr_len % 4) % 4

-- What follows the type and the length of an attribute, `next` being the loop after it.
unfoldable pub read_value :
    Bytes → ℕ → ℕ → ℕ → ℕ → (ℕ → Option (Option SocketAddr)) → Option (Option SocketAddr)
read_value buf end offset attr_type attr_len next =
    if ltb end (offset + attr_len)
    then some none
    else slice buf offset attr_len >>= λ value. read_attribute attr_type value >>= λ found.
        elim found [
          | some addr ↦ some (some addr)
          | none ↦ next (offset + (attr_len + padding attr_len))
        ]

unfoldable pub read_attributes : ℕ → Bytes → ℕ → ℕ → Option (Option SocketAddr)
unfolding read_value
read_attributes zero buf end offset = none
read_attributes (suc fuel) buf end offset = elim (ltb end (offset + 4)) [
  | true ↦ some none
  | false ↦ read_u16 buf offset >>= λ attr_type. read_u16 buf (offset + 2) >>= λ attr_len.
      read_value buf end (offset + 4) attr_type attr_len (λ next. read_attributes fuel buf end next)
]

-- The checks of the header, after its length was read.
unfoldable pub read_response : Bytes → Bytes → ℕ → Option (Option SocketAddr)
unfolding read_attributes
read_response buf transaction_id msg_len =
    if not (take 4 (drop 4 buf) == stun_magic_cookie)
      || not (take 12 (drop 8 buf) == transaction_id)
    then some none
    else read_attributes (length buf) buf (min (20 + msg_len) (length buf)) 20

unfoldable pub parse_binding_response : Bytes → Bytes → Option (Option SocketAddr)
unfolding read_u16 slice read_response
parse_binding_response buf transaction_id =
    if ltb (length buf) 20
    then some none
    else if not (take 2 buf == binding_response)
    then some none
    else read_u16 buf 2 >>= λ msg_len. read_response buf transaction_id msg_len
