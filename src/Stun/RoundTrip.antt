-- ===== src/Stun/RoundTrip.antt =====
-- The response of a server, as it stands on the wire (nodex-kademlia/src/stun.rs).
use node_x.Stun.{
  read_u16, slice, read_xor_mapped, read_attribute, read_value, read_attributes, read_response,
  parse_binding_response,
}
use node_x.Chunking.Format.{drop-append_more}
use node_x.Routing.Distance.Metric.{xor_undone}
use node_x.Net.{SocketAddr, v4}
use node_x.Base.Words.{Bytes, IsByte}
use node_x.Base.{
  ℕ, zero, suc, ◌+◌, ◌*◌, ◌≤◌, ◌≡◌, refl, min, false, some, List, [], ◌∷◌, ◌++◌, All, length,
  length-append, get_elem?, take, drop, take-append_length, ltb, ltb-false, ==_refl, list_eq,
  nat_eq, arith,
}
use Prim.Native.Nat.{bit_xor}

get_elem?-append {ℓ} :
    {A : Type ℓ} (xs ys : List A) (n k : ℕ)
    → n ≡ length xs + k
    → get_elem? (xs ++ ys) n ≡ get_elem? ys k
get_elem?-append [] ys n k h = let e : n ≡ k = omega arith in rw e refl
get_elem?-append (x ∷ xs) ys zero k h = absurd (omega arith)
get_elem?-append (x ∷ xs) ys (suc n) k h = get_elem?-append xs ys n k (omega arith)

-- An address as four octets and the two bytes of the port.
pub record Endpoint : Type 0 where
  pub p0 : ℕ
  pub p1 : ℕ
  pub a0 : ℕ
  pub a1 : ℕ
  pub a2 : ℕ
  pub a3 : ℕ

abbrev pub address_of : Endpoint → SocketAddr
address_of x = record { ip = v4 (x.a0 ∷ x.a1 ∷ x.a2 ∷ x.a3 ∷ []); port = x.p0 * 256 + x.p1 }

abbrev pub AreBytes : Endpoint → Type 0
AreBytes x = All IsByte (x.p0 ∷ x.p1 ∷ x.a0 ∷ x.a1 ∷ x.a2 ∷ x.a3 ∷ [])

-- The attribute XOR-MAPPED-ADDRESS of RFC 5389, for IPv4.
abbrev pub xor_mapped : Endpoint → Bytes
xor_mapped x =
    0
    ∷ 32
    ∷ 0
    ∷ 8
    ∷ 0
    ∷ 1
    ∷ bit_xor x.p0 33
    ∷ bit_xor x.p1 18
    ∷ bit_xor x.a0 33
    ∷ bit_xor x.a1 18
    ∷ bit_xor x.a2 164
    ∷ bit_xor x.a3 66
    ∷ []

-- The header, with the two bytes of the length.
abbrev pub response : ℕ → ℕ → Bytes → Bytes → Bytes
response l0 l1 transaction_id attributes =
    1 ∷ 1 ∷ l0 ∷ l1 ∷ 33 ∷ 18 ∷ 164 ∷ 66 ∷ (transaction_id ++ attributes)

unmask :
    (x : Endpoint)
    → AreBytes x
    → read_xor_mapped (drop 4 (xor_mapped x)) ≡ some (some (address_of x))
unfolding read_xor_mapped
unmask x h =
    rw
      (
        xor_undone x.p0 33 h.0 (omega arith),
        xor_undone x.p1 18 h.1.0 (omega arith),
        xor_undone x.a0 33 h.1.1.0 (omega arith),
        xor_undone x.a1 18 h.1.1.1.0 (omega arith),
        xor_undone x.a2 164 h.1.1.1.1.0 (omega arith),
        xor_undone x.a3 66 h.1.1.1.1.1.0 (omega arith),
      )
      refl

module _ (x : Endpoint) (l0 l1 : ℕ) (id rest : Bytes) (h : AreBytes x)
    (twelve : length id ≡ 12) where
  abbrev attrs : Bytes
  attrs = xor_mapped x ++ rest

  abbrev buf : Bytes
  buf = response l0 l1 id attrs

  type_at : read_u16 buf 20 ≡ some 32
  unfolding read_u16
  type_at =
      rw
        (
          get_elem?-append id attrs 12 0 (omega (arith, twelve)),
          get_elem?-append id attrs 13 1 (omega (arith, twelve)),
        )
        refl

  length_at : read_u16 buf 22 ≡ some 8
  unfolding read_u16
  length_at =
      rw
        (
          get_elem?-append id attrs 14 2 (omega (arith, twelve)),
          get_elem?-append id attrs 15 3 (omega (arith, twelve)),
        )
        refl

  value_at : slice buf 24 8 ≡ some (drop 4 (xor_mapped x))
  unfolding slice
  value_at =
      let inside : ltb (length buf) 32 ≡ false =
        ltb-false (length buf) 32 (omega (arith, length-append id attrs, twelve)) in
      rw (inside, drop-append_more id attrs 16 4 (omega (arith, twelve))) refl

  address_in : read_attribute 32 (drop 4 (xor_mapped x)) ≡ some (some (address_of x))
  unfolding read_attribute
  address_in = unmask x h

  first_attribute :
      (fuel end : ℕ) → 32 ≤ end → read_attributes (suc fuel) buf end 20 ≡ some (some (address_of x))
  unfolding read_attributes read_value
  first_attribute fuel end le =
      let here = ltb-false end 24 (omega arith) in
      let whole = ltb-false end 32 le in
      rw (read_attributes, here, type_at, length_at, read_value, whole, value_at, address_in) refl

  header : 12 ≤ l0 * 256 + l1 → read_response buf id (l0 * 256 + l1) ≡ some (some (address_of x))
  unfolding read_response
  header long =
      let same : take 12 (id ++ attrs) ≡ id =
        take-append_length id attrs 12 (omega (arith, twelve)) in
      let size : length (id ++ attrs) ≡ 24 + length rest =
        omega (arith, length-append id attrs, twelve) in
      rw (read_response, same, ==_refl id)
        (first_attribute (length (1 ∷ l0 ∷ l1 ∷ 33 ∷ 18 ∷ 164 ∷ 66 ∷ (id ++ attrs)))
          (min (20 + (l0 * 256 + l1)) (length buf)) (omega (arith, size)))

-- The address that a server writes is the one that the client reads: a binding response with the
-- transaction id of the request, whose length field counts 12 bytes or more and whose first
-- attribute is an XOR-MAPPED-ADDRESS for IPv4, parses to its address and port, whatever follows.
pub parse_binding_response-response :
    (x : Endpoint) (l0 l1 : ℕ) (transaction_id rest : Bytes)
    → AreBytes x
    → length transaction_id ≡ 12
    → 12 ≤ l0 * 256 + l1
    → parse_binding_response (response l0 l1 transaction_id (xor_mapped x ++ rest)) transaction_id
      ≡ some (some (address_of x))
unfolding parse_binding_response read_u16
parse_binding_response-response x l0 l1 id rest h twelve long =
    let attrs = xor_mapped x ++ rest in
    let big : ltb (length (response l0 l1 id attrs)) 20 ≡ false =
      ltb-false (length (response l0 l1 id attrs)) 20
        (omega (arith, length-append id attrs, twelve)) in
    rw (parse_binding_response, big) (header x l0 l1 id rest h twelve long)
