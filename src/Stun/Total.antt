-- ===== src/Stun/Total.antt =====
-- The parser of binding responses on any bytes (nodex-kademlia/src/stun.rs).
use node_x.Stun.{
  binding_response, stun_magic_cookie, read_u16, slice, read_mapped, read_xor_mapped,
  read_attribute, read_value, read_attributes, read_response, parse_binding_response,
  attr_xor_mapped_address, attr_mapped_address, padding,
}
use node_x.Net.{SocketAddr}
use node_x.Base.Words.{Bytes}
use node_x.Base.{
  not, ◌||◌, ◌==◌, list_eq, nat_eq, ℕ, zero, suc, ◌+◌, ◌*◌, ◌≤◌, ◌<◌, ◌≡◌, refl, min, false, ◌&&◌,
  Option, some, none, List, [], ◌∷◌, length, get_elem?, take, drop, ltb, leb, nat_beq, ltb-false,
  if-elim, Bool-cases, Option-cases, inl, inr, arith,
}

get_elem?-some {ℓ} :
    {A : Type ℓ} (xs : List A) (i : ℕ) → i < length xs → (a : A) × (get_elem? xs i ≡ some a)
get_elem?-some [] i h = absurd (omega arith)
get_elem?-some (x ∷ xs) zero h = (x, refl)
get_elem?-some (x ∷ xs) (suc i) h = get_elem?-some xs i (omega arith)

-- A result that is no panic.
abbrev Returns : Option (Option SocketAddr) → Type 0
Returns r = (found : Option SocketAddr) × (r ≡ some found)

read_u16-some : (buf : Bytes) (i : ℕ) → i + 2 ≤ length buf → (v : ℕ) × (read_u16 buf i ≡ some v)
unfolding read_u16
read_u16-some buf i h =
    let (high, p) = get_elem?-some buf i (omega arith) in
    let (low, q) = get_elem?-some buf (suc i) (omega arith) in
    (high * 256 + low, rw (read_u16, p, q) refl)

read_mapped-Returns : (v : Bytes) → 8 ≤ length v → Returns (read_mapped v)
unfolding read_mapped
read_mapped-Returns (r ∷ f ∷ p0 ∷ p1 ∷ a0 ∷ a1 ∷ a2 ∷ a3 ∷ rest) h =
    if-elim Returns (nat_beq f 1) (λ e. (_, refl)) (λ e. (none, refl))
read_mapped-Returns [] h = absurd (omega arith)
read_mapped-Returns (b0 ∷ []) h = absurd (omega arith)
read_mapped-Returns (b0 ∷ b1 ∷ []) h = absurd (omega arith)
read_mapped-Returns (b0 ∷ b1 ∷ b2 ∷ []) h = absurd (omega arith)
read_mapped-Returns (b0 ∷ b1 ∷ b2 ∷ b3 ∷ []) h = absurd (omega arith)
read_mapped-Returns (b0 ∷ b1 ∷ b2 ∷ b3 ∷ b4 ∷ []) h = absurd (omega arith)
read_mapped-Returns (b0 ∷ b1 ∷ b2 ∷ b3 ∷ b4 ∷ b5 ∷ []) h = absurd (omega arith)
read_mapped-Returns (b0 ∷ b1 ∷ b2 ∷ b3 ∷ b4 ∷ b5 ∷ b6 ∷ []) h = absurd (omega arith)

read_xor_mapped-Returns : (v : Bytes) → 8 ≤ length v → Returns (read_xor_mapped v)
unfolding read_xor_mapped
read_xor_mapped-Returns (r ∷ f ∷ p0 ∷ p1 ∷ a0 ∷ a1 ∷ a2 ∷ a3 ∷ rest) h =
    if-elim Returns (nat_beq f 1) (λ e. (_, refl)) (λ e. (none, refl))
read_xor_mapped-Returns [] h = absurd (omega arith)
read_xor_mapped-Returns (b0 ∷ []) h = absurd (omega arith)
read_xor_mapped-Returns (b0 ∷ b1 ∷ []) h = absurd (omega arith)
read_xor_mapped-Returns (b0 ∷ b1 ∷ b2 ∷ []) h = absurd (omega arith)
read_xor_mapped-Returns (b0 ∷ b1 ∷ b2 ∷ b3 ∷ []) h = absurd (omega arith)
read_xor_mapped-Returns (b0 ∷ b1 ∷ b2 ∷ b3 ∷ b4 ∷ []) h = absurd (omega arith)
read_xor_mapped-Returns (b0 ∷ b1 ∷ b2 ∷ b3 ∷ b4 ∷ b5 ∷ []) h = absurd (omega arith)
read_xor_mapped-Returns (b0 ∷ b1 ∷ b2 ∷ b3 ∷ b4 ∷ b5 ∷ b6 ∷ []) h = absurd (omega arith)

read_attribute-Returns : (t : ℕ) (v : Bytes) → Returns (read_attribute t v)
unfolding read_attribute
read_attribute-Returns t v =
    if-elim Returns (nat_beq t attr_xor_mapped_address && leb 8 (length v))
      (λ e. read_xor_mapped-Returns v (ground arith))
      (λ e.
        if-elim Returns (nat_beq t attr_mapped_address && leb 8 (length v))
          (λ f. read_mapped-Returns v (ground arith)) (λ f. (none, refl)))

read_value-Returns :
    (buf : Bytes) (end offset t len : ℕ) (next : ℕ → Option (Option SocketAddr))
    → end ≤ length buf
    → ((o : ℕ) → offset ≤ o → Returns (next o))
    → Returns (read_value buf end offset t len next)
unfolding read_value slice
read_value-Returns buf end offset t len next h ih = elim (Bool-cases (ltb end (offset + len))) [
  | inl e ↦ (none, rw (read_value, e) refl)
  | inr e ↦
      let inside : ltb (length buf) (offset + len) ≡ false =
        ltb-false (length buf) (offset + len) (ground arith) in
      let (found, p) = read_attribute-Returns t (take len (drop offset buf)) in
      elim (Option-cases found) [
        | inr (addr, q) ↦ (some addr, rw (read_value, e, inside, p, q) refl)
        | inl q ↦
            let (r, n) = ih (offset + (len + padding len)) (omega arith) in
            (r, rw (read_value, e, inside, p, q) n)
      ]
]

read_attributes-Returns :
    (fuel : ℕ) (buf : Bytes) (end offset : ℕ)
    → end ≤ length buf
    → end < offset + fuel
    → 0 < fuel
    → Returns (read_attributes fuel buf end offset)
unfolding read_attributes
read_attributes-Returns zero buf end offset h f pos = absurd (omega arith)
read_attributes-Returns (suc fuel) buf end offset h f pos =
    elim (Bool-cases (ltb end (offset + 4))) [
      | inl e ↦ (none, rw (read_attributes, e) refl)
      | inr e ↦
          let (t, p) = read_u16-some buf offset (ground arith) in
          let (len, q) = read_u16-some buf (offset + 2) (ground arith) in
          let (r, n) =
            read_value-Returns buf end (offset + 4) t len
              (λ next. read_attributes fuel buf end next) h
              (λ o le. read_attributes-Returns fuel buf end o h (omega arith) (ground arith)) in
          (r, rw (read_attributes, e, p, q) n)
    ]

-- No bytes make the parser panic: on every input it returns, with an address or without one, and
-- the loop over the attributes needs no more rounds than the input has bytes.
pub parse_binding_response-total :
    (buf transaction_id : Bytes)
    → (found : Option SocketAddr) × (parse_binding_response buf transaction_id ≡ some found)
unfolding parse_binding_response read_response
parse_binding_response-total buf transaction_id = elim (Bool-cases (ltb (length buf) 20)) [
  | inl e ↦ (none, rw (parse_binding_response, e) refl)
  | inr e ↦
      let (len, p) = read_u16-some buf 2 (ground arith) in
      let (r, n) =
        read_attributes-Returns (length buf) buf (min (20 + len) (length buf)) 20 (omega arith)
          (omega arith) (ground arith) in
      rw (parse_binding_response, e, p, read_response, n)
        (if-elim Returns (not (take 2 buf == binding_response)) (λ _. (none, refl))
          (λ _.
            if-elim Returns
              (not (take 4 (drop 4 buf) == stun_magic_cookie)
                || not (take 12 (drop 8 buf) == transaction_id))
              (λ _. (none, refl)) (λ _. (r, refl))))
]
