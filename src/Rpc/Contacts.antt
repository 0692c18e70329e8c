-- ===== src/Rpc/Contacts.antt =====
-- Lemmas on the conversion of contacts in nodex-kademlia/src/rpc.rs.
use node_x.Rpc.Sendable.{IsRoutable, IsSendable}
use node_x.Base.{
  ℕ, ◌≤◌, ◌<◌, ◌≡◌, refl, sym, ap, false, List, [], ◌∷◌, ◌++◌, length, take, drop, nat_beq,
  replicate, arith, All, map, length-append, length-drop, take-append_length, All-append, All-drop,
}
use node_x.Base.Words.{Bytes, IsByte, IsArray}
use node_x.Base.Outcome.{ok}
use node_x.Net.{IpAddr, v4, v6, Contact, new_contact}
use node_x.Wire.Message.{SerializedContact, IsContact}
use node_x.Rpc.Convert.{
  ip_to_c, contact_to_c, c_to_ip, c_to_contact, fill_contacts, contacts_from_c,
}

pad_ip-IsArray :
    (n : ℕ) (o : Bytes) → n ≤ 16 → IsArray n o → IsArray 16 (o ++ drop (length o) (replicate 16 0))
pad_ip-IsArray n o h a = (
  omega (
    arith,
    h,
    a.0,
    length-append o (drop (length o) (replicate 16 0)),
    length-drop {A = ℕ} (length o) (replicate 16 0),
  ),
  All-append IsByte o _ a.1 (All-drop IsByte (length o) (replicate 16 0) (omega arith)),
)

c_to_ip-ip_to_c : (ip : IpAddr) → IsRoutable ip → c_to_ip (ip_to_c ip).0 (ip_to_c ip).1 ≡ ok ip
unfolding c_to_ip ip_to_c
c_to_ip-ip_to_c (v4 o) h =
    let e : take 4 (o ++ drop (length o) (replicate 16 0)) ≡ o =
      take-append_length o _ 4 (sym h.0.0) in
    rw (e, h.1, h.2, h.3)
c_to_ip-ip_to_c (v6 o) h =
    let e : take 16 (o ++ drop (length o) (replicate 16 0)) ≡ o =
      take-append_length o _ 16 (sym h.0.0) in
    rw (e, h.1, h.2)

pub c_to_contact-contact_to_c :
    (now : ℕ) (c : Contact) → IsSendable now c → c_to_contact now (contact_to_c c) ≡ ok c
unfolding c_to_contact contact_to_c new_contact
c_to_contact-contact_to_c now c h =
    let p : nat_beq c.addr.port 0 ≡ false = ground arith in
    rw (p, c_to_ip-ip_to_c c.addr.ip h.ip, ← h.seen)

ip_to_c-IsArray : (ip : IpAddr) → IsRoutable ip → ((ip_to_c ip).0 < 256) × IsArray 16 (ip_to_c ip).1
unfolding ip_to_c
ip_to_c-IsArray (v4 o) h = (omega arith, pad_ip-IsArray 4 o (omega arith) h.0)
ip_to_c-IsArray (v6 o) h = (omega arith, pad_ip-IsArray 16 o (omega arith) h.0)

pub contact_to_c-IsContact : (now : ℕ) (c : Contact) → IsSendable now c → IsContact (contact_to_c c)
unfolding contact_to_c
contact_to_c-IsContact now c h =
    let packed = ip_to_c-IsArray c.addr.ip h.ip in
    record { id = h.id; ip_type = packed.0; ip = packed.1; port = h.port_bound }

pub fill_contacts_lem :
    (cs : List Contact) (slots : List SerializedContact)
    → length cs ≤ length slots
    → fill_contacts cs slots ≡ map contact_to_c cs ++ drop (length cs) slots
unfolding fill_contacts
fill_contacts_lem [] slots h = refl
fill_contacts_lem (c ∷ cs) [] h = absurd (omega arith)
fill_contacts_lem (c ∷ cs) (slot ∷ slots) h =
    ap (◌∷◌ (contact_to_c c)) (fill_contacts_lem cs slots (omega arith))

pub contacts_from_c-map :
    (now : ℕ) (cs : List Contact) (rest : List SerializedContact)
    → All (IsSendable now) cs
    → contacts_from_c now (length cs) (map contact_to_c cs ++ rest) ≡ ok cs
unfolding contacts_from_c
contacts_from_c-map now [] rest h = refl
contacts_from_c-map now (c ∷ cs) rest h =
    rw (c_to_contact-contact_to_c now c h.0, contacts_from_c-map now cs rest h.1)

pub All-map-contact_to_c :
    (now : ℕ) (cs : List Contact) → All (IsSendable now) cs → All IsContact (map contact_to_c cs)
All-map-contact_to_c now [] h = tt
All-map-contact_to_c now (c ∷ cs) h =
    (contact_to_c-IsContact now c h.0, All-map-contact_to_c now cs h.1)
