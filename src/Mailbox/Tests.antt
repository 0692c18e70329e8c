-- ===== src/Mailbox/Tests.antt =====
-- A concrete printer for the laws of the mailbox: a value is its size, an array starts with `[`.
use node_x.Mailbox.Overfull.{HasBrackets, merge_store_value-overfull}
use node_x.Mailbox.Merged.{IsMerged, merge_store_value-IsMerged}
use node_x.Mailbox.{Json, merge_store_value, unwrap_or_default}
use node_x.Base.Words.{Bytes}
use node_x.Base.{
  ℕ, ◌+◌, ◌≡◌, refl, ap, true, Option, some, none, List, [], ◌∷◌, ◌++◌, length, replicate,
  length-replicate, nat_beq, nat_eq, if◌then◌else◌, arith,
}

abbrev sum : List ℕ → ℕ
sum [] = 0
sum (n ∷ ns) = n + sum ns

sum-append : (ns : List ℕ) (n : ℕ) → sum (ns ++ n ∷ []) ≡ sum ns + n
sum-append [] n = omega arith
sum-append (m ∷ ns) n = omega (arith, sum-append ns n)

abbrev parse_sizes : Bytes → Option (List ℕ)
parse_sizes [] = none
parse_sizes (b ∷ bs) = if nat_beq b 91 then some bs else none

abbrev sizes : Json ℕ
sizes = record {
  parse = parse_sizes;
  print_value = λ n. some (replicate n 0);
  print = λ ns. some (replicate (sum ns + 2) 0);
}

sizes-HasBrackets : HasBrackets sizes
sizes-HasBrackets = record {
  around = λ vs v bytes h. omega (
    arith,
    length-replicate {A = ℕ} (sum (vs ++ v ∷ []) + 2) 0,
    sum-append vs v,
    length-replicate {A = ℕ} v 0,
    ap (λ (o : Option Bytes). length (unwrap_or_default o)) h,
  );
  empty = omega arith;
}

abbrev incoming : Bytes
incoming = 91 ∷ 2 ∷ 3 ∷ []

incoming_accepted : (merge_store_value sizes none incoming).1 ≡ true
unfolding merge_store_value
incoming_accepted = refl

merge_store_value-IsMerged_example :
    IsMerged sizes [] (2 ∷ 3 ∷ []) (merge_store_value sizes none incoming).0
merge_store_value-IsMerged_example =
    merge_store_value-IsMerged sizes none incoming (2 ∷ 3 ∷ []) refl incoming_accepted

abbrev stored_mailbox : Option Bytes
stored_mailbox = some (91 ∷ 5 ∷ 6 ∷ [])

merge_store_value-overfull_example :
    merge_store_value sizes stored_mailbox (91 ∷ 49151 ∷ []) ≡ (0 ∷ 0 ∷ [], true, 3)
merge_store_value-overfull_example =
    merge_store_value-overfull sizes stored_mailbox (91 ∷ 49151 ∷ []) 49151 (replicate 49151 0)
      sizes-HasBrackets refl refl (omega (arith, length-replicate {A = ℕ} 49151 0))
      (omega (arith, length-replicate {A = ℕ} 49151 0)) refl
