-- ===== src/Attachments/Pieces.antt =====
-- The pieces of a file in nodex-messenger/src/attachments.rs.
use node_x.Attachments.{pieces, media_chunk_size}
use node_x.Base.{
  ℕ, zero, suc, ◌≤◌, ◌≡◌, refl, ap, ◌∙◌, List, [], ◌∷◌, ◌++◌, arith, length, length-drop, take,
  drop, take-append-drop,
}
use node_x.Base.Words.{Bytes}

abbrev pub joined : List Bytes → Bytes
joined [] = []
joined (p ∷ ps) = p ++ joined ps

pub joined-pieces : (fuel : ℕ) (bs : Bytes) → length bs ≤ fuel → joined (pieces fuel bs) ≡ bs
unfolding pieces
joined-pieces zero [] h = refl
joined-pieces zero (b ∷ bs) h = absurd (omega (arith, h))
joined-pieces (suc fuel) [] h = refl
joined-pieces (suc fuel) (b ∷ bs) h =
    let shorter : length (drop media_chunk_size (b ∷ bs)) ≤ fuel =
      omega (arith, h, length-drop media_chunk_size (b ∷ bs)) in
    ap (λ x. take media_chunk_size (b ∷ bs) ++ x)
      (joined-pieces fuel (drop media_chunk_size (b ∷ bs)) shorter)
    ∙ take-append-drop media_chunk_size (b ∷ bs)
