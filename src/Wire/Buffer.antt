-- ===== src/Wire/Buffer.antt =====
-- The byte buffers of core-ffi/src/lib.rs. A reader is the part of the input from the cursor on; a
-- writer is the part of the output up to the cursor, and the size of the whole buffer.
use node_x.Base.{
  ◌⊎◌, inl, inr, Bool-cases, ℕ, ◌+◌, ◌≤◌, ◌≡◌, [], ◌∷◌, ◌++◌, arith, ltb, leb, if◌then◌else◌,
  length, length-append, take, drop, All, All-take, All-drop, length-take, length-drop,
  take-append_length, drop-append_length,
}
use node_x.Base.Words.{Bytes, IsByte}
use node_x.Base.Outcome.{Outcome, ok, err, panic}

-- The decoder and the encoder have one error, the code -1.
pub data WireError : Type 0 where
  code_minus_one : WireError

abbrev pub Wired : Type 0 → Type 0
Wired = Outcome WireError

abbrev pub Reader : Type 0 → Type 0
Reader A = Bytes → Wired (A × Bytes)

infixl 5 ◌>>=◌ ◌>>◌
abbrev pub ◌>>=◌ : {A B : Type 0} → Reader A → (A → Reader B) → Reader B
◌>>=◌ m f buf = elim (m buf) [ ok (a, rest) ↦ f a rest | err e ↦ err e | panic ↦ panic ]

abbrev pub ◌>>◌ : {A B : Type 0} → Reader A → Reader B → Reader B
m >> k = m >>= λ _. k

abbrev pub pure : {A : Type 0} → A → Reader A
pure a buf = ok (a, buf)

abbrev pub fail : {A : Type 0} → Reader A
fail buf = err code_minus_one

-- `if buf.len() < cursor + n { return -1; }`
unfoldable pub need : ℕ → Reader (Unit {0})
need n buf = if ltb (length buf) n then err code_minus_one else ok (tt, buf)

-- `buf[cursor..cursor + n]`, and the step of the cursor; out of bounds it panics.
unfoldable pub read : ℕ → Reader Bytes
read n buf = if leb n (length buf) then ok (take n buf, drop n buf) else panic

-- `buf[cursor]`, and the step of the cursor.
unfoldable pub read_byte : Reader ℕ
read_byte [] = panic
read_byte (b ∷ buf) = ok (b, buf)

pub record Out : Type 0 where
  pub written : Bytes
  pub capacity : ℕ

abbrev pub Writer : Type 0
Writer = Out → Wired Out

-- One write after another.
infixr 6 ◌▸◌
abbrev pub ◌▸◌ : Writer → Writer → Writer
◌▸◌ f g o = elim (f o) [ ok o' ↦ g o' | err e ↦ err e | panic ↦ panic ]

-- `if out_buf.len() < cursor + n { return -1; }`
unfoldable pub room : ℕ → Writer
room n o = if ltb o.capacity (length o.written + n) then err code_minus_one else ok o

-- `out_buf[cursor..cursor + bs.len()].copy_from_slice(bs)`, and the step of the cursor.
unfoldable pub put : Bytes → Writer
put bs o =
    if leb (length o.written + length bs) o.capacity
    then ok (record o { written = o.written ++ bs })
    else panic

unfoldable pub done : Writer
done o = ok o

-- A read of `n` bytes finds what was put in front of the rest.
pub read-append : (n : ℕ) (bs rest : Bytes) → n ≡ length bs → read n (bs ++ rest) ≡ ok (bs, rest)
unfolding read
read-append n bs rest e =
    ground
      (arith, length-append bs rest, take-append_length bs rest n e, drop-append_length bs rest n e)

pub need-append :
    (n : ℕ) (bs rest : Bytes) → n ≤ length bs → need n (bs ++ rest) ≡ ok (tt, bs ++ rest)
unfolding need
need-append n bs rest h = ground (arith, length-append bs rest)

-- A read that is in bounds returns that many bytes, and leaves the others.
pub read_lem :
    (n : ℕ) (buf : Bytes)
    → n ≤ length buf
    → All IsByte buf
    → (bs : Bytes) × (rest : Bytes) × (read n buf ≡ ok (bs, rest))
      × (length bs ≡ n)
      × (length rest + n ≡ length buf)
      × All IsByte bs
      × All IsByte rest
unfolding read
read_lem n buf h bytes = (
  take n buf,
  drop n buf,
  ground arith,
  omega (arith, length-take n buf),
  omega (arith, length-drop n buf),
  All-take IsByte n buf bytes,
  All-drop IsByte n buf bytes,
)

pub need-cases :
    (n : ℕ) (buf : Bytes)
    → (need n buf ≡ err code_minus_one) ⊎ ((need n buf ≡ ok (tt, buf)) × (n ≤ length buf))
unfolding need
need-cases n buf = elim (Bool-cases (ltb (length buf) n)) [
  | inl e ↦ inl (rw e)
  | inr e ↦ inr (rw e, ground arith)
]
