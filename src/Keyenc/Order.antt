-- ===== src/Keyenc/Order.antt =====
-- The byte order of the keys of src/keyenc.c is the order of the values, whatever follows a part.
use binjson_structures.Shared.{
  ℕ, ◌+◌, ◌-◌, ◌/◌, ◌%◌, ◌^◌, ◌≤◌, ◌<◌, ◌≡◌, ◌⊎◌, inl, inr, refl, sym, ap, ◌∙◌, arith, true, false,
  List, [], ◌∷◌, ◌++◌, map, length, append-nil, ltb, leb, ◌==◌, ==_iff, if◌then◌else◌, ltb-eq-false,
  lt→ltb,
}
use binjson_structures.Shared.Words.{IsByte, All}
use binjson_structures.Shared.Bits.{bit_xor, all_below, all_below-lt}
use binjson_structures.Shared.Bytes.{
  be_bytes, LexLt, be_bytes-LexLt, be_bytes-IsByte, length-be_bytes,
}
use binjson_structures.Double.{is_zero, DoubleLt}
use binjson_structures.Keyenc.{total_order, number_enc, flip_sign, date_enc, has_nul}

top_flip_table : all_below 256 (λ x. bit_xor x 0x80 == (x + 128) % 256) ≡ true
unfolding all_below
top_flip_table = refl

top_flip : (x : ℕ) → x < 256 → bit_xor x 0x80 ≡ (x + 128) % 256
top_flip x h = (==_iff _ _).0 (all_below-lt 256 x _ h top_flip_table)

byte_not_table : all_below 256 (λ x. bit_xor x 0xff == 255 - x) ≡ true
unfolding all_below
byte_not_table = refl

byte_not : (x : ℕ) → x < 256 → bit_xor x 0xff ≡ 255 - x
byte_not x h = (==_iff _ _).0 (all_below-lt 256 x _ h byte_not_table)

-- The order of two int64_t patterns.
abbrev pub SignedLt : ℕ → ℕ → Type 0
SignedLt a b =
    if leb (2 ^ 63) a
    then if leb (2 ^ 63) b then (a < b) else Unit {0}
    else if leb (2 ^ 63) b
    then ⊥
    else (a < b)

-- The top byte, and the 56 bits below.
abbrev top : ℕ → ℕ
top v = v / 256 ^ 7 % 256

abbrev low : ℕ → ℕ
low v = v % 256 ^ 7

flipped_order :
    (a b : ℕ)
    → a < 2 ^ 64
    → b < 2 ^ 64
    → SignedLt a b
    → ((top a + 128) % 256 < (top b + 128) % 256)
      ⊎ (((top a + 128) % 256 ≡ (top b + 128) % 256) × (low a < low b))
flipped_order a b ha hb h = ground arith

-- A date part sorts before a later one, whatever follows them.
pub date_enc-LexLt :
    (a b : ℕ) (s t : List ℕ)
    → a < 2 ^ 64
    → b < 2 ^ 64
    → SignedLt a b
    → LexLt (date_enc a ++ s) (date_enc b ++ t)
unfolding date_enc flip_sign be_bytes
date_enc-LexLt a b s t ha hb h =
    rw (top_flip (top a) (omega arith), top_flip (top b) (omega arith))
      (inr (
        refl,
        elim (flipped_order a b ha hb h) [
          | inl lt ↦ inl lt
          | inr (eq, rest) ↦ inr (eq, be_bytes-LexLt 7 a b s t rest)
        ],
      ))

-- Complementing every byte reverses the order.
LexLt-complement :
    (xs ys s t : List ℕ)
    → All IsByte xs
    → All IsByte ys
    → length xs ≡ length ys
    → LexLt xs ys
    → LexLt (map (λ x. bit_xor x 0xff) ys ++ s) (map (λ x. bit_xor x 0xff) xs ++ t)
LexLt-complement [] [] s t hx hy l h = absurd h
LexLt-complement [] (y ∷ ys) s t hx hy l h = absurd (omega arith)
LexLt-complement (x ∷ xs) [] s t hx hy l h = absurd h
LexLt-complement (x ∷ xs) (y ∷ ys) s t (hx, hxs) (hy, hys) l h =
    rw (byte_not x hx, byte_not y hy)
      (elim h [
        | inl lt ↦ inl (omega arith)
        | inr (eq, rest) ↦ inr (omega arith, LexLt-complement xs ys s t hxs hys (omega arith) rest)
      ])

-- `-0` is encoded as `+0`.
abbrev canonical : ℕ → ℕ
canonical v = if is_zero v then 0 else v

abbrev complement_all : List ℕ → List ℕ
complement_all = map (λ x. bit_xor x 0xff)

total_order-negative :
    (v : ℕ) → v < 2 ^ 64 → 2 ^ 63 ≤ v → total_order (be_bytes 8 v) ≡ complement_all (be_bytes 8 v)
unfolding total_order be_bytes
total_order-negative v h k =
    let high : ltb (top v) 0x80 ≡ false = ltb-eq-false (top v) 0x80 (omega arith) in rw high

total_order-positive :
    (v : ℕ) → v < 2 ^ 63 → total_order (be_bytes 8 v) ≡ (top v + 128) ∷ be_bytes 7 v
unfolding total_order be_bytes
total_order-positive v h =
    let low_top : ltb (top v) 0x80 ≡ true = lt→ltb (top v) 0x80 (omega arith) in
    rw (low_top, top_flip (top v) (omega arith)) (ap (λ (x : ℕ). x ∷ be_bytes 7 v) (omega arith))

-- What `DoubleLt` says of the patterns that are encoded.
abbrev Ordered : ℕ → ℕ → Type 0
Ordered a b =
    ((2 ^ 63 ≤ a) × (2 ^ 63 ≤ b) × (b < a))
    ⊎ (((2 ^ 63 ≤ a) × (b < 2 ^ 63)) ⊎ ((a < b) × (b < 2 ^ 63)))

canonical-Ordered :
    (a b : ℕ) → a < 2 ^ 64 → b < 2 ^ 64 → DoubleLt a b → Ordered (canonical a) (canonical b)
canonical-Ordered a b ha hb h = ground arith

positive_order :
    (a b : ℕ)
    → a < b
    → b < 2 ^ 63
    → (top a + 128 < top b + 128) ⊎ ((top a + 128 ≡ top b + 128) × (low a < low b))
positive_order a b h k = omega arith

total_order-LexLt :
    (a b : ℕ) (s t : List ℕ)
    → a < 2 ^ 64
    → b < 2 ^ 64
    → Ordered a b
    → LexLt (total_order (be_bytes 8 a) ++ s) (total_order (be_bytes 8 b) ++ t)
total_order-LexLt a b s t ha hb (inl (na, nb, lt)) =
    rw (total_order-negative a ha na, total_order-negative b hb nb)
      (LexLt-complement (be_bytes 8 b) (be_bytes 8 a) s t (be_bytes-IsByte 8 b)
        (be_bytes-IsByte 8 a) (length-be_bytes 8 b ∙ sym (length-be_bytes 8 a))
        (rw (append-nil, append-nil) at (be_bytes-LexLt 8 b a [] [] (omega arith))))
total_order-LexLt a b s t ha hb (inr (inl (na, pb))) =
    rw (total_order-negative a ha na, total_order-positive b pb)
      (unfold be_bytes in inl (omega (arith, byte_not (top a) (omega arith))))
total_order-LexLt a b s t ha hb (inr (inr (lt, pb))) =
    rw (total_order-positive a (omega arith), total_order-positive b pb)
      (elim (positive_order a b lt pb) [
        | inl h ↦ inl h
        | inr (eq, rest) ↦ inr (eq, be_bytes-LexLt 7 a b s t rest)
      ])

-- A number part sorts before a greater one, whatever follows them; `a` and `b` are no NaNs.
pub number_enc-LexLt :
    (a b : ℕ) (s t : List ℕ)
    → a < 2 ^ 64
    → b < 2 ^ 64
    → DoubleLt a b
    → LexLt (number_enc a ++ s) (number_enc b ++ t)
unfolding number_enc
number_enc-LexLt a b s t ha hb h = inr (
  refl,
  total_order-LexLt (canonical a) (canonical b) s t (ground arith) (ground arith)
      (canonical-Ordered a b ha hb h),
)

-- A string part sorts before a greater one, whatever follows them.
pub terminated-LexLt :
    (a b s t : List ℕ) → has_nul b ≡ false → LexLt a b → LexLt (a ++ (0 ∷ s)) (b ++ (0 ∷ t))
unfolding has_nul
terminated-LexLt a [] s t h lt = absurd lt
terminated-LexLt [] (y ∷ b) s t h lt = inl (ground arith)
terminated-LexLt (x ∷ a) (y ∷ b) s t h (inl lt) = inl lt
terminated-LexLt (x ∷ a) (y ∷ b) s t h (inr (eq, rest)) =
    inr (eq, terminated-LexLt a b s t (ground arith) rest)
