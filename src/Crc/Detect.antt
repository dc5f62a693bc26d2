-- ===== src/Crc/Detect.antt =====
-- What the CRC of src/bjfile.c promises to its callers: it may be computed in chunks, it fits 32
-- bits, and it tells apart two messages that differ within four consecutive bytes.
use native.Mathlib.Nat.{pow-suc}
use mathlib.Core.Path.{ap₂}
use binjson_structures.Shared.{
  ℕ, zero, suc, ◌+◌, ◌-◌, ◌*◌, ◌/◌, ◌%◌, ◌^◌, ◌≤◌, ◌<◌, ◌≡◌, ◌≢◌, refl, sym, ap, ◌∙◌, arith, inl,
  inr, List, [], ◌∷◌, ◌++◌, length,
}
use binjson_structures.Shared.Words.{IsByte, All}
use binjson_structures.Shared.Bits.{
  bit_xor, bit_xor_assoc, bit_xor_comm, bit_xor_injective, bit_xor_fields, bit_xor-lt, bit_xor_top,
  bit_xor-zero,
}
use binjson_structures.Crc.{crc_round, crc_loop, crc32_update, complement}
use binjson_structures.Crc.Serial.{
  polynomial, shift, shifts, serial, shift_even, shift_odd, parity_cases, shifts-bit_xor,
  shifts-field, crc_loop-serial,
}

abbrev IsCrc : ℕ → Type 0
IsCrc c = c < 2 ^ 32

complement-complement : (c : ℕ) → IsCrc c → complement (complement c) ≡ c
complement-complement c h = omega arith

complement-IsCrc : (c : ℕ) → IsCrc (complement c)
complement-IsCrc c = omega arith

complement_injective : (a b : ℕ) → IsCrc a → IsCrc b → complement a ≡ complement b → a ≡ b
complement_injective a b ha hb h = omega arith

shift-lt : (c : ℕ) → IsCrc c → IsCrc (shift c)
shift-lt c h = elim (parity_cases c) [
  | inl p ↦ omega (arith, shift_even c p)
  | inr p ↦
      omega (arith, shift_odd c p, bit_xor-lt 32 polynomial (c / 2) (omega arith) (omega arith))
]

-- The polynomial's top bit marks the shifts that it took part in.
shift_odd_top : (c : ℕ) → IsCrc c → c % 2 ≡ 1 → 2 ^ 31 ≤ shift c
shift_odd_top c h p =
    omega (
      arith,
      shift_odd c p,
      bit_xor_top 31 (polynomial - 2 ^ 31) (c / 2) (omega arith) (omega arith),
    )

shift_injective : (a b : ℕ) → IsCrc a → IsCrc b → shift a ≡ shift b → a ≡ b
shift_injective a b ha hb e = elim (parity_cases a) [
  | inl p ↦ elim (parity_cases b) [
    | inl q ↦ omega (arith, shift_even a p, shift_even b q)
    | inr q ↦ absurd (omega (arith, shift_even a p, shift_odd_top b hb q))
  ]
  | inr p ↦ elim (parity_cases b) [
    | inl q ↦ absurd (omega (arith, shift_even b q, shift_odd_top a ha p))
    | inr q ↦ omega (
      arith,
      bit_xor_injective polynomial (a / 2) (b / 2) (sym (shift_odd a p) ∙ e ∙ shift_odd b q),
    )
  ]
]

shifts-lt : (n c : ℕ) → IsCrc c → IsCrc (shifts n c)
unfolding shifts
shifts-lt zero c h = h
shifts-lt (suc n) c h = shifts-lt n (shift c) (shift-lt c h)

shifts_injective : (n a b : ℕ) → IsCrc a → IsCrc b → shifts n a ≡ shifts n b → a ≡ b
unfolding shifts
shifts_injective zero a b ha hb e = e
shifts_injective (suc n) a b ha hb e =
    shift_injective a b ha hb
      (shifts_injective n (shift a) (shift b) (shift-lt a ha) (shift-lt b hb) e)

mixed-IsCrc : (c b : ℕ) → IsCrc c → IsByte b → IsCrc (bit_xor c b)
mixed-IsCrc c b hc hb = bit_xor-lt 32 c b hc (omega arith)

serial-IsCrc : (c : ℕ) (p : List ℕ) → IsCrc c → All IsByte p → IsCrc (serial c p)
unfolding serial
serial-IsCrc c [] hc hp = hc
serial-IsCrc c (b ∷ p) hc (hb, hp) =
    serial-IsCrc (shifts 8 (bit_xor c b)) p (shifts-lt 8 (bit_xor c b) (mixed-IsCrc c b hc hb)) hp

-- For a fixed tail the register decides the result.
serial_injective :
    (a b : ℕ) (p : List ℕ) → IsCrc a → IsCrc b → All IsByte p → serial a p ≡ serial b p → a ≡ b
unfolding serial
serial_injective a b [] ha hb hp e = e
serial_injective a b (x ∷ p) ha hb (hx, hp) e =
    let ma : IsCrc (bit_xor a x) = mixed-IsCrc a x ha hx in
    let mb : IsCrc (bit_xor b x) = mixed-IsCrc b x hb hx in
    let mixed : bit_xor a x ≡ bit_xor b x = shifts_injective 8 (bit_xor a x) (bit_xor b x) ma mb (
      serial_injective (shifts 8 (bit_xor a x)) (shifts 8 (bit_xor b x)) p
        (shifts-lt 8 (bit_xor a x) ma) (shifts-lt 8 (bit_xor b x) mb) hp e) in
    bit_xor_injective x a b (bit_xor_comm x a ∙ mixed ∙ bit_xor_comm b x)

-- The bytes of a window as one little-endian number.
abbrev word : List ℕ → ℕ
word [] = 0
word (b ∷ bs) = b + 256 * word bs

shift_bytes : ℕ → ℕ → ℕ
shift_bytes zero c = c
shift_bytes (suc n) c = shift_bytes n (shifts 8 c)

shift_bytes_injective : (n a b : ℕ) → IsCrc a → IsCrc b → shift_bytes n a ≡ shift_bytes n b → a ≡ b
unfolding shift_bytes
shift_bytes_injective zero a b ha hb e = e
shift_bytes_injective (suc n) a b ha hb e =
    shifts_injective 8 a b ha hb
      (shift_bytes_injective n (shifts 8 a) (shifts 8 b) (shifts-lt 8 a ha) (shifts-lt 8 b hb) e)

-- The bytes of a window enter the register as one number.
serial-word :
    (c : ℕ) (bs : List ℕ)
    → All IsByte bs
    → serial c bs ≡ shift_bytes (length bs) (bit_xor c (word bs))
unfolding serial shift_bytes
serial-word c [] h = sym (bit_xor-zero c)
serial-word c (b ∷ bs) (hb, hs) =
    serial-word (shifts 8 (bit_xor c b)) bs hs ∙ ap (shift_bytes (length bs)) mixed
  where
    mixed : bit_xor (shifts 8 (bit_xor c b)) (word bs) ≡ shifts 8 (bit_xor c (b + 256 * word bs))
    mixed =
        ap (bit_xor (shifts 8 (bit_xor c b))) (sym (shifts-field 8 (word bs)))
        ∙ sym (shifts-bit_xor 8 (bit_xor c b) (256 * word bs))
        ∙ ap (shifts 8)
            (bit_xor_assoc c b (256 * word bs) ∙ ap (bit_xor c) (bit_xor_fields 8 b (word bs) hb))

word-lt : (bs : List ℕ) (k : ℕ) → All IsByte bs → length bs ≤ k → word bs < 256 ^ k
word-lt [] zero h l = omega arith
word-lt [] (suc k) h l = omega (arith, pow-suc 256 k, word-lt [] k tt (omega arith))
word-lt (b ∷ bs) zero h l = absurd (omega arith)
word-lt (b ∷ bs) (suc k) (hb, hs) l = omega (arith, pow-suc 256 k, word-lt bs k hs (omega arith))

word_injective :
    (p q : List ℕ) → All IsByte p → All IsByte q → length p ≡ length q → word p ≡ word q → p ≡ q
word_injective [] [] hp hq l e = refl
word_injective [] (y ∷ q) hp hq l e = absurd (omega arith)
word_injective (x ∷ p) [] hp hq l e = absurd (omega arith)
word_injective (x ∷ p) (y ∷ q) (hx, hp) (hy, hq) l e =
    ap₂ ◌∷◌ (omega arith) (word_injective p q hp hq (omega arith) (omega arith))

crc_loop-append : (c : ℕ) (p q : List ℕ) → crc_loop c (p ++ q) ≡ crc_loop (crc_loop c p) q
unfolding crc_loop
crc_loop-append c [] q = refl
crc_loop-append c (b ∷ p) q = crc_loop-append (crc_round c b) p q

crc_loop-IsCrc : (c : ℕ) (p : List ℕ) → IsCrc c → All IsByte p → IsCrc (crc_loop c p)
crc_loop-IsCrc c p hc hp = rw crc_loop-serial (serial-IsCrc c p hc hp)

-- The CRC of bytes is a 32-bit word.
pub crc32_update-IsCrc : (c : ℕ) (p : List ℕ) → crc32_update c p < 2 ^ 32
unfolding crc32_update
crc32_update-IsCrc c p = complement-IsCrc (crc_loop (complement c) p)

-- The CRC of two chunks of bytes, the first chunk's CRC passed on to the second, is that of the
-- whole.
pub crc32_update-append :
    (c : ℕ) (p q : List ℕ)
    → All IsByte p
    → crc32_update (crc32_update c p) q ≡ crc32_update c (p ++ q)
unfolding crc32_update
crc32_update-append c p q hp = ap complement (
    ap (λ d. crc_loop d q)
      (complement-complement (crc_loop (complement c) p)
        (crc_loop-IsCrc (complement c) p (complement-IsCrc c) hp))
    ∙ sym (crc_loop-append (complement c) p q))

crc_loop_injective :
    (a b : ℕ) (p : List ℕ) → IsCrc a → IsCrc b → All IsByte p → crc_loop a p ≡ crc_loop b p → a ≡ b
crc_loop_injective a b p ha hb hp e =
    serial_injective a b p ha hb hp (sym (crc_loop-serial a p hp) ∙ e ∙ crc_loop-serial b p hp)

window_injective :
    (c : ℕ) (p q : List ℕ)
    → IsCrc c
    → All IsByte p
    → All IsByte q
    → length p ≡ length q
    → length p ≤ 4
    → crc_loop c p ≡ crc_loop c q
    → p ≡ q
window_injective c p q hc hp hq l short e = word_injective p q hp hq l (
    bit_xor_injective c (word p) (word q) (
      shift_bytes_injective (length p) (bit_xor c (word p)) (bit_xor c (word q))
        (bit_xor-lt 32 c (word p) hc (word-lt p 4 hp short))
        (bit_xor-lt 32 c (word q) hc (word-lt q 4 hq (omega arith)))
        (sym (serial-word c p hp)
          ∙ sym (crc_loop-serial c p hp)
          ∙ e
          ∙ crc_loop-serial c q hq
          ∙ serial-word c q hq
          ∙ ap (λ n. shift_bytes n (bit_xor c (word q))) (sym l))))

-- Two byte sequences that differ only within a window of at most four bytes, at the same place and
-- of the same length, have different CRCs from any 32-bit start.
pub crc32_update-detects :
    (c : ℕ) (front p q back : List ℕ)
    → c < 2 ^ 32
    → All IsByte front
    → All IsByte p
    → All IsByte q
    → All IsByte back
    → length p ≡ length q
    → length p ≤ 4
    → p ≢ q
    → crc32_update c (front ++ (p ++ back)) ≢ crc32_update c (front ++ (q ++ back))
unfolding crc32_update
crc32_update-detects c front p q back hc hf hp hq hb l short differ e = differ (
    window_injective start p q hstart hp hq l short (
      crc_loop_injective (crc_loop start p) (crc_loop start q) back
        (crc_loop-IsCrc start p hstart hp) (crc_loop-IsCrc start q hstart hq) hb
        (sym (split p) ∙ same ∙ split q)))
  where
    start : ℕ
    start = crc_loop (complement c) front

    hstart : IsCrc start
    hstart = crc_loop-IsCrc (complement c) front (complement-IsCrc c) hf

    split :
        (w : List ℕ)
        → crc_loop (complement c) (front ++ (w ++ back)) ≡ crc_loop (crc_loop start w) back
    split w = crc_loop-append (complement c) front (w ++ back) ∙ crc_loop-append start w back

    in_range : (w : List ℕ) → All IsByte w → IsCrc (crc_loop (complement c) (front ++ (w ++ back)))
    in_range w hw =
        rw (split w) (crc_loop-IsCrc (crc_loop start w) back (crc_loop-IsCrc start w hstart hw) hb)

    same :
        crc_loop (complement c) (front ++ (p ++ back))
        ≡ crc_loop (complement c) (front ++ (q ++ back))
    same = complement_injective _ _ (in_range p hp) (in_range q hq) e
