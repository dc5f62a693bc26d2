-- ===== src/Crc/Serial.antt =====
-- The table loop computes the bit-serial division by the reversed polynomial 0xEDB88320.
use binjson_structures.Shared.{
  ℕ, zero, suc, ◌*◌, ◌/◌, ◌%◌, ◌^◌, ◌<◌, ◌≡◌, refl, sym, ap, ◌∙◌, arith, true, List, [], ◌∷◌, ◌==◌,
  ==_iff, get_or, if◌then◌else◌, ◌⊎◌, inl, inr,
}
use native.Mathlib.Nat.{pow-suc}
use mathlib.Core.Path.{ap₂, ◌≡⟨◌⟩◌, ◌∎}
use binjson_structures.Shared.Words.{IsByte, All}
use binjson_structures.Shared.Bits.{
  bit_xor, all_below, all_below-lt, bit_xor-half, bit_xor-parity, bit_xor_assoc, bit_xor_comm,
  bit_xor_cancel, bit_xor-zero, bit_and_byte, bit_xor-div_byte, bit_xor_fields,
}
use binjson_structures.Crc.{crc_table, crc_round, crc_loop, crc32_update, complement}

abbrev pub polynomial : ℕ
polynomial = 0xEDB88320

-- One bit of the division: `c = (c & 1) ? 0xEDB88320 ^ (c >> 1) : c >> 1`.
unfoldable pub shift : ℕ → ℕ
shift c = if c % 2 == 1 then bit_xor polynomial (c / 2) else c / 2

unfoldable pub shifts : ℕ → ℕ → ℕ
shifts zero c = c
shifts (suc n) c = shifts n (shift c)

-- The division of a message, eight bits a byte, with no table.
unfoldable pub serial : ℕ → List ℕ → ℕ
serial crc [] = crc
serial crc (b ∷ p) = serial (shifts 8 (bit_xor crc b)) p

table_check : all_below 256 (λ i. get_or crc_table i 0 == shifts 8 i) ≡ true
unfolding all_below shifts shift
table_check = refl

-- Each entry of the table is its index after eight shifts.
pub crc_table-shifts : (i : ℕ) → i < 256 → get_or crc_table i 0 ≡ shifts 8 i
crc_table-shifts i h = (==_iff _ _).0 (all_below-lt 256 i _ h table_check)

pub shift_even : (c : ℕ) → c % 2 ≡ 0 → shift c ≡ c / 2
unfolding shift
shift_even c h = ground arith

pub shift_odd : (c : ℕ) → c % 2 ≡ 1 → shift c ≡ bit_xor polynomial (c / 2)
unfolding shift
shift_odd c h = ground arith

pub parity_cases : (c : ℕ) → (c % 2 ≡ 0) ⊎ (c % 2 ≡ 1)
parity_cases c = omega arith

swap_left : (p a b : ℕ) → bit_xor p (bit_xor a b) ≡ bit_xor a (bit_xor p b)
swap_left p a b = sym (bit_xor_assoc p a b) ∙ rw (bit_xor_comm p a) (bit_xor_assoc a p b)

cancel_twice : (p a b : ℕ) → bit_xor a b ≡ bit_xor (bit_xor p a) (bit_xor p b)
cancel_twice p a b = sym (
    bit_xor_assoc p a (bit_xor p b)
    ∙ ap (bit_xor p) (swap_left a p b)
    ∙ bit_xor_cancel p (bit_xor a b))

-- A shift is linear over exclusive or.
pub shift-bit_xor : (a b : ℕ) → shift (bit_xor a b) ≡ bit_xor (shift a) (shift b)
shift-bit_xor a b = elim (parity_cases a) [
  | inl p ↦ elim (parity_cases b) [
    | inl q ↦
        shift_even _ (omega (arith, bit_xor-parity a b))
        ∙ bit_xor-half a b
        ∙ ap₂ bit_xor (sym (shift_even a p)) (sym (shift_even b q))
    | inr q ↦
        shift_odd _ (omega (arith, bit_xor-parity a b))
        ∙ ap (bit_xor polynomial) (bit_xor-half a b)
        ∙ swap_left polynomial (a / 2) (b / 2)
        ∙ ap₂ bit_xor (sym (shift_even a p)) (sym (shift_odd b q))
  ]
  | inr p ↦ elim (parity_cases b) [
    | inl q ↦
        shift_odd _ (omega (arith, bit_xor-parity a b))
        ∙ ap (bit_xor polynomial) (bit_xor-half a b)
        ∙ sym (bit_xor_assoc polynomial (a / 2) (b / 2))
        ∙ ap₂ bit_xor (sym (shift_odd a p)) (sym (shift_even b q))
    | inr q ↦
        shift_even _ (omega (arith, bit_xor-parity a b))
        ∙ bit_xor-half a b
        ∙ cancel_twice polynomial (a / 2) (b / 2)
        ∙ ap₂ bit_xor (sym (shift_odd a p)) (sym (shift_odd b q))
  ]
]

pub shifts-bit_xor : (n a b : ℕ) → shifts n (bit_xor a b) ≡ bit_xor (shifts n a) (shifts n b)
unfolding shifts
shifts-bit_xor zero a b = refl
shifts-bit_xor (suc n) a b =
    ap (shifts n) (shift-bit_xor a b) ∙ shifts-bit_xor n (shift a) (shift b)

double-field : (k h : ℕ) → (2 ^ suc k * h) / 2 ≡ 2 ^ k * h
double-field k h = omega (arith, ap (λ (t : ℕ). t * h) (pow-suc 2 k))

even-field : (k h : ℕ) → (2 ^ suc k * h) % 2 ≡ 0
even-field k h = omega (arith, ap (λ (t : ℕ). t * h) (pow-suc 2 k))

-- Digits above the shifted ones only move down.
pub shifts-field : (k h : ℕ) → shifts k (2 ^ k * h) ≡ h
unfolding shifts
shifts-field zero h = omega arith
shifts-field (suc k) h =
    ap (shifts k) (shift_even _ (even-field k h) ∙ double-field k h) ∙ shifts-field k h

-- Eight shifts are one lookup in the table.
shifts_lookup : (x : ℕ) → bit_xor (get_or crc_table (x % 256) 0) (x / 256) ≡ shifts 8 x
shifts_lookup x =
    bit_xor (get_or crc_table (x % 256) 0) (x / 256)
    ≡⟨ ap₂ bit_xor (crc_table-shifts (x % 256) (omega arith)) (sym (shifts-field 8 (x / 256))) ⟩
      bit_xor (shifts 8 (x % 256)) (shifts 8 (2 ^ 8 * (x / 256)))
    ≡⟨ sym (shifts-bit_xor 8 (x % 256) (2 ^ 8 * (x / 256))) ⟩
      shifts 8 (bit_xor (x % 256) (2 ^ 8 * (x / 256)))
    ≡⟨ ap (shifts 8) (bit_xor_fields 8 (x % 256) (x / 256) (omega arith) ∙ omega arith) ⟩
      shifts 8 x ∎

above_byte : (crc b : ℕ) → b < 256 → bit_xor crc b / 256 ≡ crc / 256
above_byte crc b h =
    bit_xor-div_byte crc b ∙ ap (bit_xor (crc / 256)) (omega arith) ∙ bit_xor-zero (crc / 256)

pub crc_round-shifts : (crc b : ℕ) → b < 256 → crc_round crc b ≡ shifts 8 (bit_xor crc b)
unfolding crc_round
crc_round-shifts crc b h =
    ap₂ bit_xor (ap (λ i. get_or crc_table i 0) (bit_and_byte (bit_xor crc b)))
      (sym (above_byte crc b h))
    ∙ shifts_lookup (bit_xor crc b)

pub crc_loop-serial : (crc : ℕ) (p : List ℕ) → All IsByte p → crc_loop crc p ≡ serial crc p
unfolding crc_loop serial
crc_loop-serial crc [] h = refl
crc_loop-serial crc (b ∷ p) (hb, hp) =
    crc_loop-serial (crc_round crc b) p hp ∙ ap (λ c. serial c p) (crc_round-shifts crc b hb)

-- Over bytes, the table-driven CRC is the bit-serial division between two complements.
pub crc32_update-serial :
    (crc : ℕ) (p : List ℕ)
    → All IsByte p
    → crc32_update crc p ≡ complement (serial (complement crc) p)
unfolding crc32_update
crc32_update-serial crc p h = ap complement (crc_loop-serial (complement crc) p h)
