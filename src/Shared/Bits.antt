-- ===== src/Shared/Bits.antt =====
-- Exclusive or at every width: the digit law, the group laws, bounds and shifts.
use Prim.Native.Nat.{
  digits, bitwise, bit_xor, bit_xor-bitwise, bit_and, bit_and-bitwise, min, differ,
}
use native.Mathlib.Nat.{le_refl, pow-suc}
use binjson_structures.Shared.{
  ℕ, zero, suc, ◌+◌, ◌*◌, ◌/◌, ◌%◌, ◌^◌, ◌≤◌, ◌<◌, ◌≡◌, refl, ap, sym, ◌∙◌, arith, Bool, true, ◌&&◌,
}
use mathlib.Core.Path.{ap₂, ◌≡⟨◌⟩◌, ◌∎}
pub use Prim.Native.Nat.{bit_xor, bit_and}

-- `digits` of a zero, and the same digits from any two amounts of fuel that cover the number.
module _ (base : ℕ → ℕ) (digit : ℕ → ℕ → ℕ) where
  digits-zero : (i y : ℕ) → digits base digit i 0 y ≡ base y
  digits-zero zero y = refl
  digits-zero (suc i) y = refl

  enough_rounds :
      (x i j y : ℕ) → (x ≤ i) × (x ≤ j) → digits base digit i x y ≡ digits base digit j x y
  enough_rounds zero i j y h = digits-zero i y ∙ sym (digits-zero j y)
  enough_rounds (suc x) zero j y (low, _) = absurd (omega arith)
  enough_rounds (suc x) (suc i) zero y (_, low) = absurd (omega arith)
  enough_rounds (suc x) (suc i) (suc j) y (hi, hj) =
      rw (enough_rounds (suc x / 2) i j (y / 2) (omega arith, omega arith))

  bitwise-positive :
      (x y : ℕ)
      → bitwise base digit (suc x) y
        ≡ bitwise base digit (suc x / 2) (y / 2) * 2 + digit (suc x % 2) (y % 2)
  bitwise-positive x y =
      let half = suc x / 2 in
      omega (arith, enough_rounds half x half (y / 2) (omega arith, omega arith))

differ_two : (x y : ℕ) → x < 2 → y < 2 → differ x y ≡ (x + y) % 2
differ_two zero zero p q = refl
differ_two zero (suc zero) p q = refl
differ_two zero (suc (suc y)) p q = absurd (omega arith)
differ_two (suc zero) zero p q = refl
differ_two (suc zero) (suc zero) p q = refl
differ_two (suc zero) (suc (suc y)) p q = absurd (omega arith)
differ_two (suc (suc x)) y p q = absurd (omega arith)

-- The law of the lowest digit.
pub bit_xor_step : (a b : ℕ) → bit_xor a b ≡ bit_xor (a / 2) (b / 2) * 2 + (a + b) % 2
bit_xor_step zero b = simp bit_xor-bitwise (omega arith)
bit_xor_step (suc a) b = simp bit_xor-bitwise (
    omega (
      arith,
      bitwise-positive (λ y. y) differ a b,
      differ_two (suc a % 2) (b % 2) (omega arith) (omega arith),
    ))

pub bit_xor-half : (a b : ℕ) → bit_xor a b / 2 ≡ bit_xor (a / 2) (b / 2)
bit_xor-half a b = omega (arith, bit_xor_step a b)

pub bit_xor-parity : (a b : ℕ) → bit_xor a b % 2 ≡ (a + b) % 2
bit_xor-parity a b = omega (arith, bit_xor_step a b)

-- Two numbers with the same halves and the same lowest digit are the same.
eq_of_half : (a b : ℕ) → a / 2 ≡ b / 2 → a % 2 ≡ b % 2 → a ≡ b
eq_of_half a b p q = omega arith

pub zero-bit_xor : (b : ℕ) → bit_xor 0 b ≡ b
zero-bit_xor b = bit_xor-bitwise 0 b

-- A result has no more digits than the operands.
pub bit_xor-lt : (k : ℕ) (a b : ℕ) → a < 2 ^ k → b < 2 ^ k → bit_xor a b < 2 ^ k
bit_xor-lt zero zero zero p q = omega arith
bit_xor-lt zero zero (suc b) p q = absurd (omega arith)
bit_xor-lt zero (suc a) b p q = absurd (omega arith)
bit_xor-lt (suc k) a b p q = omega (
  arith,
  pow-suc 2 k,
  bit_xor_step a b,
  bit_xor-lt k (a / 2) (b / 2) (omega (arith, pow-suc 2 k)) (omega (arith, pow-suc 2 k)),
)

comm_fuel : (n a b : ℕ) → a ≤ n → b ≤ n → bit_xor a b ≡ bit_xor b a
comm_fuel zero zero zero p q = refl
comm_fuel zero zero (suc b) p q = absurd (omega arith)
comm_fuel zero (suc a) b p q = absurd (omega arith)
comm_fuel (suc n) zero zero p q = refl
comm_fuel (suc n) zero (suc b) p q = omega (
  arith,
  bit_xor_step 0 (suc b),
  bit_xor_step (suc b) 0,
  comm_fuel n 0 (suc b / 2) (omega arith) (omega arith),
)
comm_fuel (suc n) (suc a) b p q = omega (
  arith,
  bit_xor_step (suc a) b,
  bit_xor_step b (suc a),
  comm_fuel n (suc a / 2) (b / 2) (omega arith) (omega arith),
)

pub bit_xor_comm : (a b : ℕ) → bit_xor a b ≡ bit_xor b a
bit_xor_comm a b = comm_fuel (a + b) a b (omega arith) (omega arith)

pub bit_xor-zero : (a : ℕ) → bit_xor a 0 ≡ a
bit_xor-zero a = bit_xor_comm a 0 ∙ zero-bit_xor a

assoc_fuel : (n a b c : ℕ) → a ≤ n → bit_xor (bit_xor a b) c ≡ bit_xor a (bit_xor b c)
assoc_fuel n zero b c p = rw (zero-bit_xor, zero-bit_xor)
assoc_fuel zero (suc a) b c p = absurd (omega arith)
assoc_fuel (suc n) (suc a) b c p =
    let half : bit_xor (bit_xor (suc a) b) c / 2 ≡ bit_xor (suc a) (bit_xor b c) / 2 =
      rw
        (
          bit_xor-half (bit_xor (suc a) b) c,
          bit_xor-half (suc a) (bit_xor b c),
          bit_xor-half (suc a) b,
          bit_xor-half b c,
        )
        (assoc_fuel n (suc a / 2) (b / 2) (c / 2) (omega arith)) in
    eq_of_half _ _ half (
      omega (
        arith,
        bit_xor-parity (bit_xor (suc a) b) c,
        bit_xor-parity (suc a) b,
        bit_xor-parity (suc a) (bit_xor b c),
        bit_xor-parity b c,
      ))

pub bit_xor_assoc : (a b c : ℕ) → bit_xor (bit_xor a b) c ≡ bit_xor a (bit_xor b c)
bit_xor_assoc a b c = assoc_fuel a a b c (le_refl a)

self_fuel : (n a : ℕ) → a ≤ n → bit_xor a a ≡ 0
self_fuel n zero p = refl
self_fuel zero (suc a) p = absurd (omega arith)
self_fuel (suc n) (suc a) p =
    omega (arith, bit_xor_step (suc a) (suc a), self_fuel n (suc a / 2) (omega arith))

pub bit_xor_self : (a : ℕ) → bit_xor a a ≡ 0
bit_xor_self a = self_fuel a a (le_refl a)

pub bit_xor_cancel : (a b : ℕ) → bit_xor a (bit_xor a b) ≡ b
bit_xor_cancel a b = sym (bit_xor_assoc a a b) ∙ rw bit_xor_self (zero-bit_xor b)

pub bit_xor_injective : (a b c : ℕ) → bit_xor a b ≡ bit_xor a c → b ≡ c
bit_xor_injective a b c e = sym (bit_xor_cancel a b) ∙ ap (bit_xor a) e ∙ bit_xor_cancel a c

-- Shifts.
bit_xor-quarter : (a b : ℕ) → bit_xor a b / 4 ≡ bit_xor (a / 4) (b / 4)
bit_xor-quarter a b =
    bit_xor a b / 4
    ≡⟨ omega (arith, bit_xor-half a b) ⟩ bit_xor (a / 2) (b / 2) / 2
    ≡⟨ bit_xor-half (a / 2) (b / 2) ⟩ bit_xor (a / 2 / 2) (b / 2 / 2)
    ≡⟨ ap₂ bit_xor (omega arith) (omega arith) ⟩ bit_xor (a / 4) (b / 4) ∎

bit_xor-div_16 : (a b : ℕ) → bit_xor a b / 16 ≡ bit_xor (a / 16) (b / 16)
bit_xor-div_16 a b =
    bit_xor a b / 16
    ≡⟨ omega (arith, bit_xor-quarter a b) ⟩ bit_xor (a / 4) (b / 4) / 4
    ≡⟨ bit_xor-quarter (a / 4) (b / 4) ⟩ bit_xor (a / 4 / 4) (b / 4 / 4)
    ≡⟨ ap₂ bit_xor (omega arith) (omega arith) ⟩ bit_xor (a / 16) (b / 16) ∎

pub bit_xor-div_byte : (a b : ℕ) → bit_xor a b / 256 ≡ bit_xor (a / 256) (b / 256)
bit_xor-div_byte a b =
    bit_xor a b / 256
    ≡⟨ omega (arith, bit_xor-div_16 a b) ⟩ bit_xor (a / 16) (b / 16) / 16
    ≡⟨ bit_xor-div_16 (a / 16) (b / 16) ⟩ bit_xor (a / 16 / 16) (b / 16 / 16)
    ≡⟨ ap₂ bit_xor (omega arith) (omega arith) ⟩ bit_xor (a / 256) (b / 256) ∎

bit_and-halves : (x y : ℕ) → bit_and x y ≡ min (x % 2) (y % 2) + 2 * bit_and (x / 2) (y / 2)
bit_and-halves zero y = simp bit_and-bitwise (omega arith)
bit_and-halves (suc x) y =
    simp bit_and-bitwise (omega (arith, bitwise-positive (λ rest. 0) min x y))

bit_and-nothing : (bound x : ℕ) → x < suc bound → bit_and x 0 ≡ 0
bit_and-nothing bound zero h = refl
bit_and-nothing zero (suc x) h = absurd (omega arith)
bit_and-nothing (suc bound) (suc x) h =
    let shorter = bit_and-nothing bound (suc x / 2) (omega arith) in
    omega (arith, bit_and-halves (suc x) 0)

-- Masks of two ones and more.
mask_two : (x : ℕ) → bit_and x 3 ≡ x % 4
mask_two x =
    let rest = x / 2 / 2 in
    let none_left = bit_and-nothing rest rest (omega arith) in
    omega (arith, bit_and-halves x 3, bit_and-halves (x / 2) 1)

mask_four : (x : ℕ) → bit_and x 15 ≡ x % 16
mask_four x = omega (arith, bit_and-halves x 15, bit_and-halves (x / 2) 7, mask_two (x / 2 / 2))

mask_six : (x : ℕ) → bit_and x 63 ≡ x % 64
mask_six x = omega (arith, bit_and-halves x 63, bit_and-halves (x / 2) 31, mask_four (x / 2 / 2))

pub bit_and_byte : (a : ℕ) → bit_and a 0xff ≡ a % 256
bit_and_byte a =
    omega (arith, bit_and-halves a 255, bit_and-halves (a / 2) 127, mask_six (a / 2 / 2))

half_top : (k r : ℕ) → (2 ^ suc k + r) / 2 ≡ 2 ^ k + r / 2
half_top k r = omega (arith, pow-suc 2 k)

-- A top digit that only one operand has stays.
pub bit_xor_top : (k r m : ℕ) → r < 2 ^ k → m < 2 ^ k → 2 ^ k ≤ bit_xor (2 ^ k + r) m
bit_xor_top zero zero zero p q = omega arith
bit_xor_top zero zero (suc m) p q = absurd (omega arith)
bit_xor_top zero (suc r) m p q = absurd (omega arith)
bit_xor_top (suc k) r m p q = omega (
  arith,
  pow-suc 2 k,
  bit_xor_step (2 ^ suc k + r) m,
  ap (λ (t : ℕ). bit_xor t (m / 2)) (half_top k r),
  bit_xor_top k (r / 2) (m / 2) (omega (arith, pow-suc 2 k)) (omega (arith, pow-suc 2 k)),
)

double_field : (k h : ℕ) → 2 ^ suc k * h ≡ 2 ^ k * h * 2
double_field k h = omega (arith, ap (λ (t : ℕ). t * h) (pow-suc 2 k))

half_field : (k h : ℕ) → 2 ^ suc k * h / 2 ≡ 2 ^ k * h
half_field k h = omega (arith, double_field k h)

-- Operands with no digit in common add up.
pub bit_xor_fields : (k l h : ℕ) → l < 2 ^ k → bit_xor l (2 ^ k * h) ≡ l + 2 ^ k * h
bit_xor_fields zero zero h p = zero-bit_xor (2 ^ 0 * h) ∙ omega arith
bit_xor_fields zero (suc l) h p = absurd (omega arith)
bit_xor_fields (suc k) l h p = omega (
  arith,
  double_field k h,
  bit_xor_step l (2 ^ suc k * h),
  ap (λ (t : ℕ). bit_xor (l / 2) t) (half_field k h),
  bit_xor_fields k (l / 2) h (omega (arith, pow-suc 2 k)),
)

-- A table of all the values below `bound`.
unfoldable pub all_below : ℕ → (ℕ → Bool) → Bool
all_below zero test = true
all_below (suc bound) test = test bound && all_below bound test

pub all_below-lt :
    (bound x : ℕ) (test : ℕ → Bool) → x < bound → all_below bound test ≡ true → test x ≡ true
unfolding all_below
all_below-lt zero x test inside h = absurd (omega arith)
all_below-lt (suc bound) x test inside h = ground (arith, all_below-lt bound x test)
