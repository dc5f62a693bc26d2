-- ===== src/Double/Convert.antt =====
-- Integers below 2^53 survive the way through a double.
use native.Mathlib.Nat.{
  pow-suc, add-suc, add-zero, mul-mod_left, pow-le-pow_right, mul-le-mul_right,
  mul-lt-mul_of_pos_right, one-le-pow, mul-div_left,
}
use native.Mathlib.Decide.{dec_le}
use binjson_structures.Shared.{
  ℕ, zero, suc, ◌+◌, ◌-◌, ◌*◌, ◌/◌, ◌^◌, ◌≤◌, ◌<◌, ◌≡◌, refl, sym, ap, ◌∙◌, arith, true, false, ltb,
  leb, ◌==◌, Bool-cases, inl, inr, le→leb,
}
use binjson_structures.Double.{
  log2, significand, of_magnitude, of_int64, is_safe_int, is_integral, is_negative, to_u64,
  exponent, fraction, magnitude, max_safe_int, is_zero, is_finite, sign_bit,
}

two_pow-add : (e d : ℕ) → 2 ^ (e + d) ≡ 2 ^ e * 2 ^ d
two_pow-add e zero = simp add-zero (omega arith)
two_pow-add e (suc d) =
    simp (add-suc, pow-suc) (omega (arith, ap (λ (t : ℕ). t * 2) (two_pow-add e d)))

log2_bounds :
    (fuel m : ℕ) → 0 < m → m < 2 ^ fuel → (2 ^ log2 fuel m ≤ m) × (m < 2 ^ suc (log2 fuel m))
unfolding log2
log2_bounds zero m h k = absurd (omega arith)
log2_bounds (suc fuel) m h k = elim (Bool-cases (ltb m 2)) [
  | inl small ↦ rw small (ground arith)
  | inr large ↦
      let (lo, hi) = log2_bounds fuel (m / 2) (ground arith) (omega (arith, pow-suc 2 fuel)) in
      rw large (
        omega (arith, pow-suc 2 (log2 fuel (m / 2))),
        omega (arith, pow-suc 2 (suc (log2 fuel (m / 2)))),
      )
]

-- The exponent of a number below 2^53.
log2-lt : (m e : ℕ) → 2 ^ e ≤ m → m < 2 ^ 53 → e ≤ 52
log2-lt m e h k = elim (dec_le e 52) [
  | yes p ↦ p
  | no p ↦
      absurd (omega (arith, pow-le-pow_right {n = 2} (omega arith) {i = 53} {j = e} (omega arith)))
]

module _ (m e : ℕ) (lo : 2 ^ e ≤ m) (hi : m < 2 ^ suc e) (fits : e ≤ 52) where
  whole : 2 ^ e * 2 ^ (52 - e) ≡ 2 ^ 52
  whole = let sum : e + (52 - e) ≡ 52 = omega arith in sym (two_pow-add e (52 - e)) ∙ rw sum

  normal_lo : 2 ^ 52 ≤ m * 2 ^ (52 - e)
  normal_lo = rw (← whole) (mul-le-mul_right (2 ^ (52 - e)) lo)

  normal_hi : m * 2 ^ (52 - e) < 2 ^ 53
  normal_hi = omega (
    arith,
    whole,
    pow-suc 2 e,
    ap (λ (t : ℕ). t * 2 ^ (52 - e)) (pow-suc 2 e),
    mul-lt-mul_of_pos_right hi (one-le-pow (52 - e) 2 (omega arith)),
  )

-- The fields of a normal double put together from exponent `e` and significand `q`.
abbrev normal : ℕ → ℕ → ℕ
normal e q = (e + 1023) * 2 ^ 52 + q - 2 ^ 52

normal_fields :
    (e q : ℕ)
    → e ≤ 52
    → 2 ^ 52 ≤ q
    → q < 2 ^ 53
    → (exponent (normal e q) ≡ e + 1023)
      × (2 ^ 52 + fraction (normal e q) ≡ q)
      × (magnitude (normal e q) ≡ normal e q)
      × (0 < normal e q)
      × (normal e q ≤ max_safe_int)
normal_fields e q h lo hi = omega arith

module _ (b m e : ℕ) (fits : e ≤ 52) (nonzero : 0 < magnitude b)
    (small : magnitude b ≤ max_safe_int) (he : exponent b ≡ e + 1023)
    (hf : 2 ^ 52 + fraction b ≡ m * 2 ^ (52 - e)) where
  unit_pos : 0 < 2 ^ (52 - e)
  unit_pos = one-le-pow (52 - e) 2 (omega arith)

  not_zero : is_zero b ≡ false
  not_zero = ground arith

  unit : 1075 - exponent b ≡ 52 - e
  unit = omega arith

  to_u64-normal : to_u64 b ≡ m
  unfolding to_u64
  to_u64-normal = rw (not_zero, hf, unit) (mul-div_left m unit_pos)

  not_below : ltb (exponent b) 1023 ≡ false
  not_below = ground arith

  in_range : leb (exponent b) 1075 ≡ true
  in_range = ground arith

  is_integral-normal : is_integral b ≡ true
  unfolding is_integral
  is_integral-normal = rw (not_zero, not_below, in_range, hf, unit, mul-mod_left m (2 ^ (52 - e)))

  finite : is_finite b ≡ true
  finite = ground arith

  not_large : ltb max_safe_int (magnitude b) ≡ false
  not_large = ground arith

  is_safe_int-normal : is_safe_int b ≡ true
  unfolding is_safe_int
  is_safe_int-normal = rw (finite, not_large) is_integral-normal

-- A double that is a safe integer, is not negative, and converts back to `m`.
abbrev pub Holds : ℕ → ℕ → Type 0
Holds b m = (is_safe_int b ≡ true) × (is_negative b ≡ false) × (to_u64 b ≡ m)

normal-Holds :
    (b m e : ℕ) → 2 ^ e ≤ m → m < 2 ^ suc e → e ≤ 52 → b ≡ normal e (m * 2 ^ (52 - e)) → Holds b m
normal-Holds b m e lo hi fits shape =
    let (ex, fr, mag, pos, safe) =
      normal_fields e (m * 2 ^ (52 - e)) fits (normal_lo m e lo hi fits)
        (normal_hi m e lo hi fits) in
    let he : exponent b ≡ e + 1023 = rw shape ex in
    let hf : 2 ^ 52 + fraction b ≡ m * 2 ^ (52 - e) = rw shape fr in
    let hz : 0 < magnitude b = rw shape (rw mag pos) in
    let hs : magnitude b ≤ max_safe_int = rw shape (rw mag safe) in
    let plus : leb sign_bit b ≡ false = ground arith in
    (is_safe_int-normal b m e fits hz hs he hf, rw plus, to_u64-normal b m e fits hz hs he hf)

of_magnitude-normal :
    (m : ℕ)
    → 0 < m
    → log2 64 m ≤ 52
    → of_magnitude m ≡ normal (log2 64 m) (m * 2 ^ (52 - log2 64 m))
unfolding of_magnitude significand
of_magnitude-normal m h small =
    let nonzero : (m == 0) ≡ false = ground arith in
    let exact : leb (log2 64 m) 52 ≡ true = le→leb (log2 64 m) 52 small in rw (nonzero, exact)

zero-Holds : Holds (of_magnitude 0) 0
unfolding of_magnitude is_safe_int is_integral to_u64
zero-Holds = (refl, refl, refl)

of_magnitude-Holds : (m : ℕ) → m < 2 ^ 53 → Holds (of_magnitude m) m
of_magnitude-Holds zero h = zero-Holds
of_magnitude-Holds (suc k) h =
    let (lo, hi) = log2_bounds 64 (suc k) (omega arith) (omega arith) in
    let small : log2 64 (suc k) ≤ 52 = log2-lt (suc k) (log2 64 (suc k)) lo h in
    normal-Holds (of_magnitude (suc k)) (suc k) (log2 64 (suc k)) lo hi small
      (of_magnitude-normal (suc k) (omega arith) small)

-- An integer from 0 up to 2^53 - 1 converts to a double that reads back as that integer.
pub of_int64-Holds : (m : ℕ) → m < 2 ^ 53 → Holds (of_int64 m) m
unfolding of_int64
of_int64-Holds m h =
    let plus : ltb m (2 ^ 63) ≡ true = ground arith in rw plus (of_magnitude-Holds m h)

test_three : of_int64 3 ≡ 0x4008000000000000
unfolding of_int64
test_three = refl

test_neg : of_int64 (2 ^ 64 - 1) ≡ 0xBFF0000000000000
unfolding of_int64
test_neg = refl

test_big : of_int64 (2 ^ 53 + 1) ≡ 0x4340000000000000
unfolding of_int64
test_big = refl
