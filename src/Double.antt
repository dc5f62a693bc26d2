-- ===== src/Double.antt =====
-- IEEE-754 doubles as their 64-bit patterns: what include/bjcursor.h and src/keyenc.c do with a
-- `double` (conversion from and to integers, tests, order).
pub mod Convert
use binjson_structures.Shared.{
  ℕ, zero, suc, ◌+◌, ◌-◌, ◌*◌, ◌/◌, ◌%◌, ◌^◌, ◌<◌, ◌≡◌, ◌⊎◌, Bool, true, false, not, ◌&&◌, ◌||◌,
  ltb, leb, ◌==◌, if◌then◌else◌,
}

abbrev pub sign_bit : ℕ
sign_bit = 2 ^ 63

-- The pattern without its sign.
abbrev pub magnitude : ℕ → ℕ
magnitude bits = bits % 2 ^ 63

abbrev pub exponent : ℕ → ℕ
exponent bits = bits / 2 ^ 52 % 2 ^ 11

abbrev pub fraction : ℕ → ℕ
fraction bits = bits % 2 ^ 52

abbrev pub infinity : ℕ
infinity = 2047 * 2 ^ 52

abbrev pub is_nan : ℕ → Bool
is_nan bits = ltb infinity (magnitude bits)

abbrev pub is_finite : ℕ → Bool
is_finite bits = ltb (magnitude bits) infinity

abbrev pub is_zero : ℕ → Bool
is_zero bits = magnitude bits == 0

abbrev pub is_sign_set : ℕ → Bool
is_sign_set bits = leb sign_bit bits

-- `d < 0` of a double that is no NaN.
abbrev pub is_negative : ℕ → Bool
is_negative bits = is_sign_set bits && not (is_zero bits)

-- `d == floor(d)` of a finite double. Below exponent 1023 the magnitude is less than 1; from 1076
-- on there is no fraction.
unfoldable pub is_integral : ℕ → Bool
is_integral bits =
    if is_zero bits
    then true
    else if ltb (exponent bits) 1023
    then false
    else if leb (exponent bits) 1075
    then (2 ^ 52 + fraction bits) % 2 ^ (1075 - exponent bits) == 0
    else true

-- The pattern of 2^53 - 1.
abbrev pub max_safe_int : ℕ
max_safe_int = 0x433FFFFFFFFFFFFF

-- `is_safe_int` of include/bjcursor.h: the patterns of one sign are ordered as the numbers are.
unfoldable pub is_safe_int : ℕ → Bool
unfolding is_integral
is_safe_int bits =
    if not (is_finite bits)
    then false
    else if ltb max_safe_int (magnitude bits)
    then false
    else is_integral bits

-- `(uint64_t)d` of a non-negative integral double below 2^53.
unfoldable pub to_u64 : ℕ → ℕ
to_u64 bits = if is_zero bits then 0 else (2 ^ 52 + fraction bits) / 2 ^ (1075 - exponent bits)

-- The place of the highest digit of `m`, on fuel: 0 if `m` is below 2.
unfoldable pub log2 : ℕ → ℕ → ℕ
log2 zero m = 0
log2 (suc fuel) m = let rest = log2 fuel (m / 2) in if ltb m 2 then 0 else suc rest

-- A significand of 53 bits for `m` with its highest digit at `e`: exact up to 52, and rounded to
-- nearest, ties to even, above.
unfoldable pub significand : ℕ → ℕ → ℕ
significand m e =
    if leb e 52
    then m * 2 ^ (52 - e)
    else let unit = 2 ^ (e - 52) in
      let q = m / unit in
      let r = m % unit in
      if ltb (2 * r) unit then q else if ltb unit (2 * r) then q + 1 else q + q % 2

-- A rounding up to 2^53 carries into the exponent.
unfoldable pub of_magnitude : ℕ → ℕ
unfolding log2 significand
of_magnitude m =
    if m == 0 then 0 else let e = log2 64 m in (e + 1023) * 2 ^ 52 + significand m e - 2 ^ 52

-- `(double)v` for an int64_t given by its pattern.
unfoldable pub of_int64 : ℕ → ℕ
unfolding of_magnitude
of_int64 v = if ltb v (2 ^ 63) then of_magnitude v else sign_bit + of_magnitude (2 ^ 64 - v)

-- The order of doubles that are no NaN: by sign, then by magnitude, with -0 equal to +0.
abbrev pub DoubleLt : ℕ → ℕ → Type 0
DoubleLt a b =
    if is_negative a
    then if is_negative b then (magnitude b < magnitude a) else Unit {0}
    else if is_negative b
    then ⊥
    else (magnitude a < magnitude b)
