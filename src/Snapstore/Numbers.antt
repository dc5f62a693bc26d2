-- ===== src/Snapstore/Numbers.antt =====
-- The generation numbers in the names of src/snapstore.c.
use binjson_structures.Shared.{
  ℕ, zero, suc, ◌+◌, ◌*◌, ◌/◌, ◌%◌, ◌^◌, ◌≤◌, ◌<◌, ◌≡◌, refl, ap, ◌∙◌, arith, true, false, ◌&&◌,
  ◌||◌, some, List, [], ◌∷◌, length, get_or, ltb, ◌==◌, Bool-cases, inl, inr,
}
use native.Mathlib.Nat.{pow-suc}
use binjson_structures.Snapstore.{digits_from, u64_digits, parse_digits, parse_u64}

-- One digit more.
parse_digit :
    (v d : ℕ) (cs : List ℕ)
    → d < 10
    → v * 10 + d < 2 ^ 64
    → parse_digits v ((48 + d) ∷ cs) ≡ parse_digits (v * 10 + d) cs
unfolding parse_digits
parse_digit v d cs small fits = ground arith

parse-digits_from :
    (n v : ℕ) (acc : List ℕ)
    → v < 10 ^ suc n
    → v < 2 ^ 64
    → parse_digits 0 (digits_from (suc n) v acc) ≡ parse_digits v acc
unfolding digits_from
parse-digits_from zero v acc small fits =
    let one : (v / 10 == 0) ≡ true = ground arith in
    rw one (
      parse_digit 0 (v % 10) acc (omega arith) (omega arith)
      ∙ ap (λ (x : ℕ). parse_digits x acc) (omega arith))
parse-digits_from (suc n) v acc small fits = elim (Bool-cases (v / 10 == 0)) [
  | inl one ↦ rw one (
      parse_digit 0 (v % 10) acc (omega arith) (omega arith)
      ∙ ap (λ (x : ℕ). parse_digits x acc) (ground arith))
  | inr several ↦ rw several (
      parse-digits_from n (v / 10) ((48 + v % 10) ∷ acc) (omega (arith, pow-suc 10 (suc n)))
        (omega arith)
      ∙ (parse_digit (v / 10) (v % 10) acc (omega arith) (omega arith)
          ∙ ap (λ (x : ℕ). parse_digits x acc) (omega arith)))
]

length-digits_from :
    (n v : ℕ) (acc : List ℕ)
    → (1 ≤ length (digits_from (suc n) v acc))
      × (length (digits_from (suc n) v acc) ≤ suc n + length acc)
unfolding digits_from
length-digits_from zero v acc = elim (Bool-cases (v / 10 == 0)) [
  | inl one ↦ rw one (omega arith, omega arith)
  | inr several ↦ rw several (omega arith, omega arith)
]
length-digits_from (suc n) v acc = elim (Bool-cases (v / 10 == 0)) [
  | inl one ↦ rw one (omega arith, omega arith)
  | inr several ↦
      let (lo, hi) = length-digits_from n (v / 10) ((48 + v % 10) ∷ acc) in
      rw several (lo, omega arith)
]

-- A number above 0 does not start with "0".
first-digits_from :
    (n v : ℕ) (acc : List ℕ) → 0 < v → v < 10 ^ suc n → 48 < get_or (digits_from (suc n) v acc) 0 0
unfolding digits_from
first-digits_from zero v acc pos small =
    let one : (v / 10 == 0) ≡ true = ground arith in rw one (omega arith)
first-digits_from (suc n) v acc pos small = elim (Bool-cases (v / 10 == 0)) [
  | inl one ↦ rw one (ground arith)
  | inr several ↦ rw several (
      first-digits_from n (v / 10) ((48 + v % 10) ∷ acc) (ground arith)
        (omega (arith, pow-suc 10 (suc n))))
]

parse_u64_lem :
    (p : List ℕ) (v : ℕ)
    → 1 ≤ length p
    → length p ≤ 20
    → (ltb 1 (length p) && get_or p 0 0 == 48) ≡ false
    → parse_digits 0 p ≡ some v
    → parse_u64 p ≡ some v
unfolding parse_u64
parse_u64_lem p v lo hi lead e =
    let sized : (length p == 0 || ltb 20 (length p)) ≡ false = ground arith in rw (sized, lead) e

lead_lem : (n c : ℕ) → 48 < c → (ltb 1 n && c == 48) ≡ false
lead_lem n c h = ground arith

unpadded :
    (v : ℕ)
    → v < 2 ^ 64
    → (ltb 1 (length (u64_digits v)) && get_or (u64_digits v) 0 0 == 48) ≡ false
unpadded zero fits = unfold u64_digits digits_from in refl
unpadded (suc v) fits =
    lead_lem (length (u64_digits (suc v))) (get_or (u64_digits (suc v)) 0 0)
      (unfold u64_digits in first-digits_from 19 (suc v) [] (omega arith) (omega arith))

-- A uint64_t reads back from its decimal digits.
pub parse_u64-u64_digits : (v : ℕ) → v < 2 ^ 64 → parse_u64 (u64_digits v) ≡ some v
parse_u64-u64_digits v fits =
    parse_u64_lem (u64_digits v) v (unfold u64_digits in (length-digits_from 19 v []).0)
      (unfold u64_digits in (length-digits_from 19 v []).1) (unpadded v fits)
      (unfold u64_digits in
        (parse-digits_from 19 v [] (omega arith) fits ∙ (unfold parse_digits in refl)))
