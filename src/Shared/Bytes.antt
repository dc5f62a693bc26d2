-- ===== src/Shared/Bytes.antt =====
-- Words as bytes in both orders, and the order of byte strings.
use native.Mathlib.Nat.{pow-suc, mul-add-mod_self_left, mod-eq_of_lt, mod-lt, div-add-mod}
use native.Mathlib.Decide.{dec_lt}
use binjson_structures.Shared.{
  ℕ, zero, suc, ◌+◌, ◌*◌, ◌/◌, ◌%◌, ◌^◌, ◌≤◌, ◌<◌, ◌≡◌, ◌⊎◌, inl, inr, refl, ap, ◌∙◌, arith, List,
  [], ◌∷◌, ◌++◌, length,
}
use binjson_structures.Shared.Words.{IsByte, All}

-- The `n` low bytes of a word, lowest first.
unfoldable pub le_bytes : ℕ → ℕ → List ℕ
le_bytes zero v = []
le_bytes (suc n) v = (v % 256) ∷ le_bytes n (v / 256)

-- The number that the first `n` bytes spell, lowest first. Missing bytes count as 0.
unfoldable pub le_word : ℕ → List ℕ → ℕ
le_word zero p = 0
le_word (suc n) [] = 0
le_word (suc n) (b ∷ p) = b + 256 * le_word n p

-- The `n` low bytes of a word, highest first: `v >> 8 * (n - 1 - i)` for each `i`.
unfoldable pub be_bytes : ℕ → ℕ → List ℕ
be_bytes zero v = []
be_bytes (suc n) v = (v / 256 ^ n % 256) ∷ be_bytes n v

pub length-le_bytes : (n v : ℕ) → length (le_bytes n v) ≡ n
unfolding le_bytes
length-le_bytes zero v = refl
length-le_bytes (suc n) v = ap suc (length-le_bytes n (v / 256))

pub le_bytes-IsByte : (n v : ℕ) → All IsByte (le_bytes n v)
unfolding le_bytes
le_bytes-IsByte zero v = tt
le_bytes-IsByte (suc n) v = (omega arith, le_bytes-IsByte n (v / 256))

pub le_word-le_bytes :
    (n v : ℕ) (rest : List ℕ) → v < 256 ^ n → le_word n (le_bytes n v ++ rest) ≡ v
unfolding le_word le_bytes
le_word-le_bytes zero v rest h = omega arith
le_word-le_bytes (suc n) v rest h =
    omega (arith, pow-suc 256 n, le_word-le_bytes n (v / 256) rest (omega (arith, pow-suc 256 n)))

pub pow_pos : (n : ℕ) → 0 < 256 ^ n
pow_pos zero = omega arith
pow_pos (suc n) = omega (arith, pow-suc 256 n, pow_pos n)

pub le_word-lt : (n : ℕ) (p : List ℕ) → All IsByte p → le_word n p < 256 ^ n
unfolding le_word
le_word-lt zero p h = omega arith
le_word-lt (suc n) [] h = pow_pos (suc n)
le_word-lt (suc n) (b ∷ p) (hb, hp) = omega (arith, pow-suc 256 n, le_word-lt n p hp)

-- `memcmp`, then the shorter first.
abbrev pub LexLt : List ℕ → List ℕ → Type 0
LexLt xs [] = ⊥
LexLt [] (y ∷ ys) = Unit
LexLt (x ∷ xs) (y ∷ ys) = (x < y) ⊎ ((x ≡ y) × LexLt xs ys)

top_fits : (h p r : ℕ) → h < 256 → r < p → h * p + r < 256 * p
top_fits h p r a b = grind arith

-- The top byte and the rest of a word.
div_mod_split : (p v : ℕ) → 0 < p → v % (256 * p) ≡ v / p % 256 * p + v % p
div_mod_split p v hp =
    ap (λ t. t % (256 * p)) shape
    ∙ mul-add-mod_self_left (256 * p) (v / p / 256) (v / p % 256 * p + v % p)
    ∙ mod-eq_of_lt fits
  where
    shape : v ≡ 256 * p * (v / p / 256) + (v / p % 256 * p + v % p)
    shape = omega (arith, div-add-mod v p, ap (λ (t : ℕ). p * t) (div-add-mod (v / p) 256))

    fits : v / p % 256 * p + v % p < 256 * p
    fits = top_fits (v / p % 256) p (v % p) (omega arith) (mod-lt v hp)

split_top : (n v : ℕ) → v % 256 ^ suc n ≡ v / 256 ^ n % 256 * 256 ^ n + v % 256 ^ n
split_top n v =
    ap (λ t. v % t) (pow-suc 256 n ∙ omega arith) ∙ div_mod_split (256 ^ n) v (pow_pos n)

above : (y x p r q : ℕ) → y < x → q < p → x * p + r < y * p + q → ⊥
above y x p r q gt hq h = omega (arith, scaled)
  where
    scaled : suc y * p ≤ x * p
    scaled = grind arith

-- Two numbers with top bytes `x` and `y` are ordered by these first.
top_order : (x y p r q : ℕ) → r < p → q < p → x * p + r < y * p + q → (x < y) ⊎ ((x ≡ y) × (r < q))
top_order x y p r q hr hq h = elim (dec_lt x y) [
  | yes lt ↦ inl lt
  | no ge ↦ elim (dec_lt y x) [
    | yes gt ↦ absurd (above y x p r q gt hq h)
    | no le ↦
        let same : x ≡ y = omega arith in inr (same, omega (arith, ap (λ (t : ℕ). t * p) same))
  ]
]

-- Big-endian bytes are ordered as the numbers are, whatever follows them.
pub be_bytes-LexLt :
    (n a b : ℕ) (s t : List ℕ)
    → a % 256 ^ n < b % 256 ^ n
    → LexLt (be_bytes n a ++ s) (be_bytes n b ++ t)
unfolding be_bytes
be_bytes-LexLt zero a b s t h = absurd (omega arith)
be_bytes-LexLt (suc n) a b s t h =
    elim (top_order _ _ _ _ _ (mod-lt a (pow_pos n)) (mod-lt b (pow_pos n))
      (omega (arith, split_top n a, split_top n b))) [
        | inl lt ↦ inl lt
        | inr (eq, rest) ↦ inr (eq, be_bytes-LexLt n a b s t rest)
      ]

pub LexLt-append : (p xs ys : List ℕ) → LexLt xs ys → LexLt (p ++ xs) (p ++ ys)
LexLt-append [] xs ys h = h
LexLt-append (x ∷ p) xs ys h = inr (refl, LexLt-append p xs ys h)

pub be_bytes-IsByte : (n v : ℕ) → All IsByte (be_bytes n v)
unfolding be_bytes
be_bytes-IsByte zero v = tt
be_bytes-IsByte (suc n) v = (omega arith, be_bytes-IsByte n v)

pub length-be_bytes : (n v : ℕ) → length (be_bytes n v) ≡ n
unfolding be_bytes
length-be_bytes zero v = refl
length-be_bytes (suc n) v = ap suc (length-be_bytes n v)
