-- ===== src/Bptree/Key.antt =====
-- The keys of src/bplustree.c, their order, and the positions in a node.
use Prim.Native.Nat.{compare, Ordering}
use Prim.Native.Nat.Ordering.{lt, eq, gt}
use binjson_structures.Shared.{
  ℕ, zero, suc, ◌+◌, ◌-◌, ◌/◌, ◌^◌, Bool, true, false, not, ◌&&◌, ◌||◌, Option, none, some, List,
  [], ◌∷◌, length, get_or, ltb, if◌then◌else◌,
}
use binjson_structures.Double.{is_nan, is_finite, is_negative, magnitude}

-- `bpt_key`. A number is a double's pattern, a string its bytes.
pub data Key : Type 0 where
  num : ℕ → Key
  str : List ℕ → Key

abbrev pub no_key : Key
no_key = num 0

-- A place on a line for each double that is no NaN: the negative ones fall from 2^63.
abbrev pub place : ℕ → ℕ
place x = if is_negative x then 2 ^ 63 - magnitude x else 2 ^ 63 + magnitude x

-- `a < b` of two doubles.
abbrev pub double_lt : ℕ → ℕ → Bool
double_lt a b = not (is_nan a || is_nan b) && ltb (place a) (place b)

abbrev pub double_cmp : ℕ → ℕ → Ordering
double_cmp a b = if double_lt a b then lt else if double_lt b a then gt else eq

-- `memcmp` on the shorter length, then the lengths.
unfoldable pub bytes_cmp : List ℕ → List ℕ → Ordering
bytes_cmp [] [] = eq
bytes_cmp [] (y ∷ ys) = lt
bytes_cmp (x ∷ xs) [] = gt
bytes_cmp (x ∷ xs) (y ∷ ys) = elim (compare x y) [ lt ↦ lt | eq ↦ bytes_cmp xs ys | gt ↦ gt ]

unfoldable pub key_cmp : Key → Key → Ordering
unfolding bytes_cmp
key_cmp (num a) (num b) = double_cmp a b
key_cmp (num a) (str b) = lt
key_cmp (str a) (num b) = gt
key_cmp (str a) (str b) = bytes_cmp a b

-- The three results of a comparison as the code tests them.
abbrev pub is_lt : Ordering → Bool
is_lt lt = true
is_lt eq = false
is_lt gt = false

abbrev pub is_eq : Ordering → Bool
is_eq lt = false
is_eq eq = true
is_eq gt = false

abbrev pub is_gt : Ordering → Bool
is_gt lt = false
is_gt eq = false
is_gt gt = true

abbrev pub key_eq : Key → Key → Bool
key_eq a b = is_eq (key_cmp a b)

-- The loop of the two searches: `right` says whether a key sends it to the upper half. A round
-- takes one position at least, so as many rounds as positions are enough.
unfoldable pub bound_loop : (Key → Bool) → List Key → ℕ → ℕ → ℕ → ℕ
bound_loop right keys zero lo hi = lo
bound_loop right keys (suc rounds) lo hi =
    let mid = lo + (hi - lo) / 2 in
    let go = right (get_or keys mid no_key) in
    let rest = bound_loop right keys rounds (if go then mid + 1 else lo) (if go then hi else mid) in
    if ltb lo hi then rest else lo

-- The first position with a key above `key`.
unfoldable pub key_upper_bound : List Key → Key → ℕ
unfolding bound_loop
key_upper_bound keys key =
    bound_loop (λ k. not (is_lt (key_cmp key k))) keys (length keys) 0 (length keys)

-- The first position with a key that is not below `key`.
unfoldable pub key_lower_bound : List Key → Key → ℕ
unfolding bound_loop
key_lower_bound keys key =
    bound_loop (λ k. is_gt (key_cmp key k)) keys (length keys) 0 (length keys)

unfoldable pub key_find : List Key → Key → Option ℕ
unfolding key_lower_bound
key_find keys key =
    let i = key_lower_bound keys key in
    if ltb i (length keys) && key_eq key (get_or keys i no_key) then some i else none

unfoldable pub key_storable : Key → Bool
key_storable (num x) = is_finite x
key_storable (str s) = true

unfoldable pub bound_valid : Key → Bool
bound_valid (num x) = not (is_nan x)
bound_valid (str s) = true
