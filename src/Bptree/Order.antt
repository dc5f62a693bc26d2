-- ===== src/Bptree/Order.antt =====
-- The keys that src/bplustree.c stores are totally ordered by key_cmp.
use Prim.Native.Nat.{compare, Ordering}
use Prim.Native.Nat.Ordering.{lt, eq, gt}
use binjson_structures.Shared.{
  ℕ, ◌≡◌, ◌⊎◌, inl, inr, refl, arith, true, false, List, [], ◌∷◌, ltb, if◌then◌else◌, ap, ◌∙◌,
}
use binjson_structures.Double.{is_nan, is_finite}
use binjson_structures.Bptree.Key.{
  Key, num, str, place, double_cmp, bytes_cmp, key_cmp, key_storable, is_gt,
}

-- Two keys that may be stored, the first below the second.
pub record Lt (a b : Key) : Type 0 where
  pub left : key_storable a ≡ true
  pub right : key_storable b ≡ true
  pub below : key_cmp a b ≡ lt

-- Two keys that may be stored, the first not above the second.
pub record Le (a b : Key) : Type 0 where
  pub left : key_storable a ≡ true
  pub right : key_storable b ≡ true
  pub not_above : is_gt (key_cmp a b) ≡ false

bytes_cmp_refl : (a : List ℕ) → bytes_cmp a a ≡ eq
unfolding bytes_cmp
bytes_cmp_refl [] = refl
bytes_cmp_refl (x ∷ xs) = ground (arith, bytes_cmp_refl xs)

-- The opposite result.
abbrev flip : Ordering → Ordering
flip lt = gt
flip eq = eq
flip gt = lt

bytes_cmp-flip : (a b : List ℕ) → bytes_cmp b a ≡ flip (bytes_cmp a b)
unfolding bytes_cmp
bytes_cmp-flip [] [] = refl
bytes_cmp-flip [] (y ∷ ys) = refl
bytes_cmp-flip (x ∷ xs) [] = refl
bytes_cmp-flip (x ∷ xs) (y ∷ ys) = ground (arith, bytes_cmp-flip xs ys)

-- What two results in a row give.
abbrev After : Ordering → Ordering → Ordering → Type 0
After lt lt r = r ≡ lt
After lt eq r = r ≡ lt
After eq lt r = r ≡ lt
After eq eq r = r ≡ eq
After lt gt r = Unit
After eq gt r = r ≡ gt
After gt lt r = Unit
After gt eq r = r ≡ gt
After gt gt r = r ≡ gt

bytes_cmp_trans : (a b c : List ℕ) → After (bytes_cmp a b) (bytes_cmp b c) (bytes_cmp a c)
unfolding bytes_cmp
bytes_cmp_trans [] [] [] = refl
bytes_cmp_trans [] [] (z ∷ zs) = refl
bytes_cmp_trans [] (y ∷ ys) [] = tt
bytes_cmp_trans [] (y ∷ ys) (z ∷ zs) = ground arith
bytes_cmp_trans (x ∷ xs) [] [] = refl
bytes_cmp_trans (x ∷ xs) [] (z ∷ zs) = tt
bytes_cmp_trans (x ∷ xs) (y ∷ ys) [] = ground arith
bytes_cmp_trans (x ∷ xs) (y ∷ ys) (z ∷ zs) = ground (arith, bytes_cmp_trans xs ys zs)

compare-flip : (a b : ℕ) → compare b a ≡ flip (compare a b)
compare-flip a b = ground arith

compare_trans : (a b c : ℕ) → After (compare a b) (compare b c) (compare a c)
compare_trans a b c = ground arith

pub finite-not_nan : (x : ℕ) → is_finite x ≡ true → is_nan x ≡ false
finite-not_nan x h = ground arith

of_compare : (x y : ℕ) → (if ltb x y then lt else if ltb y x then gt else eq) ≡ compare x y
of_compare x y = ground arith

double_cmp-compare :
    (a b : ℕ)
    → is_finite a ≡ true
    → is_finite b ≡ true
    → double_cmp a b ≡ compare (place a) (place b)
double_cmp-compare a b ha hb =
    rw (finite-not_nan a ha, finite-not_nan b hb) (of_compare (place a) (place b))

key_cmp-flip :
    (a b : Key) → key_storable a ≡ true → key_storable b ≡ true → key_cmp b a ≡ flip (key_cmp a b)
unfolding key_cmp key_storable
key_cmp-flip (num a) (num b) ha hb =
    rw (double_cmp-compare a b ha hb, double_cmp-compare b a hb ha)
      (compare-flip (place a) (place b))
key_cmp-flip (num a) (str b) ha hb = refl
key_cmp-flip (str a) (num b) ha hb = refl
key_cmp-flip (str a) (str b) ha hb = bytes_cmp-flip a b

After-lt_left : (o : Ordering) → After lt o lt
After-lt_left lt = refl
After-lt_left eq = refl
After-lt_left gt = tt

After-lt_right : (o : Ordering) → After o lt lt
After-lt_right lt = refl
After-lt_right eq = refl
After-lt_right gt = tt

After-gt_left : (o : Ordering) → After gt o gt
After-gt_left lt = tt
After-gt_left eq = refl
After-gt_left gt = refl

After-gt_right : (o : Ordering) → After o gt gt
After-gt_right lt = tt
After-gt_right eq = refl
After-gt_right gt = refl

pub key_cmp_trans :
    (a b c : Key)
    → key_storable a ≡ true
    → key_storable b ≡ true
    → key_storable c ≡ true
    → After (key_cmp a b) (key_cmp b c) (key_cmp a c)
unfolding key_cmp key_storable
key_cmp_trans (num a) (num b) (num c) ha hb hc =
    rw (double_cmp-compare a b ha hb, double_cmp-compare b c hb hc, double_cmp-compare a c ha hc)
      (compare_trans (place a) (place b) (place c))
key_cmp_trans (num a) (num b) (str c) ha hb hc = After-lt_right (double_cmp a b)
key_cmp_trans (num a) (str b) (num c) ha hb hc = tt
key_cmp_trans (num a) (str b) (str c) ha hb hc = After-lt_left (bytes_cmp b c)
key_cmp_trans (str a) (num b) (num c) ha hb hc = After-gt_left (double_cmp b c)
key_cmp_trans (str a) (num b) (str c) ha hb hc = tt
key_cmp_trans (str a) (str b) (num c) ha hb hc = After-gt_right (bytes_cmp a b)
key_cmp_trans (str a) (str b) (str c) ha hb hc = bytes_cmp_trans a b c

-- Of two keys that may be stored, one is below the other or they compare equal.
combine : (o o' r : Ordering) → After o o' r → is_gt o ≡ false → is_gt o' ≡ false → is_gt r ≡ false
combine lt lt r h _ _ = rw h refl
combine lt eq r h _ _ = rw h refl
combine eq lt r h _ _ = rw h refl
combine eq eq r h _ _ = rw h refl
combine lt gt r h _ q = cc
combine eq gt r h _ q = cc
combine gt o' r h q _ = cc

combine_lt_left : (o o' r : Ordering) → After o o' r → o ≡ lt → is_gt o' ≡ false → r ≡ lt
combine_lt_left lt lt r h _ _ = h
combine_lt_left lt eq r h _ _ = h
combine_lt_left lt gt r h _ q = cc
combine_lt_left eq o' r h q _ = cc
combine_lt_left gt o' r h q _ = cc

combine_lt_right : (o o' r : Ordering) → After o o' r → is_gt o ≡ false → o' ≡ lt → r ≡ lt
combine_lt_right lt lt r h _ _ = h
combine_lt_right eq lt r h _ _ = h
combine_lt_right gt lt r h q _ = cc
combine_lt_right o eq r h _ q = cc
combine_lt_right o gt r h _ q = cc

pub Le_trans : (a b c : Key) → Le a b → Le b c → Le a c
Le_trans a b c p q = record {
  left = p.left;
  right = q.right;
  not_above =
      combine (key_cmp a b) (key_cmp b c) (key_cmp a c) (key_cmp_trans a b c p.left p.right q.right)
        p.not_above q.not_above;
}

pub Lt-Le_trans : (a b c : Key) → Lt a b → Le b c → Lt a c
Lt-Le_trans a b c p q = record {
  left = p.left;
  right = q.right;
  below =
      combine_lt_left (key_cmp a b) (key_cmp b c) (key_cmp a c)
        (key_cmp_trans a b c p.left p.right q.right) p.below q.not_above;
}

pub Le-Lt_trans : (a b c : Key) → Le a b → Lt b c → Lt a c
Le-Lt_trans a b c p q = record {
  left = p.left;
  right = q.right;
  below =
      combine_lt_right (key_cmp a b) (key_cmp b c) (key_cmp a c)
        (key_cmp_trans a b c p.left p.right q.right) p.not_above q.below;
}

pub Lt-Le : (a b : Key) → Lt a b → Le a b
Lt-Le a b p = record { left = p.left; right = p.right; not_above = ap is_gt p.below }

pub Lt_trans : (a b c : Key) → Lt a b → Lt b c → Lt a c
Lt_trans a b c p q = Lt-Le_trans a b c p (Lt-Le b c q)

cases_gt : (o : Ordering) → (is_gt o ≡ false) ⊎ (flip o ≡ lt)
cases_gt lt = inl refl
cases_gt eq = inl refl
cases_gt gt = inr refl

pub Le-or-Lt : (a b : Key) → key_storable a ≡ true → key_storable b ≡ true → Le a b ⊎ Lt b a
Le-or-Lt a b ha hb = elim (cases_gt (key_cmp a b)) [
  | inl h ↦ inl (record { left = ha; right = hb; not_above = h })
  | inr h ↦ inr (record { left = hb; right = ha; below = rw (key_cmp-flip a b ha hb) h })
]

pub key_cmp-above : (a b : Key) → Lt a b → key_cmp b a ≡ gt
key_cmp-above a b h = key_cmp-flip a b h.left h.right ∙ ap flip h.below

cases_cmp : (o : Ordering) → (o ≡ lt) ⊎ ((o ≡ eq) ⊎ (flip o ≡ lt))
cases_cmp lt = inl refl
cases_cmp eq = inr (inl refl)
cases_cmp gt = inr (inr refl)

pub key_cmp-cases :
    (a b : Key)
    → key_storable a ≡ true
    → key_storable b ≡ true
    → Lt a b ⊎ ((key_cmp a b ≡ eq) ⊎ Lt b a)
key_cmp-cases a b ha hb = elim (cases_cmp (key_cmp a b)) [
  | inl h ↦ inl (record { left = ha; right = hb; below = h })
  | inr (inl h) ↦ inr (inl h)
  | inr (inr h) ↦ inr (inr (record { left = hb; right = ha; below = key_cmp-flip a b ha hb ∙ h }))
]

pub Ordering-cases : (o : Ordering) → (o ≡ lt) ⊎ ((o ≡ eq) ⊎ (o ≡ gt))
Ordering-cases lt = inl refl
Ordering-cases eq = inr (inl refl)
Ordering-cases gt = inr (inr refl)

pub Le_refl : (a : Key) → key_storable a ≡ true → Le a a
Le_refl a h = elim (Le-or-Lt a a h h) [ inl p ↦ p | inr p ↦ Lt-Le a a p ]

fixed : (o : Ordering) → o ≡ flip o → o ≡ eq
fixed lt e = cc
fixed eq e = refl
fixed gt e = cc

pub key_cmp_refl : (a : Key) → key_storable a ≡ true → key_cmp a a ≡ eq
key_cmp_refl a h = fixed (key_cmp a a) (key_cmp-flip a a h h)
