-- ===== src/Bptree/Position.antt =====
-- Where the searches of src/bplustree.c stop in a node whose keys ascend.
use Prim.Native.Nat.{Ordering}
use Prim.Native.Nat.Ordering.{lt, eq, gt}
use binjson_structures.Shared.{
  ℕ, zero, suc, ◌≤◌, ◌<◌, ◌≡◌, refl, arith, inl, inr, Bool, true, false, not, List, [], ◌∷◌, get_or,
  length,
}
use binjson_structures.Shared.Words.{All}
use binjson_structures.Bptree.Key.{
  Key, no_key, key_cmp, is_lt, is_gt, key_storable, key_upper_bound, key_lower_bound, bound_loop,
}
use binjson_structures.Bptree.Order.{Lt, Le, Lt-Le_trans, Le_trans, Le-or-Lt}
use binjson_structures.Bptree.Bounds.{Cut, bound_loop-Cut}

abbrev pub Stored : Key → Type 0
Stored k = key_storable k ≡ true

abbrev pub IsOrdered : List Key → Type 0
IsOrdered [] = Unit
IsOrdered (k ∷ ks) = Stored k × All (λ x. Le k x) ks × IsOrdered ks

-- The separators before `i` are not above the key, the one at `i` is above it.
abbrev pub UpperAt : Key → List Key → ℕ → Type 0
UpperAt key [] i = i ≡ 0
UpperAt key (k ∷ ks) zero = Lt key k
UpperAt key (k ∷ ks) (suc i) = Le k key × UpperAt key ks i

-- The keys before `i` are below the key, the one at `i` is not.
abbrev pub LowerAt : Key → List Key → ℕ → Type 0
LowerAt key [] i = i ≡ 0
LowerAt key (k ∷ ks) zero = Le key k
LowerAt key (k ∷ ks) (suc i) = Lt k key × LowerAt key ks i

module _ (right : Key → Bool) where
  abbrev Steady : Type 0
  Steady = (a b : Key) → Le a b → right a ≡ false → right b ≡ false

  All-falls :
      (k : Key)
      → Steady
      → right k ≡ false
      → (ks : List Key) (j : ℕ) → All (λ x. Le k x) ks
      → j < length ks
      → right (get_or ks j no_key) ≡ false
  All-falls k s h [] j _ p = absurd (omega arith)
  All-falls k s h (x ∷ ks) zero (a, _) p = s k x a h
  All-falls k s h (x ∷ ks) (suc j) (a, rest) p = All-falls k s h ks j rest (omega arith)

  falls_from :
      Steady
      → (ks : List Key) → IsOrdered ks
      → (i j : ℕ) → i ≤ j
      → j < length ks
      → right (get_or ks i no_key) ≡ false
      → right (get_or ks j no_key) ≡ false
  falls_from s [] o i j h p g = absurd (omega arith)
  falls_from s (k ∷ ks) (_, a, o) zero zero h p g = g
  falls_from s (k ∷ ks) (_, a, o) zero (suc j) h p g = All-falls k s g ks j a (omega arith)
  falls_from s (k ∷ ks) o (suc i) zero h p g = absurd (omega arith)
  falls_from s (k ∷ ks) (_, a, o) (suc i) (suc j) h p g =
      falls_from s ks o i j (omega arith) (omega arith) g

  Cut-tail : (k : Key) (ks : List Key) (r : ℕ) → Cut right (k ∷ ks) (suc r) → Cut right ks r
  Cut-tail k ks r c = record {
    within = omega (arith, c.within);
    before = λ j h. c.before (suc j) (omega arith);
    behind = λ j h q. c.behind (suc j) (omega arith) (omega arith);
  }

  Cut-search :
      Steady
      → (ks : List Key) → IsOrdered ks
      → Cut right ks (bound_loop right ks (length ks) 0 (length ks))
  Cut-search s ks o =
      bound_loop-Cut right ks (record { stays_false = falls_from s ks o }) (length ks) 0 (length ks)
        (omega arith) (omega arith) (omega arith) (λ j h. absurd (omega arith))
        (λ j h q. absurd (omega arith))

module _ (key : Key) (hk : Stored key) where
  abbrev goes_up : Key → Bool
  goes_up k = not (is_lt (key_cmp key k))

  abbrev goes_low : Key → Bool
  goes_low k = is_gt (key_cmp key k)

  up-Lt : (k : Key) → Stored k → goes_up k ≡ false → Lt key k
  up-Lt k h g = record { left = hk; right = h; below = only_lt (key_cmp key k) g }
    where
      only_lt : (o : Ordering) → not (is_lt o) ≡ false → o ≡ lt
      only_lt lt e = refl
      only_lt eq e = cc
      only_lt gt e = cc

  up-Le : (k : Key) → Stored k → goes_up k ≡ true → Le k key
  up-Le k h g = elim (Le-or-Lt k key h hk) [
    | inl q ↦ q
    | inr q ↦ absurd (opposed (rw q.below at g))
  ]
    where
      opposed : false ≡ true → ⊥
      opposed e = cc

  low-Le : (k : Key) → Stored k → goes_low k ≡ false → Le key k
  low-Le k h g = record { left = hk; right = h; not_above = g }

  low-Lt : (k : Key) → Stored k → goes_low k ≡ true → Lt k key
  low-Lt k h g = elim (Le-or-Lt key k hk h) [
    | inl q ↦ absurd (opposed (rw q.not_above at g))
    | inr q ↦ q
  ]
    where
      opposed : false ≡ true → ⊥
      opposed e = cc

  up_steady : (a b : Key) → Le a b → goes_up a ≡ false → goes_up b ≡ false
  up_steady a b h g = rw ((Lt-Le_trans key a b (up-Lt a h.left g) h).below) refl

  low_steady : (a b : Key) → Le a b → goes_low a ≡ false → goes_low b ≡ false
  low_steady a b h g = (Le_trans key a b (low-Le a h.left g) h).not_above

  Cut-UpperAt : (ks : List Key) (i : ℕ) → IsOrdered ks → Cut goes_up ks i → UpperAt key ks i
  Cut-UpperAt [] i o c = omega (arith, c.within)
  Cut-UpperAt (k ∷ ks) zero (h, _, _) c = up-Lt k h (c.behind 0 (omega arith) (omega arith))
  Cut-UpperAt (k ∷ ks) (suc i) (h, _, o) c =
      (up-Le k h (c.before 0 (omega arith)), Cut-UpperAt ks i o (Cut-tail goes_up k ks i c))

  Cut-LowerAt : (ks : List Key) (i : ℕ) → IsOrdered ks → Cut goes_low ks i → LowerAt key ks i
  Cut-LowerAt [] i o c = omega (arith, c.within)
  Cut-LowerAt (k ∷ ks) zero (h, _, _) c = low-Le k h (c.behind 0 (omega arith) (omega arith))
  Cut-LowerAt (k ∷ ks) (suc i) (h, _, o) c =
      (low-Lt k h (c.before 0 (omega arith)), Cut-LowerAt ks i o (Cut-tail goes_low k ks i c))

  -- The search for the first key above `key` ends there.
  pub key_upper_bound-UpperAt :
      (ks : List Key) → IsOrdered ks → UpperAt key ks (key_upper_bound ks key)
  unfolding key_upper_bound
  key_upper_bound-UpperAt ks o = Cut-UpperAt ks _ o (Cut-search goes_up up_steady ks o)

  -- The search for the first key that is not below `key` ends there.
  pub key_lower_bound-LowerAt :
      (ks : List Key) → IsOrdered ks → LowerAt key ks (key_lower_bound ks key)
  unfolding key_lower_bound
  key_lower_bound-LowerAt ks o = Cut-LowerAt ks _ o (Cut-search goes_low low_steady ks o)

-- In ascending keys that may be stored, `key_lower_bound` ends at the first key that is not below such a
-- key, and `key_upper_bound` at the first one above it.
pub key_bounds_lem :
    (key : Key) (ks : List Key)
    → Stored key
    → IsOrdered ks
    → LowerAt key ks (key_lower_bound ks key) × UpperAt key ks (key_upper_bound ks key)
key_bounds_lem key ks h o = (key_lower_bound-LowerAt key h ks o, key_upper_bound-UpperAt key h ks o)
