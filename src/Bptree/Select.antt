-- ===== src/Bptree/Select.antt =====
-- The entries of a range, on which a walk of src/bplustree.c has to agree.
use binjson_structures.Shared.{
  ℕ, suc, ◌-◌, ◌≡◌, refl, ap, arith, inl, inr, Bool, true, false, ◌||◌, none, some, List, [], ◌∷◌,
  ◌++◌, length, take, if◌then◌else◌, Bool-cases,
}
use binjson_structures.Bptree.Key.{Key, key_cmp, is_lt}
use binjson_structures.Bptree.Order.{key_cmp-above}
use binjson_structures.Bptree.Search.{Range, outside}
use binjson_structures.Bptree.Entries.{Entry, Before, Behind}
use binjson_structures.Bptree.Position.{Stored}

-- Bounds that may be stored.
abbrev pub Bounds : Range → Type 0
Bounds none = Unit
Bounds (some (mn, mx)) = Stored mn × Stored mx

-- The entries of a range.
abbrev pub select : Range → List Entry → List Entry
select range [] = []
select range ((k, v) ∷ es) = if outside range k then select range es else (k, v) ∷ select range es

pub select_all : (es : List Entry) → select none es ≡ es
select_all [] = refl
select_all ((k, v) ∷ es) = ap (λ (r : List Entry). (k, v) ∷ r) (select_all es)

pub select-append :
    (range : Range) (l r : List Entry) → select range (l ++ r) ≡ select range l ++ select range r
select-append range [] r = refl
select-append range ((k, v) ∷ l) r = elim (Bool-cases (outside range k)) [
  | inl out ↦ rw (select, out) (select-append range l r)
  | inr here ↦ rw (select, here) (ap (λ (s : List Entry). (k, v) ∷ s) (select-append range l r))
]

pub select-Before : (mn mx : Key) (es : List Entry) → Before mn es → select (some (mn, mx)) es ≡ []
select-Before mn mx [] _ = refl
select-Before mn mx ((k, v) ∷ es) (h, hs) = rw h.below (select-Before mn mx es hs)

pub select-Behind : (mn mx : Key) (es : List Entry) → Behind mx es → select (some (mn, mx)) es ≡ []
select-Behind mn mx [] _ = refl
select-Behind mn mx ((k, v) ∷ es) (h, hs) =
    rw (key_cmp-above mx k h, or_true (is_lt (key_cmp k mn))) (select-Behind mn mx es hs)
  where
    or_true : (b : Bool) → (b || true) ≡ true
    or_true true = refl
    or_true false = refl

pub take-length : {A : Type 0} (xs : List A) → take (length xs) xs ≡ xs
take-length [] = refl
take-length (x ∷ xs) = rw (take-length xs) refl

pub take_whole : (cs : List ℕ) → take (suc (length cs - 1)) cs ≡ cs
take_whole [] = refl
take_whole (c ∷ cs) = rw (minus_one (length cs)) (take-length (c ∷ cs))
  where
    minus_one : (n : ℕ) → suc n - 1 ≡ n
    minus_one n = omega arith
