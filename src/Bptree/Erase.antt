-- ===== src/Bptree/Erase.antt =====
-- The abstract map of src/bplustree.c without a key.
use binjson_structures.Shared.{
  suc, ◌≡◌, refl, ap, arith, true, false, List, [], ◌∷◌, ◌++◌, inl, inr, if◌then◌else◌, length,
  Bool-cases,
}
use binjson_structures.Bptree.Key.{Key, key_cmp, key_eq}
use binjson_structures.Bptree.Order.{key_cmp-above, Ordering-cases}
use binjson_structures.Bptree.Entries.{Entry, Every, Before, Behind, has}

-- The entries without the one of the key.
abbrev pub erase : Key → List Entry → List Entry
erase key [] = []
erase key ((k, v) ∷ es) = if key_eq key k then es else (k, v) ∷ erase key es

pub erase-left :
    (key : Key) (l m : List Entry) → Before key l → erase key (l ++ m) ≡ l ++ erase key m
erase-left key [] m _ = refl
erase-left key ((k, v) ∷ l) m (h, hs) =
    rw (erase, key_cmp-above k key h) (ap (λ (r : List Entry). (k, v) ∷ r) (erase-left key l m hs))

pub erase-none : (key : Key) (r : List Entry) → Behind key r → erase key r ≡ r
erase-none key [] _ = refl
erase-none key ((k, v) ∷ r) (h, hs) =
    rw (erase, h.below) (ap (λ (s : List Entry). (k, v) ∷ s) (erase-none key r hs))

pub erase-right :
    (key : Key) (m r : List Entry) → Behind key r → erase key (m ++ r) ≡ erase key m ++ r
erase-right key [] r h = erase-none key r h
erase-right key ((k, v) ∷ m) r h = elim (Ordering-cases (key_cmp key k)) [
  | inl e ↦ rw (erase, e) (ap (λ (s : List Entry). (k, v) ∷ s) (erase-right key m r h))
  | inr (inl e) ↦ rw (erase, e) refl
  | inr (inr e) ↦ rw (erase, e) (ap (λ (s : List Entry). (k, v) ∷ s) (erase-right key m r h))
]

pub erase-Every :
    (P : Key → Type 0) (key : Key) (es : List Entry) → Every P es → Every P (erase key es)
erase-Every P key [] h = tt
erase-Every P key ((k, v) ∷ es) (h, hs) = elim (Ordering-cases (key_cmp key k)) [
  | inl e ↦ rw (erase, e) (h, erase-Every P key es hs)
  | inr (inl e) ↦ rw (erase, e) hs
  | inr (inr e) ↦ rw (erase, e) (h, erase-Every P key es hs)
]

pub length-erase :
    (key : Key) (es : List Entry)
    → (if has key es then suc (length (erase key es)) else length (erase key es)) ≡ length es
length-erase key [] = refl
length-erase key ((k, v) ∷ es) = elim (Ordering-cases (key_cmp key k)) [
  | inl e ↦ rw (erase, has, e) (ground (arith, length-erase key es))
  | inr (inl e) ↦ rw (erase, has, e) refl
  | inr (inr e) ↦ rw (erase, has, e) (ground (arith, length-erase key es))
]

pub erase-absent : (key : Key) (es : List Entry) → has key es ≡ false → erase key es ≡ es
erase-absent key [] h = refl
erase-absent key ((k, v) ∷ es) h = elim (Bool-cases (key_eq key k)) [
  | inl e ↦ absurd (opposed (rw e at h))
  | inr e ↦ rw (erase, e) (ap (λ (s : List Entry). (k, v) ∷ s) (erase-absent key es (rw e at h)))
]
  where
    opposed : true ≡ false → ⊥
    opposed e = cc
