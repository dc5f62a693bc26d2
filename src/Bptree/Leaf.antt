-- ===== src/Bptree/Leaf.antt =====
-- A leaf of src/bplustree.c as a map: what the search for a key finds in it, and its next content.
use binjson_structures.Shared.{
  ℕ, zero, suc, ◌≡◌, refl, sym, arith, inl, inr, Bool, true, false, ◌&&◌, none, some, List, [], ◌∷◌,
  get_or, set, length, ltb,
}
use binjson_structures.Bptree.Key.{Key, no_key, key_eq}
use binjson_structures.Bptree.Order.{Lt, Le, key_cmp-above, key_cmp-cases, Lt_trans}
use binjson_structures.Bptree.Position.{LowerAt}
use binjson_structures.Bptree.Insert.{insert_at}
use binjson_structures.Bptree.Entries.{
  Entry, Every-map, Behind, lookup, lookup-none, has, has-none, insert,
}
use binjson_structures.Bptree.Tree.{View, Rows, Over}
use binjson_structures.Bptree.Sound.{Rows-weaken, Rows-Every}

-- The key stands at position `i`.
abbrev pub found : Key → List Key → ℕ → Bool
found key ks i = ltb i (length ks) && key_eq key (get_or ks i no_key)

module _ {F : Type 0} (view : View F) where
  -- The values of one state are those of another.
  abbrev pub Reads : F → F → Type 0
  Reads f g = (b v : List ℕ) → view.value_at f b ≡ some v → view.value_at g b ≡ some v

  pub Rows-move :
      (f g : F)
      → Reads f g
      → (P : Key → Type 0) (ks : List Key) (bs : List (List ℕ)) (es : List Entry)
      → Rows view f P ks bs es
      → Rows view g P ks bs es
  Rows-move f g m P [] [] [] h = tt
  Rows-move f g m P [] [] (e ∷ es) no_way = elim no_way [ ]
  Rows-move f g m P [] (b ∷ bs) es no_way = elim no_way [ ]
  Rows-move f g m P (k ∷ ks) [] es no_way = elim no_way [ ]
  Rows-move f g m P (k ∷ ks) (b ∷ bs) [] no_way = elim no_way [ ]
  Rows-move f g m P (k ∷ ks) (b ∷ bs) ((j, v) ∷ es) (e, hv, pk, rest) =
      (e, m b v hv, pk, Rows-move f g m (Over P k) ks bs es rest)

  -- What the search for a key tells of a leaf.
  pub data Spot (f : F) (P : Key → Type 0) (ks : List Key) (bs : List (List ℕ)) (es : List Entry)
      (key : Key) (i : ℕ) : Type 0 where
    hit :
        (v : List ℕ)
        → found key ks i ≡ true
        → view.value_at f (get_or bs i []) ≡ some v
        → lookup key es ≡ some v
        → has key es ≡ true
        → ((g : F) (b w : List ℕ)
            → Reads f g
            → view.value_at g b ≡ some w
            → Rows view g P ks (set bs i b) (insert key w es))
        → Spot f P ks bs es key i
    miss :
        found key ks i ≡ false
        → lookup key es ≡ none
        → has key es ≡ false
        → ((g : F) (b w : List ℕ)
            → Reads f g
            → view.value_at g b ≡ some w
            → P key
            → Rows view g P (insert_at i key ks) (insert_at i b bs) (insert key w es))
        → Spot f P ks bs es key i

  -- A key before the first one, or equal to it.
  here :
      (f : F) (P : Key → Type 0) (k key : Key) (ks : List Key) (b : List ℕ) (bs : List (List ℕ))
      (v : List ℕ) (es : List Entry)
      → Le key k
      → view.value_at f b ≡ some v
      → P k
      → Rows view f (Over P k) ks bs es
      → Spot f P (k ∷ ks) (b ∷ bs) ((k, v) ∷ es) key 0
  here f P k key ks b bs v es h hv pk rest = elim (key_cmp-cases key k h.left h.right) [
    | inl q ↦
        let none_behind : Behind key es =
          Every-map (λ x g. Lt_trans key k x q g.1) es
            (Rows-Every view f (Over P k) ks bs es rest) in
        miss (rw q.below (ground arith)) (rw (q.below, lookup-none key es none_behind) refl)
          (rw (q.below, has-none key es none_behind) refl)
          (λ g b' w m hw pkey.
            rw (insert, q.below)
              (
                refl,
                hw,
                pkey,
                (
                  refl,
                  m b v hv,
                  (pk, q),
                  Rows-weaken view g (Over P k) (Over (Over P key) k)
                      (λ x a. ((a.0, Lt_trans key k x q a.1), a.1)) ks bs es
                      (Rows-move f g m (Over P k) ks bs es rest),
                ),
              ))
    | inr (inl e) ↦
        hit v (rw e (ground arith)) hv (rw e refl) (rw e refl)
          (λ g b' w m hw. rw (insert, e) (refl, hw, pk, Rows-move f g m (Over P k) ks bs es rest))
    | inr (inr q) ↦ absurd (opposed (rw (key_cmp-above k key q) at h.not_above))
  ]
    where
      opposed : true ≡ false → ⊥
      opposed e = cc

  there :
      (f : F) (P : Key → Type 0) (k key : Key) (ks : List Key) (b : List ℕ) (bs : List (List ℕ))
      (v : List ℕ) (es : List Entry) (i : ℕ)
      → Lt k key
      → view.value_at f b ≡ some v
      → P k
      → Spot f (Over P k) ks bs es key i
      → Spot f P (k ∷ ks) (b ∷ bs) ((k, v) ∷ es) key (suc i)
  there f P k key ks b bs v es i h hv pk (hit u t hu l hs next) =
      let above = key_cmp-above k key h in
      hit u (found_suc i t) hu (rw above l) (rw above hs)
        (λ g b' w m hw. rw (insert, above) (refl, m b v hv, pk, next g b' w m hw))
    where
      found_suc : (i : ℕ) → found key ks i ≡ true → found key (k ∷ ks) (suc i) ≡ true
      found_suc i t = ground (arith, t)
  there f P k key ks b bs v es i h hv pk (miss t l hs next) =
      let above = key_cmp-above k key h in
      miss (found_suc i t) (rw above l) (rw above hs)
        (λ g b' w m hw pkey. rw (insert, above) (refl, m b v hv, pk, next g b' w m hw (pkey, h)))
    where
      found_suc : (i : ℕ) → found key ks i ≡ false → found key (k ∷ ks) (suc i) ≡ false
      found_suc i t = ground (arith, t)

  pub spot :
      (f : F) (P : Key → Type 0) (key : Key) (ks : List Key) (bs : List (List ℕ)) (es : List Entry)
      (i : ℕ)
      → Rows view f P ks bs es
      → LowerAt key ks i
      → Spot f P ks bs es key i
  spot f P key [] [] [] i r h =
      miss (ground arith) refl refl (λ g b w m hw pkey. rw h (refl, hw, pkey, tt))
  spot f P key [] [] (e ∷ es) i no_way h = elim no_way [ ]
  spot f P key [] (b ∷ bs) es i no_way h = elim no_way [ ]
  spot f P key (k ∷ ks) [] es i no_way h = elim no_way [ ]
  spot f P key (k ∷ ks) (b ∷ bs) [] i no_way h = elim no_way [ ]
  spot f P key (k ∷ ks) (b ∷ bs) ((j, v) ∷ es) zero (e, hv, pk, rest) h =
      rw (sym e) (here f P k key ks b bs v es h hv pk rest)
  spot f P key (k ∷ ks) (b ∷ bs) ((j, v) ∷ es) (suc i) (e, hv, pk, rest) (h, hs) =
      rw (sym e) (there f P k key ks b bs v es i h hv pk (spot f (Over P k) key ks bs es i rest hs))
