-- ===== src/Bptree/Joined.antt =====
-- Two neighbouring nodes of src/bplustree.c in one, and a leaf without a key.
use binjson_structures.Shared.{
  ℕ, zero, suc, ◌≡◌, refl, ap, sym, ◌∙◌, arith, true, List, [], ◌∷◌, ◌++◌, append_assoc,
}
use binjson_structures.Bptree.Key.{Key, key_eq}
use binjson_structures.Bptree.Delete.{remove_at}
use binjson_structures.Bptree.Order.{Lt, Lt-Le_trans, Le_trans, key_cmp-above}
use binjson_structures.Bptree.Entries.{Entry, Every-right, Before}
use binjson_structures.Bptree.Erase.{erase}
use binjson_structures.Bptree.Tree.{View, Trees, Rows, Forest, Under, From, Over}
use binjson_structures.Bptree.Position.{LowerAt}
use binjson_structures.Bptree.Leaf.{found}
use binjson_structures.Bptree.Sound.{Weakens, Rows-weaken, Forest-weaken}

module _ {F : Type 0} (view : View F) (f : F) where
  pub Rows-append :
      (P : Key → Type 0) (k : Key) (ks js : List Key) (bs cs : List (List ℕ)) (es ds : List Entry)
      → Rows view f (Under P k) ks bs es
      → Before k es
      → Rows view f (From P k) js cs ds
      → Rows view f P (ks ++ js) (bs ++ cs) (es ++ ds)
  Rows-append P k [] js [] cs [] ds _ _ r = Rows-weaken view f (From P k) P (λ x g. g.0) js cs ds r
  Rows-append P k [] js [] cs (e ∷ es) ds no_way _ r = elim no_way [ ]
  Rows-append P k [] js (b ∷ bs) cs es ds no_way _ r = elim no_way [ ]
  Rows-append P k (x ∷ ks) js [] cs es ds no_way _ r = elim no_way [ ]
  Rows-append P k (x ∷ ks) js (b ∷ bs) cs [] ds no_way _ r = elim no_way [ ]
  Rows-append P k (x ∷ ks) js (b ∷ bs) cs ((j, v) ∷ es) ds (e, hv, px, rest) (low, lows) r =
      let below : Lt x k = rw e low in
      (
        e,
        hv,
        px.0,
        Rows-append (Over P x) k ks js bs cs es ds
            (Rows-weaken view f (Over (Under P k) x) (Under (Over P x) k)
              (λ y g. ((g.0.0, g.1), g.0.1)) ks bs es rest)
            lows
            (Rows-weaken view f (From P k) (From (Over P x) k)
              (λ y g. ((g.0, Lt-Le_trans x k y below g.1), g.1)) js cs ds r),
      )

  tail_found :
      (key k : Key) (ks : List Key) (i : ℕ)
      → found key (k ∷ ks) (suc i) ≡ true
      → found key ks i ≡ true
  tail_found key k ks i h = ground (arith, h)

  head_found : (key k : Key) (ks : List Key) → found key (k ∷ ks) 0 ≡ true → key_eq key k ≡ true
  head_found key k ks h = ground (arith, h)

  -- The leaf without the key that is there.
  pub Rows-erase :
      (P : Key → Type 0) (key : Key) (ks : List Key) (bs : List (List ℕ)) (es : List Entry) (i : ℕ)
      → Rows view f P ks bs es
      → LowerAt key ks i
      → found key ks i ≡ true
      → Rows view f P (remove_at i ks) (remove_at i bs) (erase key es)
  Rows-erase P key [] bs es i r h t = absurd (none_there i t)
    where
      none_there : (i : ℕ) → found key [] i ≡ true → ⊥
      none_there i t = ground (arith, t)
  Rows-erase P key (k ∷ ks) [] es i no_way h t = elim no_way [ ]
  Rows-erase P key (k ∷ ks) (b ∷ bs) [] i no_way h t = elim no_way [ ]
  Rows-erase P key (k ∷ ks) (b ∷ bs) ((j, v) ∷ es) zero (e, hv, pk, rest) h t =
      rw (sym e, erase, head_found key k ks t)
        (Rows-weaken view f (Over P k) P (λ x g. g.0) ks bs es rest)
  Rows-erase P key (k ∷ ks) (b ∷ bs) ((j, v) ∷ es) (suc i) (e, hv, pk, rest) (h, hs) t =
      rw (sym e, erase, key_cmp-above k key h)
        (refl, hv, pk, Rows-erase (Over P k) key ks bs es i rest hs (tail_found key k ks i t))

module _ (T : Trees) (w : Weakens T) where
  pub Forest-append :
      (P : Key → Type 0) (k : Key) (ks js : List Key) (cs ds : List ℕ) (es fs : List Entry)
      → Forest T (Under P k) ks cs es
      → Before k es
      → P k
      → Forest T (From P k) js ds fs
      → Forest T P (ks ++ (k ∷ js)) (cs ++ ds) (es ++ fs)
  Forest-append P k [] js [] ds es fs no_way low pk r = elim no_way [ ]
  Forest-append P k [] js (c ∷ []) ds es fs t low pk r = (es, fs, refl, pk, t, low, r)
  Forest-append P k [] js (c ∷ (d ∷ cs)) ds es fs no_way low pk r = elim no_way [ ]
  Forest-append P k (x ∷ ks) js [] ds es fs no_way low pk r = elim no_way [ ]
  Forest-append P k (x ∷ ks) js (c ∷ cs) ds es fs (l, m, e, px, t, lx, rest) low pk r = (
    l,
    m ++ fs,
    ap (λ (s : List Entry). s ++ fs) e ∙ append_assoc l m fs,
    px.0,
    w (Under (Under P k) x) (Under P x) (λ y g. (g.0.0, g.1)) c l t,
    lx,
    Forest-append (From P x) k ks js cs ds m fs
        (Forest-weaken T w (From (Under P k) x) (Under (From P x) k) (λ y g. ((g.0.0, g.1), g.0.1))
          ks cs m rest)
        (Every-right (λ y. Lt y k) l m (rw e at low)) (pk, px.1)
        (Forest-weaken T w (From P k) (From (From P x) k)
          (λ y g. ((g.0, Le_trans x k y px.1 g.1), g.1)) js ds fs r),
  )
