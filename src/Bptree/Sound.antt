-- ===== src/Bptree/Sound.antt =====
-- A tree's entries ascend and satisfy the tree's bounds, and the bounds may be weakened.
use binjson_structures.Shared.{ℕ, zero, suc, sym, List, [], ◌∷◌}
use binjson_structures.Bptree.Key.{Key}
use binjson_structures.Bptree.Entries.{
  Entry, Every, Every-map, Every-append, Ascending, Ascending-append,
}
use binjson_structures.Bptree.Tree.{
  View, Trees, Content, Under, From, Over, Forest, Rows, Body, IsTree,
}

abbrev pub Bounded : Trees → Type 1
Bounded T = (P : Key → Type 0) (c : ℕ) (es : List Entry) → T P c es → Every P es

abbrev pub Weakens : Trees → Type 1
Weakens T =
    (P Q : Key → Type 0) → ((x : Key) → P x → Q x) → (c : ℕ) (es : List Entry) → T P c es → T Q c es

module _ (T : Trees) where
  pub Forest-weaken :
      Weakens T
      → (P Q : Key → Type 0) → ((x : Key) → P x → Q x)
      → (ks : List Key) (cs : List ℕ) (es : List Entry) → Forest T P ks cs es
      → Forest T Q ks cs es
  Forest-weaken w P Q f [] [] es no_way = elim no_way [ ]
  Forest-weaken w P Q f [] (c ∷ []) es t = w P Q f c es t
  Forest-weaken w P Q f [] (c ∷ (d ∷ cs)) es no_way = elim no_way [ ]
  Forest-weaken w P Q f (k ∷ ks) [] es no_way = elim no_way [ ]
  Forest-weaken w P Q f (k ∷ ks) (c ∷ cs) es (l, r, e, pk, t, low, rest) = (
    l,
    r,
    e,
    f k pk,
    w (Under P k) (Under Q k) (λ x g. (f x g.0, g.1)) c l t,
    low,
    Forest-weaken w (From P k) (From Q k) (λ x g. (f x g.0, g.1)) ks cs r rest,
  )

  pub Forest-Every :
      Bounded T
      → (P : Key → Type 0) (ks : List Key) (cs : List ℕ) (es : List Entry) → Forest T P ks cs es
      → Every P es
  Forest-Every s P [] [] es no_way = elim no_way [ ]
  Forest-Every s P [] (c ∷ []) es t = s P c es t
  Forest-Every s P [] (c ∷ (d ∷ cs)) es no_way = elim no_way [ ]
  Forest-Every s P (k ∷ ks) [] es no_way = elim no_way [ ]
  Forest-Every s P (k ∷ ks) (c ∷ cs) es (l, r, e, pk, t, low, rest) = rw e (
      Every-append P l r (Every-map (λ x g. g.0) l (s (Under P k) c l t))
        (Every-map (λ x g. g.0) r (Forest-Every s (From P k) ks cs r rest)))

  pub Forest-Ascending :
      Bounded T
      → ((P : Key → Type 0) (c : ℕ) (es : List Entry) → T P c es → Ascending es)
      → (P : Key → Type 0) (ks : List Key) (cs : List ℕ) (es : List Entry) → Forest T P ks cs es
      → Ascending es
  Forest-Ascending s a P [] [] es no_way = elim no_way [ ]
  Forest-Ascending s a P [] (c ∷ []) es t = a P c es t
  Forest-Ascending s a P [] (c ∷ (d ∷ cs)) es no_way = elim no_way [ ]
  Forest-Ascending s a P (k ∷ ks) [] es no_way = elim no_way [ ]
  Forest-Ascending s a P (k ∷ ks) (c ∷ cs) es (l, r, e, pk, t, low, rest) = rw e (
      Ascending-append k l r low (Every-map (λ x g. g.1) r (Forest-Every s (From P k) ks cs r rest))
        (a (Under P k) c l t) (Forest-Ascending s a (From P k) ks cs r rest))

module _ {F : Type 0} (view : View F) where
  pub Rows-weaken :
      (f : F) (P Q : Key → Type 0)
      → ((x : Key) → P x → Q x)
      → (ks : List Key) (bs : List (List ℕ)) (es : List Entry) → Rows view f P ks bs es
      → Rows view f Q ks bs es
  Rows-weaken f P Q w [] [] [] h = tt
  Rows-weaken f P Q w [] [] (e ∷ es) no_way = elim no_way [ ]
  Rows-weaken f P Q w [] (b ∷ bs) es no_way = elim no_way [ ]
  Rows-weaken f P Q w (k ∷ ks) [] es no_way = elim no_way [ ]
  Rows-weaken f P Q w (k ∷ ks) (b ∷ bs) [] no_way = elim no_way [ ]
  Rows-weaken f P Q w (k ∷ ks) (b ∷ bs) ((j, v) ∷ es) (e, hv, pk, rest) =
      (e, hv, w k pk, Rows-weaken f (Over P k) (Over Q k) (λ x g. (w x g.0, g.1)) ks bs es rest)

  pub Rows-Every :
      (f : F) (P : Key → Type 0) (ks : List Key) (bs : List (List ℕ)) (es : List Entry)
      → Rows view f P ks bs es
      → Every P es
  Rows-Every f P [] [] [] h = tt
  Rows-Every f P [] [] (e ∷ es) no_way = elim no_way [ ]
  Rows-Every f P [] (b ∷ bs) es no_way = elim no_way [ ]
  Rows-Every f P (k ∷ ks) [] es no_way = elim no_way [ ]
  Rows-Every f P (k ∷ ks) (b ∷ bs) [] no_way = elim no_way [ ]
  Rows-Every f P (k ∷ ks) (b ∷ bs) ((j, v) ∷ es) (e, hv, pk, rest) =
      (rw e at pk, Every-map (λ x g. g.0) es (Rows-Every f (Over P k) ks bs es rest))

  pub Rows-Ascending :
      (f : F) (P : Key → Type 0) (ks : List Key) (bs : List (List ℕ)) (es : List Entry)
      → Rows view f P ks bs es
      → Ascending es
  Rows-Ascending f P [] [] [] h = tt
  Rows-Ascending f P [] [] (e ∷ es) no_way = elim no_way [ ]
  Rows-Ascending f P [] (b ∷ bs) es no_way = elim no_way [ ]
  Rows-Ascending f P (k ∷ ks) [] es no_way = elim no_way [ ]
  Rows-Ascending f P (k ∷ ks) (b ∷ bs) [] no_way = elim no_way [ ]
  Rows-Ascending f P (k ∷ ks) (b ∷ bs) ((j, v) ∷ es) (e, hv, pk, rest) = (
    rw (sym e) (Every-map (λ x g. g.1) es (Rows-Every f (Over P k) ks bs es rest)),
    Rows-Ascending f (Over P k) ks bs es rest,
  )

  pub Body-weaken :
      (h : ℕ) (f : F) (P Q : Key → Type 0)
      → ((x : Key) → P x → Q x)
      → (q : Content) (es : List Entry) → Body view h f P q es
      → Body view h f Q q es
  unfolding Body
  Body-weaken zero f P Q w q es (l, r) = (l, Rows-weaken f P Q w q.keys q.values es r)
  Body-weaken (suc h) f P Q w q es (l, t) = (
    l,
    Forest-weaken (IsTree view h f) (λ P Q w c es t. (t.0, t.1, Body-weaken h f P Q w t.0 es t.2)) P
        Q w q.keys q.children es t,
  )

  pub IsTree_weaken : (h : ℕ) (f : F) → Weakens (IsTree view h f)
  IsTree_weaken h f P Q w c es (q, e, b) = (q, e, Body-weaken h f P Q w q es b)

  pub Body-Every :
      (h : ℕ) (f : F) (P : Key → Type 0) (q : Content) (es : List Entry)
      → Body view h f P q es
      → Every P es
  unfolding Body
  Body-Every zero f P q es (l, r) = Rows-Every f P q.keys q.values es r
  Body-Every (suc h) f P q es (l, t) =
      Forest-Every (IsTree view h f) (λ P c es t. Body-Every h f P t.0 es t.2) P q.keys q.children
        es t

  pub IsTree-Every : (h : ℕ) (f : F) → Bounded (IsTree view h f)
  IsTree-Every h f P c es (q, e, b) = Body-Every h f P q es b

  pub Body-Ascending :
      (h : ℕ) (f : F) (P : Key → Type 0) (q : Content) (es : List Entry)
      → Body view h f P q es
      → Ascending es
  unfolding Body
  Body-Ascending zero f P q es (l, r) = Rows-Ascending f P q.keys q.values es r
  Body-Ascending (suc h) f P q es (l, t) =
      Forest-Ascending (IsTree view h f) (IsTree-Every h f)
        (λ P c es t. Body-Ascending h f P t.0 es t.2) P q.keys q.children es t

  pub IsTree-Ascending :
      (h : ℕ) (f : F) (P : Key → Type 0) (c : ℕ) (es : List Entry)
      → IsTree view h f P c es
      → Ascending es
  IsTree-Ascending h f P c es (q, e, b) = Body-Ascending h f P q es b
