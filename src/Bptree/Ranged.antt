-- ===== src/Bptree/Ranged.antt =====
-- src/bplustree.c: the walk over a range visits some children only, and yields the entries of the range.
use binjson_structures.Shared.{
  ℕ, zero, suc, ◌≤◌, ◌<◌, ◌≡◌, refl, ap, sym, ◌∙◌, arith, inl, inr, none, some, List, [], ◌∷◌, ◌++◌,
  append-nil, length, drop, Bool-cases,
}
use binjson_structures.Shared.Result.{Err}
use binjson_structures.Shared.State.{Action, ◌>>=◌, pure, actions}
use binjson_structures.Dbuf.Capacity.{Platform}
use binjson_structures.Bptree.Key.{Key, key_upper_bound}
use binjson_structures.Bptree.Node.{Node, Pages, Bpt, on_pages}
use binjson_structures.Bptree.Order.{Lt, Le, Lt-Le_trans}
use binjson_structures.Bptree.Search.{
  Range, outside, first_child, last_child, between, collect_leaf, each, collect,
}
use binjson_structures.Bptree.Entries.{Entry, Every-map, Before}
use binjson_structures.Bptree.Position.{Stored, UpperAt, key_upper_bound-UpperAt}
use binjson_structures.Bptree.Tree.{
  View, Trees, Content, Rows, Forest, Body, IsTree, Under, From, Over,
}
use binjson_structures.Bptree.Sound.{IsTree_weaken, IsTree-Every, Forest-Every, Bounded}
use binjson_structures.Bptree.Split.{Forest-IsOrdered}
use binjson_structures.Bptree.Laws.{Laws, Ends, Ends_bind, Ends_map}
use binjson_structures.Bptree.Moves.{Body-move}
use binjson_structures.Bptree.Found.{Memory, Read, Read_refl, Read_trans, parse_read, resolve_read}
use binjson_structures.Bptree.Select.{
  Bounds, select, select-append, select-Before, select-Behind, take_whole,
}

module _ {F : Type 0} (view : View F) (Kept : Key → Type 0) (Value : List ℕ → Type 0)
    (MayFail : Err → Type 0) (p : Pages F) (laws : Laws view Kept Value MayFail p) (plat : Platform)
    (wide : 256 ≤ plat.size_max) (memory : Memory plat MayFail) where
  abbrev Saw : Bpt F → Bpt F → Type 0
  Saw = Read view Kept Value MayFail p laws plat wide memory

  -- A walk that yields the entries `es` from any later state.
  abbrev Yields : Bpt F → Action (Bpt F) (List Entry) → List Entry → Type 0
  Yields t m es = (u : Bpt F) → Saw t u → Ends (λ r w. (r ≡ es) × Saw t w) MayFail (m u)

  Saw-trans : (t u w : Bpt F) → Saw t u → Saw u w → Saw t w
  Saw-trans = Read_trans view Kept Value MayFail p laws plat wide memory

  Yields-eq :
      (t : Bpt F) (m : Action (Bpt F) (List Entry)) (es es' : List Entry)
      → es ≡ es'
      → Yields t m es'
      → Yields t m es
  Yields-eq t m es es' e h = rw e h

  abbrev entry_at : Key → List ℕ → Action (Bpt F) (List Entry)
  entry_at k b = do x ← on_pages p (p.resolve_value b); pure ((k, x) ∷ [])

  entry_at_lem :
      (t : Bpt F) (k : Key) (b v : List ℕ)
      → view.value_at t.f b ≡ some v
      → Yields t (entry_at k b) ((k, v) ∷ [])
  unfolding actions
  entry_at_lem t k b v hv u s =
      Ends_bind _ _ MayFail (on_pages p (p.resolve_value b) u) _
        (resolve_read view Kept Value MayFail p laws plat wide memory b v u s.out
          (s.later.values b v hv))
        (λ x w (ex, s1). (ap (λ (y : List ℕ). (k, y) ∷ []) ex, Saw-trans t u w s s1))

  collect_leaf_lem :
      (range : Range) (t : Bpt F) (P : Key → Type 0) (ks : List Key) (bs : List (List ℕ))
      (es : List Entry)
      → Rows view t.f P ks bs es
      → Yields t (collect_leaf plat p range ks bs) (select range es)
  unfolding collect_leaf actions
  collect_leaf_lem range t P [] [] [] r u s = (refl, s)
  collect_leaf_lem range t P [] [] (e ∷ es) no_way u s = elim no_way [ ]
  collect_leaf_lem range t P [] (b ∷ bs) es no_way u s = elim no_way [ ]
  collect_leaf_lem range t P (k ∷ ks) [] es no_way u s = elim no_way [ ]
  collect_leaf_lem range t P (k ∷ ks) (b ∷ bs) [] no_way u s = elim no_way [ ]
  collect_leaf_lem range t P (k ∷ ks) (b ∷ bs) ((j, v) ∷ es) (e, hv, pk, rest) u s =
      rw (sym e) (elim (Bool-cases (outside range k)) [
        | inl out ↦
            rw (out, select)
              (Ends_bind _ _ MayFail (collect_leaf plat p range ks bs u) _
                (collect_leaf_lem range t (Over P k) ks bs es rest u s) (λ r w g. g))
        | inr here ↦
            rw (here, select)
              (Ends_bind _ _ MayFail (entry_at k b u) _ (entry_at_lem t k b v hv u s)
                (λ x u1 (ex, s1).
                  Ends_bind _ _ MayFail (collect_leaf plat p range ks bs u1) _
                    (collect_leaf_lem range t (Over P k) ks bs es rest u1 s1)
                    (λ r w (er, s2). (rw (ex, er) refl, s2))))
      ])

  -- One child, and then the others.
  each_cons :
      (visit : ℕ → Action (Bpt F) (List Entry)) (t : Bpt F) (c : ℕ) (cs : List ℕ) (l r : List Entry)
      → Yields t (visit c) l
      → Yields t (each plat p visit cs) r
      → Yields t (each plat p visit (c ∷ cs)) (l ++ r)
  unfolding actions
  each_cons visit t c cs l r one others u s =
      Ends_bind _ _ MayFail (visit c u) _ (one u s) (λ x u1 (ex, s1).
        Ends_bind _ _ MayFail (each plat p visit cs u1) _ (others u1 s1)
          (λ y w (ey, s2). (rw (ex, ey) refl, s2)))

  each_nil :
      (visit : ℕ → Action (Bpt F) (List Entry)) (t : Bpt F) → Yields t (each plat p visit []) []
  unfolding actions
  each_nil visit t u s = (refl, s)

  module _ (T : Trees) (bound : Bounded T) (range : Range) (visit : ℕ → Action (Bpt F) (List Entry))
      (t : Bpt F)
      (walk : (P : Key → Type 0) (c : ℕ) (es : List Entry)
        → T P c es
        → Yields t (visit c) (select range es)) where
    each_all :
        (P : Key → Type 0) (ks : List Key) (cs : List ℕ) (es : List Entry)
        → Forest T P ks cs es
        → Yields t (each plat p visit cs) (select range es)
    each_all P [] [] es no_way = elim no_way [ ]
    each_all P [] (c ∷ []) es tree =
        rw⁻¹ (append-nil (select range es))
          (each_cons visit t c [] (select range es) [] (walk P c es tree) (each_nil visit t))
    each_all P [] (c ∷ (d ∷ cs)) es no_way = elim no_way [ ]
    each_all P (k ∷ ks) [] es no_way = elim no_way [ ]
    each_all P (k ∷ ks) (c ∷ cs) es (l, r, e, pk, tree, low, rest) =
        rw (e, select-append range l r)
          (each_cons visit t c cs (select range l) (select range r) (walk (Under P k) c l tree)
            (each_all (From P k) ks cs r rest))

  module _ (T : Trees) (bound : Bounded T) (mn mx : Key) (visit : ℕ → Action (Bpt F) (List Entry))
      (t : Bpt F)
      (walk : (P : Key → Type 0) (c : ℕ) (es : List Entry)
        → T P c es
        → Yields t (visit c) (select (some (mn, mx)) es)) where
    abbrev inside : List Entry → List Entry
    inside = select (some (mn, mx))

    lower_zero :
        (P : Key → Type 0) (k : Key) (ks : List Key) (cs : List ℕ) (es : List Entry)
        → Lt mn k
        → Forest T (From P k) ks cs es
        → UpperAt mn ks 0
    lower_zero P k [] cs es h f = refl
    lower_zero P k (j ∷ ks) [] es h no_way = elim no_way [ ]
    lower_zero P k (j ∷ ks) (c ∷ cs) es h (l, r, e, pj, tree, low, rest) = Lt-Le_trans mn k j h pj.1

    behind_mx :
        (P : Key → Type 0) (k : Key) (ks : List Key) (cs : List ℕ) (es : List Entry)
        → Lt mx k
        → Forest T (From P k) ks cs es
        → inside es ≡ []
    behind_mx P k ks cs es h f = select-Behind mn mx es (
        Every-map (λ x g. Lt-Le_trans mx k x h g.1) es (Forest-Every T bound (From P k) ks cs es f))

    Before-mn : (k : Key) (es : List Entry) → Le k mn → Before k es → inside es ≡ []
    Before-mn k es h low = select-Before mn mx es (Every-map (λ x g. Lt-Le_trans x k mn g h) es low)

    skip_first :
        (P : Key → Type 0) (k : Key) (es l r : List Entry)
        → es ≡ l ++ r
        → Le k mn
        → Before k l
        → inside es ≡ inside r
    skip_first P k es l r e a low =
        ap inside e
        ∙ (select-append (some (mn, mx)) l r
            ∙ ap (λ (s : List Entry). s ++ inside r) (Before-mn k l a low))

    each-between :
        (P : Key → Type 0) (ks : List Key) (cs : List ℕ) (es : List Entry) (lo hi : ℕ)
        → Forest T P ks cs es
        → UpperAt mn ks lo
        → UpperAt mx ks hi
        → Yields t (each plat p visit (between lo hi cs)) (inside es)
    each-between P [] [] es lo hi no_way a b = elim no_way [ ]
    each-between P [] (c ∷ []) es lo hi tree a b =
        rw (a, b)
          (rw⁻¹ (append-nil (inside es))
            (each_cons visit t c [] (inside es) [] (walk P c es tree) (each_nil visit t)))
    each-between P [] (c ∷ (d ∷ cs)) es lo hi no_way a b = elim no_way [ ]
    each-between P (k ∷ ks) [] es lo hi no_way a b = elim no_way [ ]
    each-between P (k ∷ ks) (c ∷ cs) es zero zero (l, r, e, pk, tree, low, rest) a b =
        rw (e, select-append (some (mn, mx)) l r, behind_mx P k ks cs r b rest)
          (each_cons visit t c [] (inside l) [] (walk (Under P k) c l tree) (each_nil visit t))
    each-between P (k ∷ ks) (c ∷ cs) es zero (suc hi) (l, r, e, pk, tree, low, rest) a (_, b) =
        rw (e, select-append (some (mn, mx)) l r)
          (each_cons visit t c (between 0 hi cs) (inside l) (inside r) (walk (Under P k) c l tree)
            (each-between (From P k) ks cs r 0 hi rest (lower_zero P k ks cs r a rest) b))
    each-between P (k ∷ ks) (c ∷ cs) es (suc lo) zero (l, r, e, pk, tree, low, rest) (a, _) b =
        Yields-eq t _ (inside es) [] (skip_first P k es l r e a low ∙ behind_mx P k ks cs r b rest)
          (nothing lo)
      where
        nothing : (n : ℕ) → Yields t (each plat p visit (drop n [])) []
        nothing zero = each_nil visit t
        nothing (suc n) = each_nil visit t
    each-between P (k ∷ ks) (c ∷ cs) es (suc lo) (suc hi) (l, r, e, pk, tree, low, rest) (a, al)
          (_, b) =
        Yields-eq t _ (inside es) (inside r) (skip_first P k es l r e a low)
          (each-between (From P k) ks cs r lo hi rest al b)

  -- A tree all of whose keys may be stored.
  abbrev Trees_of : ℕ → F → Trees
  Trees_of h f P c es = ((x : Key) → P x → Stored x) × IsTree view h f P c es

  with-Stored :
      (h : ℕ) (f : F) (P : Key → Type 0) (ks : List Key) (cs : List ℕ) (es : List Entry)
      → ((x : Key) → P x → Stored x)
      → Forest (IsTree view h f) P ks cs es
      → Forest (Trees_of h f) P ks cs es
  with-Stored h f P [] [] es st no_way = elim no_way [ ]
  with-Stored h f P [] (c ∷ []) es st tree = (st, tree)
  with-Stored h f P [] (c ∷ (d ∷ cs)) es st no_way = elim no_way [ ]
  with-Stored h f P (k ∷ ks) [] es st no_way = elim no_way [ ]
  with-Stored h f P (k ∷ ks) (c ∷ cs) es st (l, r, e, pk, tree, low, rest) = (
    l,
    r,
    e,
    pk,
    ((λ x g. st x g.0), tree),
    low,
    with-Stored h f (From P k) ks cs r (λ x g. st x g.0) rest,
  )

  node_walk :
      (range : Range)
      → Bounds range
      → (h : ℕ) (t : Bpt F) (nd : Node) (P : Key → Type 0) (es : List Entry)
        (visit : ℕ → Action (Bpt F) (List Entry))
      → ((x : Key) → P x → Stored x)
      → ((Q : Key → Type 0) (c : ℕ) (fs : List Entry)
          → Trees_of h t.f Q c fs
          → Yields t (visit c) (select range fs))
      → Forest (IsTree view h t.f) P nd.keys nd.children es
      → Yields t
          (each plat p visit (
            between
              (first_child range nd.keys)
              (last_child range nd.keys (length nd.children))
              nd.children))
          (select range es)
  node_walk none b h t nd P es visit st walk forest = rw (take_whole nd.children) (
      each_all (Trees_of h t.f) (λ Q c fs g. IsTree-Every view h t.f Q c fs g.1) none visit t walk P
        nd.keys nd.children es (with-Stored h t.f P nd.keys nd.children es st forest))
  node_walk (some (mn, mx)) (a, b) h t nd P es visit st walk forest =
      let ordered =
        (Forest-IsOrdered (IsTree view h t.f) (IsTree_weaken view h t.f) P nd.keys nd.children es st
          forest).1 in
      each-between (Trees_of h t.f) (λ Q c fs g. IsTree-Every view h t.f Q c fs g.1) mn mx visit t
        walk P nd.keys nd.children es (key_upper_bound nd.keys mn) (key_upper_bound nd.keys mx)
        (with-Stored h t.f P nd.keys nd.children es st forest)
        (key_upper_bound-UpperAt mn a nd.keys ordered)
        (key_upper_bound-UpperAt mx b nd.keys ordered)

  -- The walk visits the children that may hold keys of the range, and yields the entries of the range.
  pub collect_lem :
      (range : Range)
      → Bounds range
      → (h levels ptr : ℕ) (P : Key → Type 0) (es : List Entry) (t : Bpt F) → h < levels
      → ((x : Key) → P x → Stored x)
      → IsTree view h t.f P ptr es
      → Yields t (collect plat p levels range ptr) (select range es)
  unfolding collect actions Body
  collect_lem range b h zero ptr P es t l st tree u s = absurd (omega arith)
  collect_lem range b zero (suc levels) ptr P es t l st (q, at, (is_leaf, r)) u s =
      Ends_bind _ _ MayFail (on_pages p (p.parse_node ptr) u) _
        (parse_read view Kept Value MayFail p laws plat wide memory ptr q u s.out
          (s.later.nodes ptr q at))
        (λ nd w (e, s1).
          let sw = Saw-trans t u w s s1 in
          let rows : Rows view w.f P nd.keys nd.values es =
            rw (sym e) at (Body-move view 0 t.f w.f sw.later P q es (is_leaf, r)).1 in
          rw (ap (λ (c : Content). c.is_leaf) e ∙ is_leaf.0) (
            Ends_map _ _ MayFail (collect_leaf plat p range nd.keys nd.values w)
              (collect_leaf_lem range w P nd.keys nd.values es rows w
                (Read_refl view Kept Value MayFail p laws plat wide memory w sw.out))
              (λ x y g. (g.0, Saw-trans t w y sw g.1))))
  collect_lem range b (suc h) (suc levels) ptr P es t l st (q, at, (is_leaf, r)) u s =
      Ends_bind _ _ MayFail (on_pages p (p.parse_node ptr) u) _
        (parse_read view Kept Value MayFail p laws plat wide memory ptr q u s.out
          (s.later.nodes ptr q at))
        (λ nd w (e, s1).
          let sw = Saw-trans t u w s s1 in
          let forest : Forest (IsTree view h w.f) P nd.keys nd.children es =
            rw (sym e) at (Body-move view (suc h) t.f w.f sw.later P q es (is_leaf, r)).1 in
          rw (ap (λ (c : Content). c.is_leaf) e ∙ is_leaf.0) (
            Ends_map (λ x y. (x ≡ select range es) × Saw w y)
              (λ x y. (x ≡ select range es) × Saw t y) MayFail
              (each plat p (collect plat p levels range)
                (between (first_child range nd.keys) (last_child range nd.keys (length nd.children))
                  nd.children)
                w)
              (node_walk range b h w nd P es (collect plat p levels range) st
                (λ Q c fs g. collect_lem range b h levels c Q fs w (omega arith) g.0 g.1) forest w
                (Read_refl view Kept Value MayFail p laws plat wide memory w sw.out))
              (λ x y g. (g.0, Saw-trans t w y sw g.1))))
