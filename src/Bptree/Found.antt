-- ===== src/Bptree/Found.antt =====
-- src/bplustree.c: bpt_search finds what the tree's entries hold.
use binjson_structures.Shared.{
  ℕ, zero, suc, ◌/◌, ◌≤◌, ◌<◌, ◌≡◌, ◌⊎◌, refl, ap, sym, ◌∙◌, arith, inl, inr, Bool, true, false,
  Option, some, List, [], ◌++◌, length, get_or,
}
use binjson_structures.Shared.Result.{Result, ok, err, Err, oom}
use binjson_structures.Shared.State.{actions}
use binjson_structures.Dbuf.{Dbuf, dbuf_put}
use binjson_structures.Dbuf.Capacity.{Platform}
use binjson_structures.Dbuf.Growth.{IsValid, Put, dbuf_put_lem, dbuf_put_succeeds}
use binjson_structures.Bptree.Key.{Key, key_find, key_lower_bound, key_upper_bound}
use binjson_structures.Bptree.Node.{Node, Pages, Bpt, max_depth, on_pages}
use binjson_structures.Bptree.Search.{set_out, with_out, search_leaf, search_loop, bpt_search}
use binjson_structures.Bptree.Entries.{Entry, lookup, lookup-left, lookup-right}
use binjson_structures.Bptree.Position.{Stored, key_lower_bound-LowerAt, key_upper_bound-UpperAt}
use binjson_structures.Bptree.Tree.{View, Content, content, Rows, Forest, Body, IsTree}
use binjson_structures.Bptree.Sound.{IsTree_weaken, IsTree-Every}
use binjson_structures.Bptree.Leaf.{hit, miss, spot}
use binjson_structures.Bptree.Focus.{Focus, focus}
use binjson_structures.Bptree.Split.{Rows-IsOrdered, Forest-IsOrdered}
use binjson_structures.Bptree.Laws.{Laws, Later, Later_refl, Later_trans, Ends, Ends_bind, Ends_map}
use binjson_structures.Bptree.Moves.{Body-move}
use binjson_structures.Bptree.Refine.{IsMap, IsMap-move, Usable}

-- Memory for the buffers: malloc serves every size, or its failure is an allowed error.
abbrev pub Memory : Platform → (Err → Type 0) → Type 0
Memory plat MayFail = MayFail oom ⊎ ((n : ℕ) → plat.can_alloc n ≡ true)

module _ {F : Type 0} (view : View F) (Kept : Key → Type 0) (Value : List ℕ → Type 0)
    (MayFail : Err → Type 0) (p : Pages F) (laws : Laws view Kept Value MayFail p) (plat : Platform)
    (wide : 256 ≤ plat.size_max) (memory : Memory plat MayFail) where
  -- What a read leaves of the tree.
  pub record Read (t t' : Bpt F) : Type 0 where
    pub later : Later view t.f t'.f
    pub same : t'.m ≡ t.m
    pub out : IsValid plat t'.out

  pub Read_trans : (t u w : Bpt F) → Read t u → Read u w → Read t w
  Read_trans t u w a b = record {
    later = Later_trans view t.f u.f w.f a.later b.later;
    same = b.same ∙ a.same;
    out = b.out;
  }

  put_out :
      (v : List ℕ) (t : Bpt F) (r : Result (Unit {0}) × Dbuf)
      → Ends (λ u b. (b.bytes ≡ v) × IsValid plat b) MayFail r
      → Ends (λ u t'. (t'.out.bytes ≡ v) × Read t t') MayFail (with_out plat p t r)
  put_out v t (ok u, b) (e, w) = (e, record { later = Later_refl view t.f; same = refl; out = w })
  put_out v t (err e, b) h = h

  Put-ends :
      (v : List ℕ) (b : Dbuf) (r : Result (Unit {0}) × Dbuf)
      → b.bytes ≡ []
      → Put plat wide v b r
      → MayFail oom ⊎ ((b' : Dbuf) × (r ≡ (ok tt, b')))
      → Ends (λ u b'. (b'.bytes ≡ v) × IsValid plat b') MayFail r
  Put-ends v b (ok u, b') e (h, w) m = (rw e at h, w)
  Put-ends v b (err c, b') e (h, w) (inl m) = rw h m
  Put-ends v b (err c, b') e (h, w) (inr (b2, g)) =
      absurd (differ (ap (λ (r : Result (Unit {0}) × Dbuf). is_ok r.0) g))
    where
      is_ok : Result (Unit {0}) → Bool
      is_ok (ok u) = true
      is_ok (err c) = false

      differ : false ≡ true → ⊥
      differ h = cc

  pub set_out_lem :
      (v : List ℕ) (t : Bpt F)
      → IsValid plat t.out
      → length v ≤ plat.size_max / 2
      → Ends (λ u t'. (t'.out.bytes ≡ v) × Read t t') MayFail (set_out plat p v t)
  unfolding set_out
  set_out_lem v t valid small =
      let b : Dbuf = record (t.out) { bytes = [] } in
      let w : IsValid plat b = record { room = omega arith; bounded = valid.bounded } in
      put_out v t (dbuf_put plat v b) (
        Put-ends v b (dbuf_put plat v b) refl (dbuf_put_lem plat wide v b w) (elim memory [
          | inl m ↦ inl m
          | inr all ↦ inr (dbuf_put_succeeds plat wide v b w all (omega (arith, small)))
        ]))

  abbrev Small : List Entry → Key → Type 0
  Small es key = (v : List ℕ) → lookup key es ≡ some v → length v ≤ plat.size_max / 2

  -- The outcome of a search in a tree for `es`.
  abbrev Looked : List Entry → Key → Bpt F → Option (List ℕ) → Bpt F → Type 0
  Looked es key t r t' = (r ≡ lookup key es) × Read t t'

  read_paged :
      {A : Type 0} (P : A → Type 0) (t : Bpt F) (r : Result A × F)
      → IsValid plat t.out
      → Ends (λ a g. P a × Later view t.f g) MayFail r
      → Ends (λ (a : A) (t' : Bpt F). P a × Read t t') MayFail (r.0, record t { f = r.1 })
  read_paged P t (ok a, g) v (h, l) = (h, record { later = l; same = refl; out = v })
  read_paged P t (err e, g) v h = h

  pub parse_read :
      (c : ℕ) (q : Content) (t : Bpt F)
      → IsValid plat t.out
      → view.node_at t.f c ≡ some q
      → Ends
          (λ (n : Node) (t' : Bpt F). (content n ≡ q) × Read t t')
          MayFail
          (on_pages p (p.parse_node c) t)
  unfolding on_pages
  parse_read c q t v h =
      read_paged (λ n. content n ≡ q) t (p.parse_node c t.f) v (laws.parse c q t.f h)

  pub resolve_read :
      (b w : List ℕ) (t : Bpt F)
      → IsValid plat t.out
      → view.value_at t.f b ≡ some w
      → Ends
          (λ (x : List ℕ) (t' : Bpt F). (x ≡ w) × Read t t')
          MayFail
          (on_pages p (p.resolve_value b) t)
  unfolding on_pages
  resolve_read b w t v h =
      read_paged (λ x. x ≡ w) t (p.resolve_value b t.f) v (laws.resolve b w t.f h)

  pub Read_refl : (t : Bpt F) → IsValid plat t.out → Read t t
  Read_refl t v = record { later = Later_refl view t.f; same = refl; out = v }

  search_leaf_lem :
      (nd : Node) (P : Key → Type 0) (es : List Entry) (key : Key) (t : Bpt F)
      → ((x : Key) → P x → Stored x)
      → Stored key
      → Small es key
      → IsValid plat t.out
      → Rows view t.f P nd.keys nd.values es
      → Ends (Looked es key t) MayFail (search_leaf plat p nd (key_find nd.keys key) t)
  unfolding search_leaf key_find actions
  search_leaf_lem nd P es key t st hk small valid r =
      let i = key_lower_bound nd.keys key in
      elim (spot view t.f P key nd.keys nd.values es i r (
        key_lower_bound-LowerAt key hk nd.keys
          (Rows-IsOrdered view t.f P nd.keys nd.values es st r).1)) [
            | hit v f at look hs next ↦ rw f (
                Ends_bind _ _ MayFail (on_pages p (p.resolve_value (get_or nd.values i [])) t) _
                  (resolve_read (get_or nd.values i []) v t valid at)
                  (λ w t1 (e, r1).
                    Ends_bind _ _ MayFail (set_out plat p w t1) _
                      (set_out_lem w t1 r1.out (rw e (small v look)))
                      (λ u t2 (e2, r2). (ap some (e2 ∙ e) ∙ sym look, Read_trans t t1 t2 r1 r2))))
            | miss f look hs next ↦ rw f (sym look, Read_refl t valid)
          ]

  Focus-lookup :
      (T : (Key → Type 0) → ℕ → List Entry → Type 0) (P : Key → Type 0) (ks : List Key)
      (cs : List ℕ) (es : List Entry) (key : Key) (i : ℕ)
      → (z : Focus T P ks cs es key i) → lookup key es ≡ lookup key z.middle
  Focus-lookup T P ks cs es key i z =
      ap (lookup key) z.entries
      ∙ (lookup-left key z.before (z.middle ++ z.behind) z.below
          ∙ lookup-right key z.middle z.behind z.above)

  search_loop_lem :
      (h levels ptr : ℕ) (P : Key → Type 0) (es : List Entry) (key : Key) (t : Bpt F)
      → h < levels
      → ((x : Key) → P x → Stored x)
      → Stored key
      → Small es key
      → IsValid plat t.out
      → IsTree view h t.f P ptr es
      → Ends (Looked es key t) MayFail (search_loop plat p levels ptr key t)
  unfolding search_loop actions Body
  search_loop_lem h zero ptr P es key t l st hk small valid tree = absurd (omega arith)
  search_loop_lem zero (suc levels) ptr P es key t l st hk small valid (q, at, (is_leaf, r)) =
      Ends_bind _ _ MayFail (on_pages p (p.parse_node ptr) t) _ (parse_read ptr q t valid at)
        (λ nd t1 (e, r1).
          let rows : Rows view t1.f P nd.keys nd.values es =
            rw (sym e) at (Body-move view 0 t.f t1.f r1.later P q es (is_leaf, r)).1 in
          rw (ap (λ (c : Content). c.is_leaf) e ∙ is_leaf.0) (
            Ends_map _ _ MayFail (search_leaf plat p nd (key_find nd.keys key) t1)
              (search_leaf_lem nd P es key t1 st hk small r1.out rows)
              (λ w t2 g. (g.0, Read_trans t t1 t2 r1 g.1))))
  search_loop_lem (suc h) (suc levels) ptr P es key t l st hk small valid (q, at, (is_leaf, r)) =
      Ends_bind _ _ MayFail (on_pages p (p.parse_node ptr) t) _ (parse_read ptr q t valid at)
        (λ nd t1 (e, r1).
          let forest : Forest (IsTree view h t1.f) P nd.keys nd.children es =
            rw (sym e) at (Body-move view (suc h) t.f t1.f r1.later P q es (is_leaf, r)).1 in
          let ordered =
            (Forest-IsOrdered (IsTree view h t1.f) (IsTree_weaken view h t1.f) P nd.keys nd.children
              es st forest).1 in
          let i = key_upper_bound nd.keys key in
          let z =
            focus (IsTree view h t1.f) (IsTree-Every view h t1.f) key P nd.keys nd.children es i
              forest (key_upper_bound-UpperAt key hk nd.keys ordered) in
          let look = Focus-lookup (IsTree view h t1.f) P nd.keys nd.children es key i z in
          rw (ap (λ (c : Content). c.is_leaf) e ∙ is_leaf.0) (
            Ends_map _ _ MayFail (search_loop plat p levels (get_or nd.children i 0) key t1)
              (search_loop_lem h levels (get_or nd.children i 0) z.bound z.middle key t1
                (omega arith) (λ x g. st x (z.narrower x g)) hk (λ v g. small v (look ∙ g)) r1.out
                z.child)
              (λ w t2 g. (g.0 ∙ sym look, Read_trans t t1 t2 r1 g.1))))

  -- On a tree that stands for `es`, `bpt_search` of a key that may be stored returns what `es` holds
  -- for it and leaves a tree for `es`, or ends in an error that the file's operations and memory allow.
  pub bpt_search-lookup :
      (h : ℕ) (key : Key) (es : List Entry) (t : Bpt F)
      → h ≤ max_depth
      → Stored key
      → Small es key
      → IsValid plat t.out
      → IsMap view Kept h t es
      → Ends
          (λ r t'. (r ≡ lookup key es) × IsMap view Kept h t' es)
          MayFail
          (bpt_search plat p key t)
  unfolding bpt_search actions
  bpt_search-lookup h key es t l hk small valid i = rw hk (
      Ends_map _ _ MayFail (search_loop plat p (suc max_depth) t.m.root key t)
        (search_loop_lem h (suc max_depth) t.m.root (Usable view Kept) es key t (omega (arith, l))
          (λ x g. g.0) hk small valid i.tree)
        (λ w t' g. (g.0, IsMap-move view Kept h t t' es g.1.same g.1.later i)))
