-- ===== src/Bptree/Grown.antt =====
-- src/bplustree.c: the walk of bpt_add from a node to a leaf and back inserts into the entries.
use binjson_structures.Shared.{
  ℕ, zero, suc, ◌≤◌, ◌<◌, ◌≡◌, refl, ap, sym, ◌∙◌, arith, Bool, List, ◌++◌, get_or, set,
}
use binjson_structures.Shared.Result.{Err}
use binjson_structures.Shared.State.{actions}
use binjson_structures.Bptree.Key.{Key, key_lower_bound, key_upper_bound}
use binjson_structures.Bptree.Node.{Node, leaf, internal, Pages, Bpt, on_pages}
use binjson_structures.Bptree.Insert.{
  AddRes, whole, split, add_leaf, add_child, add_node, insert_at, split_at, grow_internal,
  grow_leaf,
}
use binjson_structures.Bptree.Entries.{
  Entry, Every, insert, has, has-left, has-right, insert-left, insert-right, insert-Every,
}
use binjson_structures.Bptree.Position.{key_lower_bound-LowerAt, key_upper_bound-UpperAt}
use binjson_structures.Bptree.Tree.{View, Content, content, Rows, Forest, Body, IsTree, Under, From}
use binjson_structures.Bptree.Sound.{IsTree_weaken, IsTree-Every}
use binjson_structures.Bptree.Leaf.{hit, miss, spot}
use binjson_structures.Bptree.Focus.{Focus, focus}
use binjson_structures.Bptree.Split.{Rows-IsOrdered, Forest-IsOrdered}
use binjson_structures.Bptree.Laws.{Laws, Later, Later_trans, Ends, Ends_bind, Ends_map}
use binjson_structures.Bptree.Moves.{Body-move, IsTree_move}
use binjson_structures.Bptree.Steps.{
  Steps, Steps-trans, built_bind, save_bind, store_step, parse_step, IsWritable-move,
}
use binjson_structures.Bptree.Added.{
  Sane, Grown, Fresh-leaf, Fresh-internal, grow_leaf_lem, grow_internal_lem,
}

module _ {F : Type 0} (view : View F) (Kept : Key → Type 0) (Value : List ℕ → Type 0)
    (MayFail : Err → Type 0) (p : Pages F) (laws : Laws view Kept Value MayFail p) where
  Steps-order : (t t' : Bpt F) → Steps view t t' → 2 ≤ t.m.order → 2 ≤ t'.m.order
  Steps-order t t' s h = rw s.same h

  add_leaf_lem :
      (nd : Node) (P : Key → Type 0) (es : List Entry) (key : Key) (val : List ℕ) (t : Bpt F)
      → Sane Kept P
      → 2 ≤ t.m.order
      → P key
      → Value val
      → Rows view t.f P nd.keys nd.values es
      → Ends
          (λ res t'.
            Steps view t t' × Grown view Kept 0 t'.f P (insert key val es) (has key es) res)
          MayFail
          (add_leaf p nd key val t)
  unfolding add_leaf actions
  add_leaf_lem nd P es key val t s o pk hv r =
      let i = key_lower_bound nd.keys key in
      let place = spot view t.f P key nd.keys nd.values es i r (
        key_lower_bound-LowerAt key (s.stored key pk) nd.keys
          (Rows-IsOrdered view t.f P nd.keys nd.values es s.stored r).1) in
      Ends_bind _ _ MayFail (on_pages p (p.store_value val) t) _
        (store_step view Kept Value MayFail p laws val t hv)
        (λ nb t1 (e, s1). elim place [
          | hit v f _ _ hs next ↦
              rw (f, hs)
                (built_bind view Kept Value MayFail p laws _
                  (leaf nd.id nd.keys (set nd.values i nb)) t1 _
                  (
                    s1,
                    (
                      refl,
                      Fresh-leaf view Kept t1.f P nd.id nd.keys (set nd.values i nb)
                          (insert key val es) s (next t1.f nb val s1.later.values e),
                    ),
                  ))
          | miss f _ hs next ↦
              rw (f, hs)
                (Ends_map _ _ MayFail
                  (grow_leaf p nd.id (insert_at i key nd.keys) (insert_at i nb nd.values) t1)
                  (grow_leaf_lem view Kept Value MayFail p laws nd.id (insert_at i key nd.keys)
                    (insert_at i nb nd.values) P (insert key val es) t1 s (Steps-order t t1 s1 o)
                    (next t1.f nb val s1.later.values e pk))
                  (λ res t2 g. (Steps-trans view t t1 t2 s1 g.0, g.1)))
        ])

  -- The child's outcome in the node: `f` is the state of the file in which the tree stood.
  add_child_lem :
      (h : ℕ) (f : F) (nd : Node) (P : Key → Type 0) (es : List Entry) (key : Key) (i : ℕ)
      (m : List Entry) (u : Bool) (res : AddRes) (t : Bpt F)
      → Sane Kept P
      → 2 ≤ t.m.order
      → (z : Focus (IsTree view h f) P nd.keys nd.children es key i) → Later view f t.f
      → Every z.strict m
      → Grown view Kept h t.f z.bound m u res
      → Ends
          (λ res' t'.
            Steps view t t' × Grown view Kept (suc h) t'.f P (z.before ++ (m ++ z.behind)) u res')
          MayFail
          (add_child p nd i res t)
  unfolding add_child actions
  add_child_lem h f nd P es key i m u (whole u' n) t s o z l st (e, w) =
      save_bind view Kept Value MayFail p laws _ n t _ w.writable (λ c t1 at s1.
        let moves = IsTree_move view h f t1.f (Later_trans view f t.f t1.f l s1.later) in
        built_bind view Kept Value MayFail p laws _ (internal nd.id nd.keys (set nd.children i c))
          t1 _
          (
            s1,
            (
              e,
              Fresh-internal view Kept h t1.f P nd.id nd.keys (set nd.children i c)
                  (z.before ++ (m ++ z.behind)) s
                  (z.plug (IsTree view h t1.f) (IsTree_weaken view h t1.f) moves c m
                    (content n, at, Body-move view h t.f t1.f s1.later z.bound (content n) m w.body)
                    st),
            ),
          ))
  add_child_lem h f nd P es key i m u (split a b k) t s o z l st (e, w) =
      save_bind view Kept Value MayFail p laws _ a t _ w.left_node.writable (λ c t1 at_c s1.
        save_bind view Kept Value MayFail p laws _ b t1 _
          (IsWritable-move view Kept t.f t1.f (content b) s1.later w.right_node.writable)
          (λ d t2 at_d s2.
            let s12 = Steps-trans view t t1 t2 s1 s2 in
            let moves = IsTree_move view h f t2.f (Later_trans view f t.f t2.f l s12.later) in
            let left_tree : IsTree view h t2.f (Under z.bound k) c w.left = (
              content a,
              s2.later.nodes c (content a) at_c,
              Body-move view h t.f t2.f s12.later (Under z.bound k) (content a) w.left
                  w.left_node.body,
            ) in
            let right_tree : IsTree view h t2.f (From z.bound k) d w.right = (
              content b,
              at_d,
              Body-move view h t.f t2.f s12.later (From z.bound k) (content b) w.right
                  w.right_node.body,
            ) in
            let forest =
              z.plug_pair (IsTree view h t2.f) (IsTree_weaken view h t2.f) moves k c d w.left
                w.right w.middle left_tree right_tree w.left_before (rw w.entries at st) in
            rw (w.entries, e)
              (Ends_map _ _ MayFail
                (grow_internal p nd.id (insert_at i k nd.keys) (split_at i c d nd.children) t2)
                (grow_internal_lem view Kept Value MayFail p laws h nd.id (insert_at i k nd.keys)
                  (split_at i c d nd.children) P (z.before ++ ((w.left ++ w.right) ++ z.behind)) t2
                  s (Steps-order t t2 s12 o) forest)
                (λ res t3 g. (Steps-trans view t t2 t3 s12 g.0, g.1)))))

  Focus-insert :
      (T : (Key → Type 0) → ℕ → List Entry → Type 0) (P : Key → Type 0) (ks : List Key)
      (cs : List ℕ) (es : List Entry) (key : Key) (val : List ℕ) (i : ℕ)
      → (z : Focus T P ks cs es key i)
      → (insert key val es ≡ z.before ++ (insert key val z.middle ++ z.behind))
        × (has key es ≡ has key z.middle)
  Focus-insert T P ks cs es key val i z = (
    ap (insert key val) z.entries
        ∙ (insert-left key val z.before (z.middle ++ z.behind) z.below
            ∙ ap (λ (s : List Entry). z.before ++ s)
                (insert-right key val z.middle z.behind z.above)),
    ap (has key) z.entries
        ∙ (has-left key z.before (z.middle ++ z.behind) z.below
            ∙ has-right key z.middle z.behind z.above),
  )

  -- The walk goes one level down per level of the tree.
  pub add_node_lem :
      (h levels : ℕ) (ptr : ℕ) (P : Key → Type 0) (es : List Entry) (key : Key) (val : List ℕ)
      (t : Bpt F)
      → h < levels
      → Sane Kept P
      → 2 ≤ t.m.order
      → P key
      → Value val
      → IsTree view h t.f P ptr es
      → Ends
          (λ res t'.
            Steps view t t' × Grown view Kept h t'.f P (insert key val es) (has key es) res)
          MayFail
          (add_node p levels ptr key val t)
  unfolding add_node actions Body
  add_node_lem h zero ptr P es key val t l s o pk hv tree = absurd (omega arith)
  add_node_lem zero (suc levels) ptr P es key val t l s o pk hv (q, at, (is_leaf, r)) =
      Ends_bind _ _ MayFail (on_pages p (p.parse_node ptr) t) _
        (parse_step view Kept Value MayFail p laws ptr q t at)
        (λ nd t1 (e, s1).
          let rows : Rows view t1.f P nd.keys nd.values es =
            rw (sym e) at (Body-move view 0 t.f t1.f s1.later P q es (is_leaf, r)).1 in
          rw (ap (λ (c : Content). c.is_leaf) e ∙ is_leaf.0) (
            Ends_map _ _ MayFail (add_leaf p nd key val t1)
              (add_leaf_lem nd P es key val t1 s (Steps-order t t1 s1 o) pk hv rows)
              (λ res t2 g. (Steps-trans view t t1 t2 s1 g.0, g.1))))
  add_node_lem (suc h) (suc levels) ptr P es key val t l s o pk hv (q, at, (is_leaf, r)) =
      Ends_bind _ _ MayFail (on_pages p (p.parse_node ptr) t) _
        (parse_step view Kept Value MayFail p laws ptr q t at)
        (λ nd t1 (e, s1).
          let forest : Forest (IsTree view h t1.f) P nd.keys nd.children es =
            rw (sym e) at (Body-move view (suc h) t.f t1.f s1.later P q es (is_leaf, r)).1 in
          let ordered =
            (Forest-IsOrdered (IsTree view h t1.f) (IsTree_weaken view h t1.f) P nd.keys nd.children
              es s.stored forest).1 in
          let i = key_upper_bound nd.keys key in
          let z =
            focus (IsTree view h t1.f) (IsTree-Every view h t1.f) key P nd.keys nd.children es i
              forest (key_upper_bound-UpperAt key (s.stored key pk) nd.keys ordered) in
          let inserted = Focus-insert (IsTree view h t1.f) P nd.keys nd.children es key val i z in
          rw (ap (λ (c : Content). c.is_leaf) e ∙ is_leaf.0, inserted.0, inserted.1)
            (Ends_bind _ _ MayFail (add_node p levels (get_or nd.children i 0) key val t1) _
              (add_node_lem h levels (get_or nd.children i 0) z.bound z.middle key val t1
                (omega arith)
                (record {
                  stored = λ x g. s.stored x (z.narrower x g);
                  kept = λ x g. s.kept x (z.narrower x g);
                })
                (Steps-order t t1 s1 o) (z.inside pk) hv z.child)
              (λ res t2 (s2, g).
                let s12 = Steps-trans view t t1 t2 s1 s2 in
                Ends_map _ _ MayFail (add_child p nd i res t2)
                  (add_child_lem h t1.f nd P es key i (insert key val z.middle) (has key z.middle)
                    res t2 s (Steps-order t t2 s12 o) z s2.later
                    (insert-Every z.strict key val z.middle z.strict_key z.strict_middle) g)
                  (λ res t3 g3. (Steps-trans view t t2 t3 s12 g3.0, g3.1)))))
