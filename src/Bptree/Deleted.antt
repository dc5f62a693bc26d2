-- ===== src/Bptree/Deleted.antt =====
-- src/bplustree.c: the walk of bpt_delete from a node to a leaf and back erases from the entries.
use binjson_structures.Shared.{
  ℕ, zero, suc, ◌≤◌, ◌<◌, ◌≡◌, refl, ap, sym, ◌∙◌, arith, true, false, Option, none, some, List, [],
  ◌∷◌, ◌++◌, get_or, set, length,
}
use binjson_structures.Shared.Result.{Err}
use binjson_structures.Shared.State.{bind_result, actions}
use binjson_structures.Bptree.Key.{Key, no_key, key_find, key_lower_bound, key_upper_bound}
use binjson_structures.Bptree.Node.{Node, leaf, Pages, Bpt, on_pages}
use binjson_structures.Bptree.Delete.{remove_at, del_leaf, del_child, del_node}
use binjson_structures.Bptree.Order.{Lt}
use binjson_structures.Bptree.Entries.{Entry, Before, Behind, has, has-left, has-right}
use binjson_structures.Bptree.Erase.{erase, erase-left, erase-right, erase-Every}
use binjson_structures.Bptree.Tree.{View, Trees, Content, Rows, Forest, Body, IsTree, Under, From}
use binjson_structures.Bptree.Position.{
  Stored, UpperAt, key_lower_bound-LowerAt, key_upper_bound-UpperAt,
}
use binjson_structures.Bptree.Sound.{IsTree_weaken, IsTree-Every, Bounded, Weakens}
use binjson_structures.Bptree.Leaf.{hit, miss, spot}
use binjson_structures.Bptree.Split.{Rows-IsOrdered, Forest-IsOrdered}
use binjson_structures.Bptree.Laws.{Laws, Ends, Ends_bind, Ends_map}
use binjson_structures.Bptree.Moves.{Body-move}
use binjson_structures.Bptree.Steps.{Steps, Steps-refl, Steps-trans, parse_step, built_bind}
use binjson_structures.Bptree.Added.{Sane, Fresh, Fresh-leaf, Sane-Under, Sane-From}
use binjson_structures.Bptree.Pair.{KeyLeft, KeyRight, key_left, key_right}
use binjson_structures.Bptree.Joined.{Rows-erase}
use binjson_structures.Bptree.Merged.{bound_Sane}
use binjson_structures.Bptree.Balanced.{Steps-order}
use binjson_structures.Bptree.Removed.{Made, only_child_lem, left_child_lem, right_child_lem}

-- The place of the child that the key belongs to.
data Place (T : Trees) (b : Bounded T) (w : Weakens T) (P : Key → Type 0) (ks : List Key)
    (cs : List ℕ) (es : List Entry) (key : Key) (i : ℕ) : Type 1 where
  single :
      i ≡ 0
      → length cs ≡ 1
      → T P (get_or cs 0 0) es
      → ((U : Trees) (c : ℕ) (m : List Entry) → U P c m → Forest U P ks (set cs 0 c) m)
      → Place T b w P ks cs es key i
  leftmost : i ≡ 0 → KeyLeft T b w P ks cs es key → Place T b w P ks cs es key i
  inner : (li : ℕ) → i ≡ suc li → KeyRight T b w P ks cs es li key → Place T b w P ks cs es key i

Place-of :
    (T : Trees) (b : Bounded T) (w : Weakens T) (P : Key → Type 0) (ks : List Key) (cs : List ℕ)
    (es : List Entry) (key : Key) (i : ℕ)
    → Forest T P ks cs es
    → UpperAt key ks i
    → Place T b w P ks cs es key i
Place-of T b w P [] [] es key i no_way h = elim no_way [ ]
Place-of T b w P [] (c ∷ []) es key i t h = single h refl t (λ U c' m t'. t')
Place-of T b w P [] (c ∷ (d ∷ cs)) es key i no_way h = elim no_way [ ]
Place-of T b w P (k ∷ ks) cs es key zero t h = leftmost refl (key_left T b w key P k ks cs es t h)
Place-of T b w P (k ∷ ks) cs es key (suc li) t h =
    inner li refl (key_right T b w key P (k ∷ ks) cs es li t h)

-- A part in the middle that holds the key, if any does.
middle_erase :
    (key : Key) (b m h : List Entry)
    → Before key b
    → Behind key h
    → erase key (b ++ (m ++ h)) ≡ b ++ (erase key m ++ h)
middle_erase key b m h lo hi =
    erase-left key b (m ++ h) lo ∙ ap (λ (s : List Entry). b ++ s) (erase-right key m h hi)

middle_has :
    (key : Key) (b m h : List Entry)
    → Before key b
    → Behind key h
    → has key (b ++ (m ++ h)) ≡ has key m
middle_has key b m h lo hi = has-left key b (m ++ h) lo ∙ has-right key m h hi

module _ {F : Type 0} (view : View F) (Kept : Key → Type 0) (Value : List ℕ → Type 0)
    (MayFail : Err → Type 0) (p : Pages F) (laws : Laws view Kept Value MayFail p) where
  -- Nothing to delete, or the node without the key.
  abbrev pub Gone : ℕ → F → (Key → Type 0) → List Entry → Key → Option Node → Type 0
  Gone h f P es key none = has key es ≡ false
  Gone h f P es key (some n) = (has key es ≡ true) × Fresh view Kept h f P n (erase key es)

  abbrev Ended : ℕ → Bpt F → (Key → Type 0) → List Entry → Key → Option Node → Bpt F → Type 0
  Ended h t P es key r t' = Steps view t t' × Gone h t'.f P es key r

  del_leaf_lem :
      (nd : Node) (P : Key → Type 0) (es : List Entry) (key : Key) (t : Bpt F)
      → Sane Kept P
      → Stored key
      → Rows view t.f P nd.keys nd.values es
      → Ends (Ended 0 t P es key) MayFail (del_leaf p nd (key_find nd.keys key) t)
  unfolding del_leaf key_find actions
  del_leaf_lem nd P es key t s hk r =
      let i = key_lower_bound nd.keys key in
      let low =
        key_lower_bound-LowerAt key hk nd.keys
          (Rows-IsOrdered view t.f P nd.keys nd.values es s.stored r).1 in
      elim (spot view t.f P key nd.keys nd.values es i r low) [
        | hit v at _ _ hs _ ↦ rw at (
            built_bind view Kept Value MayFail p laws _
              (leaf nd.id (remove_at i nd.keys) (remove_at i nd.values)) t _
              (
                Steps-refl view t,
                (
                  hs,
                  Fresh-leaf view Kept t.f P nd.id (remove_at i nd.keys) (remove_at i nd.values)
                      (erase key es) s (Rows-erase view t.f P key nd.keys nd.values es i r low at),
                ),
              ))
        | miss at _ hs _ ↦ rw at (Steps-refl view t, hs)
      ]

  Made-gone :
      (h : ℕ) (t t1 : Bpt F) (P : Key → Type 0) (es es' : List Entry) (key : Key)
      → Steps view t t1
      → has key es ≡ true
      → erase key es ≡ es'
      → (r : Option Node) (t' : Bpt F) → Made view Kept Value MayFail p laws h t1 P es' r t'
      → Ended (suc h) t P es key r t'
  Made-gone h t t1 P es es' key s hs e none t' no_way = elim no_way [ ]
  Made-gone h t t1 P es es' key s hs e (some n) t' (s', w) =
      (Steps-trans view t t1 t' s s', (hs, rw e w))

  child_gone :
      (h : ℕ) (t t2 : Bpt F) (P B : Key → Type 0) (es m es' : List Entry) (key : Key) (nd : Node)
      (i : ℕ) (r : Option Node)
      → has key es ≡ has key m
      → erase key es ≡ es'
      → ((n : Node)
          → Fresh view Kept h t2.f B n (erase key m)
          → Ends
              (Made view Kept Value MayFail p laws h t2 P es')
              MayFail
              (del_child p nd i (some n) t2))
      → Ended h t B m key r t2
      → Ends (Ended (suc h) t P es key) MayFail (del_child p nd i r t2)
  unfolding del_child
  child_gone h t t2 P B es m es' key nd i none hs e make (s, g) = (s, hs ∙ g)
  child_gone h t t2 P B es m es' key nd i (some n) hs e make (s, (g, w)) =
      Ends_map _ _ MayFail (del_child p nd i (some n) t2) (make n w)
        (Made-gone h t t2 P es es' key s (hs ∙ g) e)

  module _ (h levels : ℕ) (nd : Node) (P : Key → Type 0) (es : List Entry) (key : Key) (t : Bpt F)
      (s : Sane Kept P) (o : 3 ≤ t.m.order)
      (walk : (B : Key → Type 0) (m : List Entry) (c : ℕ)
        → Sane Kept B
        → IsTree view h t.f B c m
        → Ends (Ended h t B m key) MayFail (del_node p levels c key t)) where
    child_walk :
        (i : ℕ)
        → Place
            (IsTree view h t.f)
            (IsTree-Every view h t.f)
            (IsTree_weaken view h t.f)
            P
            nd.keys
            nd.children
            es
            key
            i
        → Ends
            (Ended (suc h) t P es key)
            MayFail
            (bind_result (del_node p levels (get_or nd.children i 0) key t) (del_child p nd i))
    child_walk i (single i0 one tree plug) = rw i0 (
        Ends_bind _ _ MayFail (del_node p levels (get_or nd.children 0 0) key t) _
          (walk P es (get_or nd.children 0 0) s tree)
          (λ r t2 g.
            child_gone h t t2 P P es es (erase key es) key nd 0 r refl refl
              (λ n w.
                only_child_lem view Kept Value MayFail p laws h nd P (erase key es) n t2 s one w
                  plug)
              g))
    child_walk i (leftmost i0 (z, bz, rz, hz)) =
        let k = get_or nd.keys 0 no_key in
        let inside = bound_Sane view Kept Value MayFail p laws h t.f nd P es 0 s z in
        let again =
          ap (λ (x : List Entry). z.before ++ (x ++ z.behind))
            (erase-right key z.left z.right rz) in
        rw i0 (
          Ends_bind _ _ MayFail (del_node p levels (get_or nd.children 0 0) key t) _
            (walk (Under z.bound k) z.left (get_or nd.children 0 0)
              (Sane-Under view Kept z.bound k inside) z.left_tree)
            (λ r t2 g.
              child_gone h t t2 P (Under z.bound k) es z.left
                (z.before ++ ((erase key z.left ++ z.right) ++ z.behind)) key nd 0 r
                (ap (has key) z.entries
                  ∙ (middle_has key z.before (z.left ++ z.right) z.behind bz hz
                      ∙ has-right key z.left z.right rz))
                (ap (erase key) z.entries
                  ∙ (middle_erase key z.before (z.left ++ z.right) z.behind bz hz ∙ again))
                (λ n w.
                  left_child_lem view Kept Value MayFail p laws h t.f nd P es z n (erase key z.left)
                    t2 s g.0.later (Steps-order view Kept Value MayFail p laws t t2 g.0 o) w
                    (erase-Every (λ x. Lt x k) key z.left z.left_before)
                    (erase-Every z.strict key z.left z.left_strict))
                g))
    child_walk i (inner li il (z, bz, lz, hz)) =
        let k = get_or nd.keys li no_key in
        let inside = bound_Sane view Kept Value MayFail p laws h t.f nd P es li s z in
        let again =
          ap (λ (x : List Entry). z.before ++ (x ++ z.behind)) (erase-left key z.left z.right lz) in
        rw il (
          Ends_bind _ _ MayFail (del_node p levels (get_or nd.children (suc li) 0) key t) _
            (walk (From z.bound k) z.right (get_or nd.children (suc li) 0)
              (Sane-From view Kept z.bound k inside) z.right_tree)
            (λ r t2 g.
              child_gone h t t2 P (From z.bound k) es z.right
                (z.before ++ ((z.left ++ erase key z.right) ++ z.behind)) key nd (suc li) r
                (ap (has key) z.entries
                  ∙ (middle_has key z.before (z.left ++ z.right) z.behind bz hz
                      ∙ has-left key z.left z.right lz))
                (ap (erase key) z.entries
                  ∙ (middle_erase key z.before (z.left ++ z.right) z.behind bz hz ∙ again))
                (λ n w.
                  right_child_lem view Kept Value MayFail p laws h t.f nd P es li z n
                    (erase key z.right) t2 s g.0.later
                    (Steps-order view Kept Value MayFail p laws t t2 g.0 o) w
                    (erase-Every z.strict key z.right z.right_strict))
                g))

  pub del_node_lem :
      (h levels ptr : ℕ) (P : Key → Type 0) (es : List Entry) (key : Key) (t : Bpt F)
      → h < levels
      → Sane Kept P
      → 3 ≤ t.m.order
      → Stored key
      → IsTree view h t.f P ptr es
      → Ends (Ended h t P es key) MayFail (del_node p levels ptr key t)
  unfolding del_node actions Body
  del_node_lem h zero ptr P es key t l s o hk tree = absurd (omega arith)
  del_node_lem zero (suc levels) ptr P es key t l s o hk (q, at, (is_leaf, r)) =
      Ends_bind _ _ MayFail (on_pages p (p.parse_node ptr) t) _
        (parse_step view Kept Value MayFail p laws ptr q t at)
        (λ nd t1 (e, s1).
          let rows : Rows view t1.f P nd.keys nd.values es =
            rw (sym e) at (Body-move view 0 t.f t1.f s1.later P q es (is_leaf, r)).1 in
          rw (ap (λ (c : Content). c.is_leaf) e ∙ is_leaf.0) (
            Ends_map _ _ MayFail (del_leaf p nd (key_find nd.keys key) t1)
              (del_leaf_lem nd P es key t1 s hk rows)
              (λ x t2 g. (Steps-trans view t t1 t2 s1 g.0, g.1))))
  del_node_lem (suc h) (suc levels) ptr P es key t l s o hk (q, at, (is_leaf, r)) =
      Ends_bind _ _ MayFail (on_pages p (p.parse_node ptr) t) _
        (parse_step view Kept Value MayFail p laws ptr q t at)
        (λ nd t1 (e, s1).
          let forest : Forest (IsTree view h t1.f) P nd.keys nd.children es =
            rw (sym e) at (Body-move view (suc h) t.f t1.f s1.later P q es (is_leaf, r)).1 in
          let w = IsTree_weaken view h t1.f in
          let b = IsTree-Every view h t1.f in
          let i = key_upper_bound nd.keys key in
          let at_key =
            key_upper_bound-UpperAt key hk nd.keys
              (Forest-IsOrdered (IsTree view h t1.f) w P nd.keys nd.children es s.stored
                forest).1 in
          let o1 = Steps-order view Kept Value MayFail p laws t t1 s1 o in
          rw (ap (λ (c : Content). c.is_leaf) e ∙ is_leaf.0) (
            Ends_map (Ended (suc h) t1 P es key) (Ended (suc h) t P es key) MayFail
              (bind_result (del_node p levels (get_or nd.children i 0) key t1) (del_child p nd i))
              (child_walk h levels nd P es key t1 s o1
                (λ B m c sb tree. del_node_lem h levels c B m key t1 (omega arith) sb o1 hk tree) i
                (Place-of (IsTree view h t1.f) b w P nd.keys nd.children es key i forest at_key))
              (λ x t2 g. (Steps-trans view t t1 t2 s1 g.0, g.1))))
