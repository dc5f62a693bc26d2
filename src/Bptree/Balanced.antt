-- ===== src/Bptree/Balanced.antt =====
-- src/bplustree.c: rebalance_child keeps the entries of the parent.
use binjson_structures.Shared.{
  ℕ, zero, suc, ◌-◌, ◌≤◌, ◌≡◌, refl, ap, sym, ◌∙◌, arith, Bool, true, false, List, ◌++◌, get_or,
  ◌==◌,
}
use binjson_structures.Shared.Result.{Err}
use binjson_structures.Shared.State.{actions}
use binjson_structures.Bptree.Key.{Key, no_key}
use binjson_structures.Bptree.Node.{Node, Pages, Bpt, on_pages}
use binjson_structures.Bptree.Delete.{same_kind, join, rebalance_child}
use binjson_structures.Bptree.Entries.{Entry, Every, Before}
use binjson_structures.Bptree.Tree.{View, Content, content, Body, IsTree, Under, From}
use binjson_structures.Bptree.Laws.{Laws, Later, Later_trans, Ends, Ends_bind, Ends_map}
use binjson_structures.Bptree.Moves.{Body-move}
use binjson_structures.Bptree.Steps.{Steps, Steps-trans, parse_step}
use binjson_structures.Bptree.Added.{Sane, Fresh}
use binjson_structures.Bptree.Pair.{Pair}
use binjson_structures.Bptree.Merged.{Parent}
use binjson_structures.Bptree.Rejoined.{join_leaves_lem, join_internals_lem}

abbrev leaf_at : ℕ → Bool
leaf_at zero = true
leaf_at (suc h) = false

same_kind_refl : (b : Bool) → same_kind b b ≡ true
same_kind_refl true = refl
same_kind_refl false = refl

module _ {F : Type 0} (view : View F) (Kept : Key → Type 0) (Value : List ℕ → Type 0)
    (MayFail : Err → Type 0) (p : Pages F) (laws : Laws view Kept Value MayFail p) where
  Body-leaf_at :
      (h : ℕ) (f : F) (P : Key → Type 0) (q : Content) (es : List Entry)
      → Body view h f P q es
      → q.is_leaf ≡ leaf_at h
  unfolding Body
  Body-leaf_at zero f P q es b = b.0.0
  Body-leaf_at (suc h) f P q es b = b.0.0

  pub Steps-order : (t t' : Bpt F) → Steps view t t' → 3 ≤ t.m.order → 3 ≤ t'.m.order
  Steps-order t t' s h = rw s.same h

  join_lem :
      (h : ℕ) (f : F) (par : Node) (P : Key → Type 0) (es : List Entry) (li : ℕ) (s : Sane Kept P)
      (z : Pair (IsTree view h f) P par.keys par.children es li) (l r : Node) (le re : List Entry)
      (t : Bpt F)
      → Later view f t.f
      → 3 ≤ t.m.order
      → Body view h t.f (Under z.bound (get_or par.keys li no_key)) (content l) le
      → Before (get_or par.keys li no_key) le
      → Body view h t.f (From z.bound (get_or par.keys li no_key)) (content r) re
      → Every z.strict le
      → Every z.strict re
      → Ends
          (Parent view Kept Value MayFail p laws h t P (z.before ++ ((le ++ re) ++ z.behind)))
          MayFail
          (join p par li (leaf_at h) l r t)
  unfolding join Body
  join_lem zero f par P es li s z l r le re t later o bl low br sl sr =
      join_leaves_lem view Kept Value MayFail p laws f par P es li s z l r le re t later o bl.1 low
        br.1 sl sr
  join_lem (suc h) f par P es li s z l r le re t later o bl low br sl sr =
      join_internals_lem view Kept Value MayFail p laws h f par P es li s z l r le re t later o bl.1
        low br.1 sl sr

  join_kind :
      (h : ℕ) (f : F) (par : Node) (P : Key → Type 0) (es : List Entry) (li : ℕ) (s : Sane Kept P)
      (z : Pair (IsTree view h f) P par.keys par.children es li) (l r : Node) (le re : List Entry)
      (t : Bpt F)
      → Later view f t.f
      → 3 ≤ t.m.order
      → Body view h t.f (Under z.bound (get_or par.keys li no_key)) (content l) le
      → Before (get_or par.keys li no_key) le
      → Body view h t.f (From z.bound (get_or par.keys li no_key)) (content r) re
      → Every z.strict le
      → Every z.strict re
      → (b : Bool) → b ≡ leaf_at h
      → Ends
          (Parent view Kept Value MayFail p laws h t P (z.before ++ ((le ++ re) ++ z.behind)))
          MayFail
          (join p par li b l r t)
  join_kind h f par P es li s z l r le re t later o bl low br sl sr b e =
      rw e (join_lem h f par P es li s z l r le re t later o bl low br sl sr)

  same_kinds :
      (h : ℕ) (f g : F) (P Q : Key → Type 0) (q r : Content) (es fs : List Entry)
      → Body view h f P q es
      → Body view h g Q r fs
      → same_kind q.is_leaf r.is_leaf ≡ true
  same_kinds h f g P Q q r es fs b c =
      ap (λ (x : Bool). same_kind x r.is_leaf) (Body-leaf_at h f P q es b)
      ∙ (ap (λ (x : Bool). same_kind (leaf_at h) x) (Body-leaf_at h g Q r fs c)
          ∙ same_kind_refl (leaf_at h))

  -- The child behind the separator is new.
  pub rebalance_right_lem :
      (h : ℕ) (f : F) (par : Node) (P : Key → Type 0) (es : List Entry) (li : ℕ) (s : Sane Kept P)
      (z : Pair (IsTree view h f) P par.keys par.children es li) (n : Node) (m : List Entry)
      (t : Bpt F)
      → Later view f t.f
      → 3 ≤ t.m.order
      → Fresh view Kept h t.f (From z.bound (get_or par.keys li no_key)) n m
      → Every z.strict m
      → Ends
          (Parent view Kept Value MayFail p laws h t P (z.before ++ ((z.left ++ m) ++ z.behind)))
          MayFail
          (rebalance_child p par (suc li) n t)
  unfolding rebalance_child actions
  rebalance_right_lem h f par P es li s z n m t later o w st =
      let (q, at, body) = z.left_tree in
      let not_first : (suc li == 0) ≡ false = ground arith in
      let minus_one : suc li - 1 ≡ li = omega arith in
      rw (not_first, minus_one)
        (Ends_bind _ _ MayFail (on_pages p (p.parse_node (get_or par.children li 0)) t) _
          (parse_step view Kept Value MayFail p laws (get_or par.children li 0) q t
            (later.nodes _ q at))
          (λ sib t1 (e, s1).
            let moved = Later_trans view f t.f t1.f later s1.later in
            let bs : Body view h t1.f (Under z.bound (get_or par.keys li no_key)) (content sib)
                z.left =
              rw (sym e) at (Body-move view h f t1.f moved _ q z.left body) in
            rw (same_kinds h t1.f t.f _ _ (content sib) (content n) z.left m bs w.body) (
              Ends_map _ _ MayFail (join p par li n.is_leaf sib n t1)
                (join_kind h f par P es li s z sib n z.left m t1 moved (Steps-order t t1 s1 o) bs
                  z.left_before (Body-move view h t.f t1.f s1.later _ (content n) m w.body)
                  z.left_strict st n.is_leaf (Body-leaf_at h t.f _ (content n) m w.body))
                (λ x t2 g. (Steps-trans view t t1 t2 s1 g.0, g.1)))))

  -- The first child is new.
  pub rebalance_left_lem :
      (h : ℕ) (f : F) (par : Node) (P : Key → Type 0) (es : List Entry) (s : Sane Kept P)
      (z : Pair (IsTree view h f) P par.keys par.children es 0) (n : Node) (m : List Entry)
      (t : Bpt F)
      → Later view f t.f
      → 3 ≤ t.m.order
      → Fresh view Kept h t.f (Under z.bound (get_or par.keys 0 no_key)) n m
      → Before (get_or par.keys 0 no_key) m
      → Every z.strict m
      → Ends
          (Parent view Kept Value MayFail p laws h t P (z.before ++ ((m ++ z.right) ++ z.behind)))
          MayFail
          (rebalance_child p par 0 n t)
  unfolding rebalance_child actions
  rebalance_left_lem h f par P es s z n m t later o w low st =
      let (q, at, body) = z.right_tree in
      (Ends_bind _ _ MayFail (on_pages p (p.parse_node (get_or par.children 1 0)) t) _
        (parse_step view Kept Value MayFail p laws (get_or par.children 1 0) q t
          (later.nodes _ q at))
        (λ sib t1 (e, s1).
          let moved = Later_trans view f t.f t1.f later s1.later in
          let bs : Body view h t1.f (From z.bound (get_or par.keys 0 no_key)) (content sib)
              z.right =
            rw (sym e) at (Body-move view h f t1.f moved _ q z.right body) in
          rw (same_kinds h t1.f t.f _ _ (content sib) (content n) z.right m bs w.body) (
            Ends_map _ _ MayFail (join p par 0 n.is_leaf n sib t1)
              (join_kind h f par P es 0 s z n sib m z.right t1 moved (Steps-order t t1 s1 o)
                (Body-move view h t.f t1.f s1.later _ (content n) m w.body) low bs st z.right_strict
                n.is_leaf (Body-leaf_at h t.f _ (content n) m w.body))
              (λ x t2 g. (Steps-trans view t t1 t2 s1 g.0, g.1)))))
