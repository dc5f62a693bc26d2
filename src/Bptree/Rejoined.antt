-- ===== src/Bptree/Rejoined.antt =====
-- src/bplustree.c: rebalance_child joins two leaves or two internal nodes.
use binjson_structures.Shared.{
  ℕ, suc, ◌+◌, ◌-◌, ◌/◌, ◌≤◌, arith, inl, inr, List, ◌∷◌, ◌++◌, length, get_or, take, drop, ltb,
  ltb-false→le, Bool-cases,
}
use binjson_structures.Shared.Result.{Err}
use binjson_structures.Bptree.Key.{Key, no_key}
use binjson_structures.Bptree.Node.{Node, leaf, internal, Pages, Bpt}
use binjson_structures.Bptree.Delete.{join_leaves, join_internals}
use binjson_structures.Bptree.Entries.{Entry, Every, Every-append, Before}
use binjson_structures.Bptree.Tree.{View, Rows, Forest, IsTree, Under, From}
use binjson_structures.Bptree.Sound.{IsTree_weaken}
use binjson_structures.Bptree.Split.{leaf_halves, node_halves}
use binjson_structures.Bptree.Laws.{Laws, Later, Ends}
use binjson_structures.Bptree.Added.{Sane, Fresh-leaf, Fresh-internal, Sane-Under, Sane-From}
use binjson_structures.Bptree.Pair.{Pair}
use binjson_structures.Bptree.Joined.{Rows-append, Forest-append}
use binjson_structures.Bptree.Merged.{Parent, merged_lem, redistributed_lem, bound_Sane}

module _ {F : Type 0} (view : View F) (Kept : Key → Type 0) (Value : List ℕ → Type 0)
    (MayFail : Err → Type 0) (p : Pages F) (laws : Laws view Kept Value MayFail p) where
  pub join_leaves_lem :
      (f : F) (par : Node) (P : Key → Type 0) (es : List Entry) (li : ℕ) (s : Sane Kept P)
      (z : Pair (IsTree view 0 f) P par.keys par.children es li) (l r : Node) (le re : List Entry)
      (t : Bpt F)
      → Later view f t.f
      → 3 ≤ t.m.order
      → Rows view t.f (Under z.bound (get_or par.keys li no_key)) l.keys l.values le
      → Before (get_or par.keys li no_key) le
      → Rows view t.f (From z.bound (get_or par.keys li no_key)) r.keys r.values re
      → Every z.strict le
      → Every z.strict re
      → Ends
          (Parent view Kept Value MayFail p laws 0 t P (z.before ++ ((le ++ re) ++ z.behind)))
          MayFail
          (join_leaves p par li l r t)
  unfolding join_leaves
  join_leaves_lem f par P es li s z l r le re t later o rl low rr sl sr =
      let wk = l.keys ++ r.keys in
      let wv = l.values ++ r.values in
      let rows =
        Rows-append view t.f z.bound (get_or par.keys li no_key) l.keys r.keys l.values r.values le
          re rl low rr in
      let sane = bound_Sane view Kept Value MayFail p laws 0 f par P es li s z in
      let strict = Every-append z.strict le re sl sr in
      elim (Bool-cases (ltb (length wk) t.m.order)) [
        | inl small ↦ rw small (
            merged_lem view Kept Value MayFail p laws 0 f par P es li s z (leaf l.id wk wv)
              (le ++ re) t later (Fresh-leaf view Kept t.f z.bound l.id wk wv (le ++ re) sane rows)
              strict)
        | inr big ↦
            let mid = (length wk + 1) / 2 in
            let k = get_or wk mid no_key in
            let y =
              leaf_halves view t.f z.bound wk wv (le ++ re) mid sane.stored
                (omega (arith, o, ltb-false→le (length wk) t.m.order big)) rows in
            rw big (
              redistributed_lem view Kept Value MayFail p laws 0 f par P es li s z
                (leaf l.id (take mid wk) (take mid wv)) (leaf r.id (drop mid wk) (drop mid wv)) k
                (le ++ re) t later
                (record {
                  left = y.left;
                  right = y.right;
                  entries = y.entries;
                  middle = y.middle;
                  left_node =
                      Fresh-leaf view Kept t.f (Under z.bound k) l.id (take mid wk) (take mid wv)
                        y.left (Sane-Under view Kept z.bound k sane) y.left_rows;
                  left_before = y.left_before;
                  right_node =
                      Fresh-leaf view Kept t.f (From z.bound k) r.id (drop mid wk) (drop mid wv)
                        y.right (Sane-From view Kept z.bound k sane) y.right_rows;
                })
                strict)
      ]

  pub join_internals_lem :
      (h : ℕ) (f : F) (par : Node) (P : Key → Type 0) (es : List Entry) (li : ℕ) (s : Sane Kept P)
      (z : Pair (IsTree view (suc h) f) P par.keys par.children es li) (l r : Node)
      (le re : List Entry) (t : Bpt F)
      → Later view f t.f
      → 3 ≤ t.m.order
      → Forest (IsTree view h t.f) (Under z.bound (get_or par.keys li no_key)) l.keys l.children le
      → Before (get_or par.keys li no_key) le
      → Forest (IsTree view h t.f) (From z.bound (get_or par.keys li no_key)) r.keys r.children re
      → Every z.strict le
      → Every z.strict re
      → Ends
          (Parent view Kept Value MayFail p laws (suc h) t P (z.before ++ ((le ++ re) ++ z.behind)))
          MayFail
          (join_internals p par li l r t)
  unfolding join_internals
  join_internals_lem h f par P es li s z l r le re t later o fl low fr sl sr =
      let wk = l.keys ++ (get_or par.keys li no_key ∷ r.keys) in
      let wc = l.children ++ r.children in
      let w = IsTree_weaken view h t.f in
      let forest =
        Forest-append (IsTree view h t.f) w z.bound (get_or par.keys li no_key) l.keys r.keys
          l.children r.children le re fl low z.middle fr in
      let sane = bound_Sane view Kept Value MayFail p laws (suc h) f par P es li s z in
      let strict = Every-append z.strict le re sl sr in
      elim (Bool-cases (ltb (length wk) t.m.order)) [
        | inl small ↦ rw small (
            merged_lem view Kept Value MayFail p laws (suc h) f par P es li s z
              (internal l.id wk wc) (le ++ re) t later
              (Fresh-internal view Kept h t.f z.bound l.id wk wc (le ++ re) sane forest) strict)
        | inr big ↦
            let mid = (length wk + 1) / 2 - 1 in
            let k = get_or wk mid no_key in
            let y =
              node_halves (IsTree view h t.f) w z.bound wk wc (le ++ re) mid
                (omega (arith, o, ltb-false→le (length wk) t.m.order big)) forest in
            rw big (
              redistributed_lem view Kept Value MayFail p laws (suc h) f par P es li s z
                (internal l.id (take mid wk) (take (suc mid) wc))
                (internal r.id (drop (suc mid) wk) (drop (suc mid) wc)) k (le ++ re) t later
                (record {
                  left = y.left;
                  right = y.right;
                  entries = y.entries;
                  middle = y.middle;
                  left_node =
                      Fresh-internal view Kept h t.f (Under z.bound k) l.id (take mid wk)
                        (take (suc mid) wc) y.left (Sane-Under view Kept z.bound k sane)
                        y.left_forest;
                  left_before = y.left_before;
                  right_node =
                      Fresh-internal view Kept h t.f (From z.bound k) r.id (drop (suc mid) wk)
                        (drop (suc mid) wc) y.right (Sane-From view Kept z.bound k sane)
                        y.right_forest;
                })
                strict)
      ]
