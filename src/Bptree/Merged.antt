-- ===== src/Bptree/Merged.antt =====
-- src/bplustree.c: joining two neighbours keeps their entries under the parent.
use binjson_structures.Shared.{ℕ, suc, ◌≡◌, some, List, ◌++◌, set}
use binjson_structures.Shared.Result.{Err}
use binjson_structures.Shared.State.{Action, actions, bind_result}
use binjson_structures.Bptree.Key.{Key}
use binjson_structures.Bptree.Node.{Node, internal, Pages, Bpt, on_pages, built}
use binjson_structures.Bptree.Delete.{remove_at, saved, merged, redistributed}
use binjson_structures.Bptree.Entries.{Entry, Every}
use binjson_structures.Bptree.Tree.{View, content, IsTree, Under, From}
use binjson_structures.Bptree.Sound.{IsTree_weaken}
use binjson_structures.Bptree.Laws.{Laws, Later, Later_trans, Ends, Ends_bind, Ends_map, IsWritable}
use binjson_structures.Bptree.Moves.{Body-move, IsTree_move}
use binjson_structures.Bptree.Steps.{
  Steps, Steps-trans, built_bind, built_step, key_copy_bind, save_step, IsWritable-move,
}
use binjson_structures.Bptree.Added.{Sane, Fresh, Halves, Fresh-internal}
use binjson_structures.Bptree.Pair.{Pair}

module _ {F : Type 0} (view : View F) (Kept : Key → Type 0) (Value : List ℕ → Type 0)
    (MayFail : Err → Type 0) (p : Pages F) (laws : Laws view Kept Value MayFail p) where
  pub saved_bind :
      {B : Type 0} (Q : B → Bpt F → Type 0) (n : Node) (t : Bpt F) (k : ℕ → Action (Bpt F) B)
      → IsWritable view Kept t.f (content n)
      → ((c : ℕ) (t' : Bpt F)
          → view.node_at t'.f c ≡ some (content n)
          → Steps view t t'
          → Ends Q MayFail (k c t'))
      → Ends Q MayFail (bind_result (saved p n t) k)
  unfolding saved actions
  saved_bind Q n t k w next =
      Ends_bind (λ c t'. (view.node_at t'.f c ≡ some (content n)) × Steps view t t') Q MayFail
        (saved p n t) k
        (built_bind view Kept Value MayFail p laws
          (λ c t'. (view.node_at t'.f c ≡ some (content n)) × Steps view t t') n t
          (λ n'. on_pages p (p.save_node n')) (save_step view Kept Value MayFail p laws n t w))
        (λ c t' e. next c t' e.0 e.1)

  abbrev pub Parent : ℕ → Bpt F → (Key → Type 0) → List Entry → Node → Bpt F → Type 0
  Parent h t P es n t' = Steps view t t' × Fresh view Kept (suc h) t'.f P n es

  module _ (h : ℕ) (f : F) (par : Node) (P : Key → Type 0) (es : List Entry) (li : ℕ)
      (s : Sane Kept P) (z : Pair (IsTree view h f) P par.keys par.children es li) where
    pub bound_Sane : Sane Kept z.bound
    bound_Sane = record {
      stored = λ x g. s.stored x (z.narrower x g);
      kept = λ x g. s.kept x (z.narrower x g);
    }

    pub merged_lem :
        (n : Node) (m : List Entry) (t : Bpt F)
        → Later view f t.f
        → Fresh view Kept h t.f z.bound n m
        → Every z.strict m
        → Ends (Parent h t P (z.before ++ (m ++ z.behind))) MayFail (merged p par li n t)
    unfolding merged actions
    merged_lem n m t l w st = saved_bind _ n t _ w.writable (λ c t1 at s1.
        let moves = IsTree_move view h f t1.f (Later_trans view f t.f t1.f l s1.later) in
        let forest =
          z.plug_one (IsTree view h t1.f) (IsTree_weaken view h t1.f) moves c m
            (content n, at, Body-move view h t.f t1.f s1.later z.bound (content n) m w.body) st in
        let par' =
          internal par.id (remove_at li par.keys) (set (remove_at (suc li) par.children) li c) in
        Ends_map _ _ MayFail (built p par' t1) (built_step view Kept Value MayFail p laws par' t1)
          (λ n' t2 e.
            rw (e.0, e.1)
              (
                s1,
                Fresh-internal view Kept h t1.f P par.id (remove_at li par.keys)
                    (set (remove_at (suc li) par.children) li c) (z.before ++ (m ++ z.behind)) s
                    forest,
              )))

    pub redistributed_lem :
        (a b : Node) (k : Key) (es' : List Entry) (t : Bpt F)
        → Later view f t.f
        → Halves view Kept h t.f z.bound a b k es'
        → Every z.strict es'
        → Ends
            (Parent h t P (z.before ++ (es' ++ z.behind)))
            MayFail
            (redistributed p par li a b k t)
    unfolding redistributed actions
    redistributed_lem a b k es' t l w st = saved_bind _ a t _ w.left_node.writable (λ c t1 at_c s1.
        saved_bind _ b t1 _
          (IsWritable-move view Kept t.f t1.f (content b) s1.later w.right_node.writable)
          (λ d t2 at_d s2.
            let s12 = Steps-trans view t t1 t2 s1 s2 in
            let moves = IsTree_move view h f t2.f (Later_trans view f t.f t2.f l s12.later) in
            let left_tree : IsTree view h t2.f (Under z.bound k) c w.left = (
              content a,
              s2.later.nodes c (content a) at_c,
              Body-move view h t.f t2.f s12.later (Under z.bound k) (content a) w.left
                  w.left_node.body,
            ) in
            let right_tree : IsTree view h t2.f (From z.bound k) d w.right = (
              content b,
              at_d,
              Body-move view h t.f t2.f s12.later (From z.bound k) (content b) w.right
                  w.right_node.body,
            ) in
            let forest =
              z.plug_two (IsTree view h t2.f) (IsTree_weaken view h t2.f) moves k c d w.left w.right
                w.middle left_tree right_tree w.left_before (rw w.entries at st) in
            let ks = set par.keys li k in
            let cs = set (set par.children li c) (suc li) d in
            key_copy_bind view Kept Value MayFail p laws _ k t2 _ (
              Ends_map _ _ MayFail (built p (internal par.id ks cs) t2)
                (built_step view Kept Value MayFail p laws (internal par.id ks cs) t2)
                (λ n' t3 e.
                  rw (e.0, e.1, w.entries)
                    (
                      s12,
                      Fresh-internal view Kept h t2.f P par.id ks cs
                          (z.before ++ ((w.left ++ w.right) ++ z.behind)) s forest,
                    )))))
