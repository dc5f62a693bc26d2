-- ===== src/Bptree/Removed.antt =====
-- src/bplustree.c: what an internal node becomes when bpt_delete changed a child.
use binjson_structures.Shared.{
  ℕ, zero, suc, ◌≤◌, ◌≡◌, refl, ap, inl, inr, Bool, true, false, ◌&&◌, Option, none, some, List, [],
  ◌∷◌, ◌++◌, get_or, set, length, ltb, leb, Bool-cases,
}
use binjson_structures.Shared.Result.{Err}
use binjson_structures.Shared.State.{Action, ◌>>=◌, pure, actions}
use binjson_structures.Bptree.Key.{Key, no_key}
use binjson_structures.Bptree.Node.{Node, internal, Pages, Bpt, on_pages, built}
use binjson_structures.Bptree.Delete.{rebalance_child, del_child}
use binjson_structures.Bptree.Entries.{Entry, Every, Every-append, Before}
use binjson_structures.Bptree.Tree.{View, Trees, content, Forest, IsTree, Under, From}
use binjson_structures.Bptree.Sound.{IsTree_weaken}
use binjson_structures.Bptree.Laws.{Laws, Later, Later_trans, Ends, Ends_bind}
use binjson_structures.Bptree.Moves.{Body-move, IsTree_move}
use binjson_structures.Bptree.Steps.{Steps, built_bind, save_bind}
use binjson_structures.Bptree.Added.{Sane, Fresh, Fresh-internal}
use binjson_structures.Bptree.Pair.{Pair}
use binjson_structures.Bptree.Merged.{Parent}
use binjson_structures.Bptree.Balanced.{rebalance_right_lem, rebalance_left_lem}

set_same : {A : Type 0} (xs : List A) (i : ℕ) (d : A) → set xs i (get_or xs i d) ≡ xs
set_same [] i d = refl
set_same (x ∷ xs) zero d = refl
set_same {A = A} (x ∷ xs) (suc i) d = ap (λ (r : List A). x ∷ r) (set_same xs i d)

set_next : (cs : List ℕ) (c : ℕ) → set (set cs 0 c) 1 (get_or cs 1 0) ≡ set cs 0 c
set_next [] c = refl
set_next (x ∷ cs) c = ap (λ (r : List ℕ). c ∷ r) (set_same cs 0 0)

module _ {F : Type 0} (view : View F) (Kept : Key → Type 0) (Value : List ℕ → Type 0)
    (MayFail : Err → Type 0) (p : Pages F) (laws : Laws view Kept Value MayFail p) where
  -- A node was made, for the entries `es`.
  abbrev pub Made : ℕ → Bpt F → (Key → Type 0) → List Entry → Option Node → Bpt F → Type 0
  Made h t P es none t' = ⊥
  Made h t P es (some n) t' = Steps view t t' × Fresh view Kept (suc h) t'.f P n es

  abbrev remade : Node → ℕ → Node → Action (Bpt F) (Option Node)
  remade nd i n = do
    ncp ← on_pages p (p.save_node n)
    n' ← built p (internal nd.id nd.keys (set nd.children i ncp))
    pure (some n')

  -- The child is written and takes its old place.
  remade_lem :
      (h : ℕ) (nd : Node) (i : ℕ) (P B : Key → Type 0) (m es : List Entry) (n : Node) (t : Bpt F)
      → Sane Kept P
      → Fresh view Kept h t.f B n m
      → ((c : ℕ) (t' : Bpt F)
          → Steps view t t'
          → IsTree view h t'.f B c m
          → Forest (IsTree view h t'.f) P nd.keys (set nd.children i c) es)
      → Ends (Made h t P es) MayFail (remade nd i n t)
  unfolding actions
  remade_lem h nd i P B m es n t s w place =
      save_bind view Kept Value MayFail p laws _ n t _ w.writable (λ c t1 at s1.
        built_bind view Kept Value MayFail p laws _ (internal nd.id nd.keys (set nd.children i c))
          t1 _
          (
            s1,
            Fresh-internal view Kept h t1.f P nd.id nd.keys (set nd.children i c) es s (
                place c t1 s1
                  (content n, at, Body-move view h t.f t1.f s1.later B (content n) m w.body)),
          ))

  Made-some :
      (h : ℕ) (t : Bpt F) (P : Key → Type 0) (es : List Entry) (m : Action (Bpt F) Node)
      → Ends (Parent view Kept Value MayFail p laws h t P es) MayFail (m t)
      → Ends (Made h t P es) MayFail ((do n ← m; pure (some n)) t)
  unfolding actions
  Made-some h t P es m e = Ends_bind _ _ MayFail (m t) _ e (λ n t' g. g)

  abbrev thin : Node → Node → Bpt F → Bool
  thin nd n t = ltb (length n.keys) t.m.min_keys && leb 2 (length nd.children)

  -- The only child of a node is not joined.
  pub only_child_lem :
      (h : ℕ) (nd : Node) (P : Key → Type 0) (m : List Entry) (n : Node) (t : Bpt F)
      → Sane Kept P
      → length nd.children ≡ 1
      → Fresh view Kept h t.f P n m
      → ((U : Trees) (c : ℕ) (es : List Entry)
          → U P c es
          → Forest U P nd.keys (set nd.children 0 c) es)
      → Ends (Made h t P m) MayFail (del_child p nd 0 (some n) t)
  unfolding del_child actions
  only_child_lem h nd P m n t s one w place =
      let enough : thin nd n t ≡ false = rw one (no_pair (ltb (length n.keys) t.m.min_keys)) in
      rw enough
        (remade_lem h nd 0 P P m m n t s w (λ c t1 s1 tree. place (IsTree view h t1.f) c m tree))
    where
      no_pair : (b : Bool) → (b && leb 2 1) ≡ false
      no_pair true = refl
      no_pair false = refl

  pub right_child_lem :
      (h : ℕ) (f : F) (nd : Node) (P : Key → Type 0) (es : List Entry) (li : ℕ)
      (z : Pair (IsTree view h f) P nd.keys nd.children es li) (n : Node) (m : List Entry)
      (t : Bpt F)
      → Sane Kept P
      → Later view f t.f
      → 3 ≤ t.m.order
      → Fresh view Kept h t.f (From z.bound (get_or nd.keys li no_key)) n m
      → Every z.strict m
      → Ends
          (Made h t P (z.before ++ ((z.left ++ m) ++ z.behind)))
          MayFail
          (del_child p nd (suc li) (some n) t)
  unfolding del_child actions
  right_child_lem h f nd P es li z n m t s later o w st = elim (Bool-cases (thin nd n t)) [
    | inl joined ↦ rw joined (
        Made-some h t P (z.before ++ ((z.left ++ m) ++ z.behind)) (rebalance_child p nd (suc li) n)
          (rebalance_right_lem view Kept Value MayFail p laws h f nd P es li s z n m t later o w
            st))
    | inr enough ↦ rw enough (
        remade_lem h nd (suc li) P (From z.bound (get_or nd.keys li no_key)) m
          (z.before ++ ((z.left ++ m) ++ z.behind)) n t s w
          (λ c t1 s1 tree.
            let moves = IsTree_move view h f t1.f (Later_trans view f t.f t1.f later s1.later) in
            rw (set_same nd.keys li no_key, set_same nd.children li 0) at
              (z.plug_two (IsTree view h t1.f) (IsTree_weaken view h t1.f) moves
                (get_or nd.keys li no_key) (get_or nd.children li 0) c z.left m z.middle
                (moves _ _ _ z.left_tree) tree z.left_before
                (Every-append z.strict z.left m z.left_strict st))))
  ]

  pub left_child_lem :
      (h : ℕ) (f : F) (nd : Node) (P : Key → Type 0) (es : List Entry)
      (z : Pair (IsTree view h f) P nd.keys nd.children es 0) (n : Node) (m : List Entry)
      (t : Bpt F)
      → Sane Kept P
      → Later view f t.f
      → 3 ≤ t.m.order
      → Fresh view Kept h t.f (Under z.bound (get_or nd.keys 0 no_key)) n m
      → Before (get_or nd.keys 0 no_key) m
      → Every z.strict m
      → Ends
          (Made h t P (z.before ++ ((m ++ z.right) ++ z.behind)))
          MayFail
          (del_child p nd 0 (some n) t)
  unfolding del_child actions
  left_child_lem h f nd P es z n m t s later o w low st = elim (Bool-cases (thin nd n t)) [
    | inl joined ↦ rw joined (
        Made-some h t P (z.before ++ ((m ++ z.right) ++ z.behind)) (rebalance_child p nd 0 n) (
          rebalance_left_lem view Kept Value MayFail p laws h f nd P es s z n m t later o w low st))
    | inr enough ↦ rw enough (
        remade_lem h nd 0 P (Under z.bound (get_or nd.keys 0 no_key)) m
          (z.before ++ ((m ++ z.right) ++ z.behind)) n t s w
          (λ c t1 s1 tree.
            let moves = IsTree_move view h f t1.f (Later_trans view f t.f t1.f later s1.later) in
            rw (set_same nd.keys 0 no_key, set_next nd.children c) at
              (z.plug_two (IsTree view h t1.f) (IsTree_weaken view h t1.f) moves
                (get_or nd.keys 0 no_key) c (get_or nd.children 1 0) m z.right z.middle tree
                (moves _ _ _ z.right_tree) low
                (Every-append z.strict m z.right st z.right_strict))))
  ]
