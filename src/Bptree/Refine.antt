-- ===== src/Bptree/Refine.antt =====
-- src/bplustree.c: the tree is a map from keys to values, and bpt_add inserts into it.
use binjson_structures.Shared.{
  ℕ, suc, ◌+◌, ◌^◌, ◌≤◌, ◌<◌, ◌≡◌, refl, ap, sym, ◌∙◌, arith, Bool, false, not, ◌||◌, List, [], ◌∷◌,
  length, if◌then◌else◌,
}
use binjson_structures.Shared.Words.{add64}
use binjson_structures.Shared.Result.{Result, ok, err, Err}
use binjson_structures.Shared.State.{Action, actions, bind_result}
use binjson_structures.Bptree.Key.{Key, key_storable}
use binjson_structures.Bptree.Node.{
  internal, BptMeta, Pages, Bpt, max_depth, on_pages, built, take_id,
}
use binjson_structures.Bptree.Insert.{
  AddRes, whole, split, add_node, new_root, add_root, is_updated, with_meta, changed, finish,
  bpt_add,
}
use binjson_structures.Bptree.Entries.{Entry, insert, has, length-insert, Storable, Every-map}
use binjson_structures.Bptree.Position.{Stored}
use binjson_structures.Bptree.Tree.{View, content, IsTree, Under, From}
use binjson_structures.Bptree.Sound.{IsTree-Every, IsTree-Ascending}
use binjson_structures.Bptree.Laws.{Laws, Later, Ends, Ends_bind, Ends_map}
use binjson_structures.Bptree.Moves.{Body-move, IsTree_move}
use binjson_structures.Bptree.Steps.{
  Steps, Steps-refl, Steps-trans, built_step, save_bind, IsWritable-move, metadata_step,
  commit_step, take_id_step,
}
use binjson_structures.Bptree.Added.{Sane, Fresh, Grown, Fresh-internal}
use binjson_structures.Bptree.Grown.{add_node_lem}

module _ {F : Type 0} (view : View F) (Kept : Key → Type 0) where
  abbrev pub Usable : Key → Type 0
  Usable x = Stored x × Kept x

  -- The tree of height `h` stands for the map `es`.
  pub record IsMap (h : ℕ) (t : Bpt F) (es : List Entry) : Type 0 where
    pub tree : IsTree view h t.f Usable t.m.root es
    pub size : t.m.size ≡ length es
    pub order : 3 ≤ t.m.order

  pub sane : Sane Kept Usable
  sane = record { stored = λ x g. g.0; kept = λ x g. g.1 }

  pub IsMap-move :
      (h : ℕ) (t t' : Bpt F) (es : List Entry)
      → (t'.m ≡ t.m)
      → Later view t.f t'.f
      → IsMap h t es
      → IsMap h t' es
  IsMap-move h t t' es e l i = record {
    tree = rw e (IsTree_move view h t.f t'.f l Usable t.m.root es i.tree);
    size = rw e i.size;
    order = rw e i.order;
  }

  module _ (Value : List ℕ → Type 0) (MayFail : Err → Type 0) (p : Pages F)
      (laws : Laws view Kept Value MayFail p) where
    new_root_lem :
        (h : ℕ) (es : List Entry) (u : Bool) (res : AddRes) (t : Bpt F)
        → Grown view Kept h t.f Usable es u res
        → Ends
            (λ n t'.
              Steps view t t' × ((h' : ℕ) × (h' ≤ suc h) × Fresh view Kept h' t'.f Usable n es))
            MayFail
            (new_root p res t)
    unfolding new_root actions take_id
    new_root_lem h es u (whole u' n) t (e, w) = (Steps-refl view t, (h, omega arith, w))
    new_root_lem h es u (split a b k) t (e, w) =
        save_bind view Kept Value MayFail p laws _ a t _ w.left_node.writable (λ c t1 at_c s1.
          save_bind view Kept Value MayFail p laws _ b t1 _
            (IsWritable-move view Kept t.f t1.f (content b) s1.later w.right_node.writable)
            (λ d t2 at_d s2.
              let s12 = Steps-trans view t t1 t2 s1 s2 in
              let left_tree : IsTree view h t2.f (Under Usable k) c w.left = (
                content a,
                s2.later.nodes c (content a) at_c,
                Body-move view h t.f t2.f s12.later (Under Usable k) (content a) w.left
                    w.left_node.body,
              ) in
              let right_tree : IsTree view h t2.f (From Usable k) d w.right = (
                content b,
                at_d,
                Body-move view h t.f t2.f s12.later (From Usable k) (content b) w.right
                    w.right_node.body,
              ) in
              let t3 : Bpt F = record t2 { m = record (t2.m) { next_id = add64 t2.m.next_id 1 } } in
              Ends_map _ _ MayFail (built p (internal t2.m.next_id (k ∷ []) (c ∷ d ∷ [])) t3)
                (built_step view Kept Value MayFail p laws
                  (internal t2.m.next_id (k ∷ []) (c ∷ d ∷ [])) t3)
                (λ n' t' e.
                  rw (e.0, e.1)
                    (
                      Steps-trans view t t2 t3 s12 (take_id_step view Kept Value MayFail p laws t2),
                      (
                        suc h,
                        omega arith,
                        Fresh-internal view Kept h t2.f Usable t2.m.next_id (k ∷ []) (c ∷ d ∷ []) es
                            sane
                            (
                              w.left, w.right, w.entries, w.middle, left_tree, w.left_before,
                              right_tree,
                            ),
                      ),
                    ))))

    is_updated_lem :
        (h : ℕ) (f : F) (es : List Entry) (u : Bool) (res : AddRes)
        → Grown view Kept h f Usable es u res
        → is_updated p res ≡ u
    is_updated_lem h f es u (whole u' n) (e, w) = e
    is_updated_lem h f es u (split a b k) (e, w) = sym e

    new_size :
        (n : ℕ) (u : Bool)
        → n + 1 < 2 ^ 64
        → (if u then n else add64 n 1) ≡ (if u then n else suc n)
    new_size n u h = ground arith

    add_root_lem :
        (h : ℕ) (key : Key) (val : List ℕ) (es : List Entry) (t : Bpt F)
        → h ≤ max_depth
        → Usable key
        → Value val
        → length es + 1 < 2 ^ 64
        → IsMap h t es
        → Ends
            (λ u t'. (h' : ℕ) × (h' ≤ suc h) × IsMap h' t' (insert key val es))
            MayFail
            (add_root p key val t)
    unfolding add_root actions
    add_root_lem h key val es t l uk hv fits i =
        Ends_bind _ _ MayFail (add_node p (suc max_depth) t.m.root key val t) _
          (add_node_lem view Kept Value MayFail p laws h (suc max_depth) t.m.root Usable es key val
            t (omega (arith, l)) sane (omega (arith, i.order)) uk hv i.tree)
          (λ res t1 (s1, g).
            Ends_bind _ _ MayFail (new_root p res t1) _
              (new_root_lem h (insert key val es) (has key es) res t1 g)
              (λ n t2 (s2, (h', small, w)).
                save_bind view Kept Value MayFail p laws _ n t2 _ w.writable (λ c t3 at s3.
                  let s123 = Steps-trans view t t1 t3 s1 (Steps-trans view t1 t2 t3 s2 s3) in
                  let size = if is_updated p res then t3.m.size else add64 t3.m.size 1 in
                  let m : BptMeta = record (t3.m) { root = c; size = size } in
                  let t4 = with_meta p m t3 in
                  let same_size : t3.m.size ≡ length es =
                    ap (λ (s : Bpt F). s.m.size) s123.same ∙ i.size in
                  let same_order : t3.m.order ≡ t.m.order =
                    ap (λ (s : Bpt F). s.m.order) s123.same in
                  let stored : Storable es =
                    Every-map (λ x g. g.0) es (IsTree-Every view h t.f Usable t.m.root es i.tree) in
                  let counted =
                    new_size (length es) (has key es) fits
                    ∙ sym (
                        length-insert key val es uk.0 stored
                          (IsTree-Ascending view h t.f Usable t.m.root es i.tree)) in
                  Ends_map _ _ MayFail (on_pages p (p.save_metadata m) t4)
                    (metadata_step view Kept Value MayFail p laws m t4)
                    (λ x t5 (e, l'). (
                      h',
                      small,
                      IsMap-move h' t4 t5 (insert key val es) e l' (record {
                        tree = (
                          content n,
                          at,
                          Body-move view h' t2.f t3.f s3.later Usable (content n)
                              (insert key val es) w.body,
                        );
                        size =
                            rw
                              (
                                is_updated_lem h t1.f (insert key val es) (has key es) res g,
                                same_size,
                              )
                              counted;
                        order = rw same_order i.order;
                      }),
                    )))))

    finish-Ends :
        (P : Unit {0} → Bpt F → Type 0) (old : Bpt F) (r : Result (Unit {0}) × Bpt F)
        → Ends P MayFail r
        → Ends P MayFail (finish p old r)
    unfolding finish
    finish-Ends P old (ok u, t) h = h
    finish-Ends P old (err e, t) h = h

    -- A change that leaves a map leaves it also when it is committed.
    pub changed_lem :
        (top : ℕ) (es : List Entry) (change : Action (Bpt F) Unit) (t : Bpt F)
        → Ends (λ u t'. (h : ℕ) × (h ≤ top) × IsMap h t' es) MayFail (change t)
        → Ends (λ u t'. (h : ℕ) × (h ≤ top) × IsMap h t' es) MayFail (changed p change t)
    unfolding changed actions
    changed_lem top es change t h =
        finish-Ends (λ u t'. (h : ℕ) × (h ≤ top) × IsMap h t' es) t
          (bind_result (change t) (λ x. on_pages p p.commit))
          (Ends_bind _ _ MayFail (change t) _ h (λ u t1 (h', small, j).
            Ends_map _ _ MayFail (on_pages p p.commit t1)
              (commit_step view Kept Value MayFail p laws t1)
              (λ u t2 (e, l'). (h', small, IsMap-move h' t1 t2 es e l' j))))

    -- On a writable tree that stands for `es`, with room in the height and in the count, `bpt_add` of a
    -- key that may be stored ends in a tree for `insert key val es`, whose height grows by one at most,
    -- or in an error that the file's operations allow.
    pub bpt_add-insert :
        (h : ℕ) (key : Key) (val : List ℕ) (es : List Entry) (t : Bpt F)
        → t.read_only ≡ false
        → h ≤ max_depth
        → Usable key
        → Value val
        → length es + 1 < 2 ^ 64
        → IsMap h t es
        → Ends
            (λ u t'. (h' : ℕ) × (h' ≤ suc h) × IsMap h' t' (insert key val es))
            MayFail
            (bpt_add p key val t)
    unfolding bpt_add
    bpt_add-insert h key val es t wr l uk hv fits i =
        let guard : (t.read_only || not (key_storable key)) ≡ false = rw (wr, uk.0) refl in
        rw guard (
          changed_lem (suc h) (insert key val es) (add_root p key val) t
            (add_root_lem h key val es t l uk hv fits i))
