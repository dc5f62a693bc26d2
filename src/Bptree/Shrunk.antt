-- ===== src/Bptree/Shrunk.antt =====
-- src/bplustree.c: bpt_delete erases from the map that the tree stands for.
use binjson_structures.Shared.{
  ℕ, zero, suc, ◌^◌, ◌≤◌, ◌<◌, ◌≡◌, refl, ap, sym, ◌∙◌, arith, inl, inr, Bool, true, false, not,
  ◌&&◌, ◌||◌, Option, none, some, List, [], ◌∷◌, get_or, length, ltb, ◌==◌, Bool-cases,
}
use binjson_structures.Shared.Words.{sub64}
use binjson_structures.Shared.Result.{Err}
use binjson_structures.Shared.State.{actions}
use binjson_structures.Bptree.Key.{Key, key_storable}
use binjson_structures.Bptree.Node.{Node, BptMeta, Pages, Bpt, max_depth, on_pages}
use binjson_structures.Bptree.Insert.{with_meta}
use binjson_structures.Bptree.Delete.{del_node, collapse, replace_root, delete_root, bpt_delete}
use binjson_structures.Bptree.Entries.{Entry}
use binjson_structures.Bptree.Erase.{erase, erase-absent, length-erase}
use binjson_structures.Bptree.Tree.{View, Trees, content, Forest, Body, IsTree}
use binjson_structures.Bptree.Position.{Stored}
use binjson_structures.Bptree.Laws.{Laws, Ends, Ends_bind, Ends_map}
use binjson_structures.Bptree.Moves.{Body-move, Body-IsWritable, IsTree_move}
use binjson_structures.Bptree.Steps.{
  Steps, Steps-refl, Steps-trans, parse_step, save_bind, metadata_step,
}
use binjson_structures.Bptree.Added.{Sane, Fresh}
use binjson_structures.Bptree.Refine.{IsMap, IsMap-move, Usable, sane, changed_lem}
use binjson_structures.Bptree.Deleted.{Gone, del_node_lem}

and_false : (b : Bool) → (b && false) ≡ false
and_false true = refl
and_false false = refl

first_true : (b c : Bool) → (b && c) ≡ true → b ≡ true
first_true true c h = refl
first_true false c h = h

empty_of : {A : Type 0} (xs : List A) → (length xs == 0) ≡ true → xs ≡ []
empty_of [] h = refl
empty_of (x ∷ xs) h = absurd (not_empty (length xs) h)
  where
    not_empty : (n : ℕ) → (suc n == 0) ≡ true → ⊥
    not_empty n h = ground (arith, h)

only_tree :
    (T : Trees) (P : Key → Type 0) (cs : List ℕ) (es : List Entry)
    → Forest T P [] cs es
    → T P (get_or cs 0 0) es
only_tree T P [] es no_way = elim no_way [ ]
only_tree T P (c ∷ []) es t = t
only_tree T P (c ∷ (d ∷ cs)) es no_way = elim no_way [ ]

module _ {F : Type 0} (view : View F) (Kept : Key → Type 0) (Value : List ℕ → Type 0)
    (MayFail : Err → Type 0) (p : Pages F) (laws : Laws view Kept Value MayFail p) where
  abbrev Root : ℕ → (Key → Type 0) → List Entry → Bpt F → Node → Bpt F → Type 0
  Root h P es t n t' = Steps view t t' × ((h' : ℕ) × (h' ≤ h) × Fresh view Kept h' t'.f P n es)

  abbrev hollow : Node → Bool
  hollow n = length n.keys == 0 && (not n.is_leaf && ltb 0 (length n.children))

  collapse_lem :
      (h levels : ℕ) (n : Node) (P : Key → Type 0) (es : List Entry) (t : Bpt F)
      → h ≤ levels
      → Sane Kept P
      → Fresh view Kept h t.f P n es
      → Ends (Root h P es t) MayFail (collapse p levels n t)
  unfolding collapse actions Body
  collapse_lem zero zero n P es t l s w =
      let flat : hollow n ≡ false = rw w.body.0.0 (and_false (length n.keys == 0)) in
      rw flat (Steps-refl view t, (0, omega arith, w))
  collapse_lem zero (suc levels) n P es t l s w =
      let flat : hollow n ≡ false = rw w.body.0.0 (and_false (length n.keys == 0)) in
      rw flat (Steps-refl view t, (0, omega arith, w))
  collapse_lem (suc h) zero n P es t l s w = absurd (omega arith)
  collapse_lem (suc h) (suc levels) n P es t l s w = elim (Bool-cases (hollow n)) [
    | inr full ↦ rw full (Steps-refl view t, (suc h, omega arith, w))
    | inl bare ↦
        let no_keys = empty_of n.keys (first_true (length n.keys == 0) _ bare) in
        let forest : Forest (IsTree view h t.f) P [] n.children es = rw no_keys at w.body.1 in
        let (q, at, body) = only_tree (IsTree view h t.f) P n.children es forest in
        rw bare (
          Ends_bind _ _ MayFail (on_pages p (p.parse_node (get_or n.children 0 0)) t) _
            (parse_step view Kept Value MayFail p laws (get_or n.children 0 0) q t at)
            (λ nd t1 (e, s1).
              let b : Body view h t1.f P (content nd) es =
                rw (sym e) at (Body-move view h t.f t1.f s1.later P q es body) in
              let fresh : Fresh view Kept h t1.f P nd es = record {
                body = b;
                writable = Body-IsWritable view Kept h t1.f P (content nd) es s.stored s.kept b;
              } in
              Ends_map (Root h P es t1) (Root (suc h) P es t) MayFail (collapse p levels nd t1)
                (collapse_lem h levels nd P es t1 (omega arith) s fresh)
                (λ x t2 (s2, (h', small, w')).
                  (Steps-trans view t t1 t2 s1 s2, (h', omega (arith, small), w')))))
  ]

  one_less : (n m : ℕ) → n < 2 ^ 64 → suc m ≡ n → sub64 n 1 ≡ m
  one_less n m h e = omega (arith, h, e)

  abbrev Smaller : ℕ → List Entry → Unit {0} → Bpt F → Type 0
  Smaller h es u t' = (h' : ℕ) × (h' ≤ h) × IsMap view Kept h' t' es

  replace_root_lem :
      (h : ℕ) (key : Key) (es : List Entry) (t t1 : Bpt F) (r : Option Node)
      → h ≤ max_depth
      → length es < 2 ^ 64
      → IsMap view Kept h t es
      → Steps view t t1
      → Gone view Kept Value MayFail p laws h t1.f (Usable view Kept) es key r
      → Ends (Smaller h (erase key es)) MayFail (replace_root p r t1)
  unfolding replace_root actions
  replace_root_lem h key es t t1 none l fits i s absent = rw (erase-absent key es absent) (
    h,
    omega arith,
    record {
      tree = rw s.same (IsTree_move view h t.f t1.f s.later (Usable view Kept) t.m.root es i.tree);
      size = rw s.same i.size;
      order = rw s.same i.order;
    },
  )
  replace_root_lem h key es t t1 (some n) l fits i s (present, w) =
      Ends_bind _ _ MayFail (collapse p (suc max_depth) n t1) _
        (collapse_lem h (suc max_depth) n (Usable view Kept) (erase key es) t1 (omega (arith, l))
          (sane view Kept) w)
        (λ n' t2 (s2, (h', small, w')).
          save_bind view Kept Value MayFail p laws _ n' t2 _ w'.writable (λ c t3 at s3.
            let s123 = Steps-trans view t t1 t3 s (Steps-trans view t1 t2 t3 s2 s3) in
            let same_size : t3.m.size ≡ length es =
              ap (λ (x : Bpt F). x.m.size) s123.same ∙ i.size in
            let same_order : t3.m.order ≡ t.m.order = ap (λ (x : Bpt F). x.m.order) s123.same in
            let m : BptMeta = record (t3.m) { root = c; size = sub64 t3.m.size 1 } in
            let t4 = with_meta p m t3 in
            let counted : suc (length (erase key es)) ≡ length es =
              rw present at (length-erase key es) in
            Ends_map _ _ MayFail (on_pages p (p.save_metadata m) t4)
              (metadata_step view Kept Value MayFail p laws m t4)
              (λ x t5 (e, l'). (
                h',
                small,
                IsMap-move view Kept h' t4 t5 (erase key es) e l' (record {
                  tree = (
                    content n',
                    at,
                    Body-move view h' t2.f t3.f s3.later (Usable view Kept) (content n')
                        (erase key es) w'.body,
                  );
                  size = rw same_size (one_less (length es) (length (erase key es)) fits counted);
                  order = rw same_order i.order;
                }),
              ))))

  -- On a writable tree that stands for `es`, `bpt_delete` of a key that may be stored ends in a tree for
  -- `erase key es`, which is no higher, or in an error that the file's operations allow.
  pub bpt_delete-erase :
      (h : ℕ) (key : Key) (es : List Entry) (t : Bpt F)
      → t.read_only ≡ false
      → h ≤ max_depth
      → Stored key
      → length es < 2 ^ 64
      → IsMap view Kept h t es
      → Ends
          (λ u t'. (h' : ℕ) × (h' ≤ h) × IsMap view Kept h' t' (erase key es))
          MayFail
          (bpt_delete p key t)
  unfolding bpt_delete delete_root actions
  bpt_delete-erase h key es t writable l hk fits i =
      let guard : (t.read_only || not (key_storable key)) ≡ false = rw (writable, hk) refl in
      rw guard (
        changed_lem view Kept Value MayFail p laws h (erase key es) (delete_root p key) t (
          Ends_bind _ _ MayFail (del_node p (suc max_depth) t.m.root key t) (replace_root p)
            (del_node_lem view Kept Value MayFail p laws h (suc max_depth) t.m.root
              (Usable view Kept) es key t (omega (arith, l)) (sane view Kept) i.order hk i.tree)
            (λ r t1 (s1, g). replace_root_lem h key es t t1 r l fits i s1 g)))
