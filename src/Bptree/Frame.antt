-- ===== src/Bptree/Frame.antt =====
-- src/bplustree.c: what the parts of bpt_add and bpt_delete leave alone, on success and on failure.
use binjson_structures.Shared.{
  ℕ, zero, suc, ◌-◌, ◌≡◌, ◌∙◌, ap, Bool, true, false, not, ◌&&◌, Option, none, some, List, [], ◌∷◌,
  length, get_or, ltb, leb, ◌==◌, if◌then◌else◌,
}
use binjson_structures.Shared.Words.{add64, sub64}
use binjson_structures.Shared.Result.{Result, ok, err, Err, state, depth, oom}
use binjson_structures.Shared.State.{Action, bind_result, actions, check, pure, fail, ◌>>◌, ◌>>=◌}
use binjson_structures.Bptree.Key.{Key}
use binjson_structures.Bptree.Node.{
  Node, leaf, internal, Pages, Bpt, BptMeta, on_pages, built, key_copy, take_id, max_depth,
}
use binjson_structures.Bptree.Insert.{
  AddRes, whole, split, grow_leaf, add_leaf, grow_internal, add_child, add_node, new_root, add_root,
  is_updated,
}
use binjson_structures.Bptree.Delete.{
  remove_at, saved, merged, redistributed, join_leaves, join_internals, join, rebalance_child,
  del_leaf, del_child, del_node, collapse, replace_root, delete_root,
}

-- How the file's operations meet a discard, where `seen` is what counts of a file: what a discard
-- goes back to is changed by a successful commit alone, which leaves nothing to discard.
pub record Discards {F C : Type 0} (p : Pages F) (seen : F → C) : Type 0 where
  pub parse : (c : ℕ) (f : F) → seen (p.discard (p.parse_node c f).1) ≡ seen (p.discard f)
  pub save : (n : Node) (f : F) → seen (p.discard (p.save_node n f).1) ≡ seen (p.discard f)
  pub store : (v : List ℕ) (f : F) → seen (p.discard (p.store_value v f).1) ≡ seen (p.discard f)
  pub metadata :
      (m : BptMeta) (f : F) → seen (p.discard (p.save_metadata m f).1) ≡ seen (p.discard f)
  pub commit_ok : (f g : F) → p.commit f ≡ (ok tt, g) → seen (p.discard g) ≡ seen g
  pub commit_err :
      (f g : F) (e : Err) → p.commit f ≡ (err e, g) → seen (p.discard g) ≡ seen (p.discard f)

module _ {F : Type 0} (p : Pages F) where
  -- Only the file, the root, the next id and the size differ.
  abbrev pub Frame : Bpt F → Bpt F → Type 0
  Frame t s = s ≡ record t {
    f = s.f;
    m = record (t.m) { root = s.m.root; next_id = s.m.next_id; size = s.m.size };
  }

module _ {F C : Type 0} (p : Pages F) (seen : F → C) (laws : Discards p seen) where
  -- Also the file that a discard goes back to is the same.
  abbrev pub Inside : Bpt F → Bpt F → Type 0
  Inside t s = Frame p t s × (seen (p.discard s.f) ≡ seen (p.discard t.f))

  module _ (t : Bpt F) where
    -- An action that stays in the frame, on success and on an error.
    abbrev pub Stays : {A : Type 0} → Action (Bpt F) A → Type 0
    Stays m = (s : Bpt F) → Inside t s → Inside t (m s).1

    pub bind-Stays :
        {A B : Type 0} (r : Result A × Bpt F) (k : A → Action (Bpt F) B)
        → Inside t r.1
        → ((a : A) → Stays (k a))
        → Inside t (bind_result r k).1
    bind-Stays (ok a, s) k h next = next a s h
    bind-Stays (err e, s) k h next = h

    pub pages-Stays :
        {A : Type 0} (m : Action F A)
        → ((f : F) → seen (p.discard (m f).1) ≡ seen (p.discard f))
        → Stays (on_pages p m)
    unfolding on_pages
    pages-Stays m kept s h = (ap (λ (x : Bpt F). record x { f = (m s.f).1 }) h.0, kept s.f ∙ h.1)

    checked-Stays : {A : Type 0} (a : A) (b : Bool) (e : Err) → Stays (do check b e; pure a)
    unfolding actions
    checked-Stays a true e s h = h
    checked-Stays a false e s h = h

    built-Stays : (n : Node) → Stays (built p n)
    unfolding built
    built-Stays n = checked-Stays n (p.copies n) oom

    key_copy-Stays : (k : Key) → Stays (key_copy p k)
    unfolding key_copy
    key_copy-Stays k s h = checked-Stays k _ oom s h

    take_id-Stays : Stays (take_id p)
    unfolding take_id
    take_id-Stays s h = (
      ap (λ (x : Bpt F). record x { m = record (x.m) { next_id = (take_id p s).1.m.next_id } }) h.0,
      h.1,
    )

    whole-Stays : (u : Bool) (n : Node) → Stays (do n' ← built p n; pure (whole u n'))
    unfolding actions
    whole-Stays u n s h = bind-Stays (built p n s) _ (built-Stays n s h) (λ n' s' h'. h')

    halves-Stays :
        (l : Node) (r : ℕ → Node) (k : Key)
        → Stays (do
          l' ← built p l
          i ← take_id p
          r' ← built p (r i)
          k' ← key_copy p k
          pure (split l' r' k'))
    unfolding actions
    halves-Stays l r k s h = bind-Stays (built p l s) _ (built-Stays l s h) (λ l' s1 h1.
        bind-Stays (take_id p s1) _ (take_id-Stays s1 h1) (λ i s2 h2.
          bind-Stays (built p (r i) s2) _ (built-Stays (r i) s2 h2)
            (λ r' s3 h3. bind-Stays (key_copy p k s3) _ (key_copy-Stays k s3 h3) (λ k' s4 h4. h4))))

    if_Stays :
        {A : Type 0} (b : Bool) (m n : Action (Bpt F) A)
        → Stays m
        → Stays n
        → Stays (if b then m else n)
    if_Stays true m n hm hn = hm
    if_Stays false m n hm hn = hn

    grow_leaf-Stays : (id : ℕ) (ks : List Key) (bs : List (List ℕ)) → Stays (grow_leaf p id ks bs)
    unfolding grow_leaf
    grow_leaf-Stays id ks bs s h =
        if_Stays (ltb (length ks) s.m.order) _ _ (whole-Stays false _) (halves-Stays _ _ _) s h

    grow_internal-Stays : (id : ℕ) (ks : List Key) (cs : List ℕ) → Stays (grow_internal p id ks cs)
    unfolding grow_internal
    grow_internal-Stays id ks cs s h =
        if_Stays (ltb (length ks) s.m.order) _ _ (whole-Stays false _) (halves-Stays _ _ _) s h

    add_leaf-Stays : (nd : Node) (key : Key) (val : List ℕ) → Stays (add_leaf p nd key val)
    unfolding add_leaf actions
    add_leaf-Stays nd key val s h =
        bind-Stays (on_pages p (p.store_value val) s) _
          (pages-Stays (p.store_value val) (laws.store val) s h)
          (λ nb. if_Stays _ _ _ (whole-Stays true _) (grow_leaf-Stays _ _ _))

    add_child-Stays : (nd : Node) (i : ℕ) (res : AddRes) → Stays (add_child p nd i res)
    unfolding add_child actions
    add_child-Stays nd i (whole u n) s h =
        bind-Stays (on_pages p (p.save_node n) s) _ (pages-Stays (p.save_node n) (laws.save n) s h)
          (λ c. whole-Stays u _)
    add_child-Stays nd i (split l r k) s h =
        bind-Stays (on_pages p (p.save_node l) s) _ (pages-Stays (p.save_node l) (laws.save l) s h)
          (λ c s1 h1.
            bind-Stays (on_pages p (p.save_node r) s1) _
              (pages-Stays (p.save_node r) (laws.save r) s1 h1) (λ d. grow_internal-Stays _ _ _))

    add_node-Stays :
        (levels ptr : ℕ) (key : Key) (val : List ℕ) → Stays (add_node p levels ptr key val)
    unfolding add_node actions
    add_node-Stays zero ptr key val s h = h
    add_node-Stays (suc levels) ptr key val s h =
        bind-Stays (on_pages p (p.parse_node ptr) s) _
          (pages-Stays (p.parse_node ptr) (laws.parse ptr) s h)
          (λ nd. if_Stays nd.is_leaf _ _ (add_leaf-Stays nd key val) (λ s1 h1.
            bind-Stays (add_node p levels _ key val s1) _ (add_node-Stays levels _ key val s1 h1)
              (λ res. add_child-Stays nd _ res)))

    saved-Stays : (n : Node) → Stays (saved p n)
    unfolding saved actions
    saved-Stays n s h =
        bind-Stays (built p n s) _ (built-Stays n s h)
          (λ n'. pages-Stays (p.save_node n') (laws.save n'))

    merged-Stays : (par : Node) (i : ℕ) (n : Node) → Stays (merged p par i n)
    unfolding merged actions
    merged-Stays par i n s h = bind-Stays (saved p n s) _ (saved-Stays n s h) (λ c. built-Stays _)

    redistributed-Stays :
        (par : Node) (i : ℕ) (l r : Node) (k : Key) → Stays (redistributed p par i l r k)
    unfolding redistributed actions
    redistributed-Stays par i l r k s h = bind-Stays (saved p l s) _ (saved-Stays l s h) (λ c s1 h1.
        bind-Stays (saved p r s1) _ (saved-Stays r s1 h1) (λ d s2 h2.
          bind-Stays (key_copy p k s2) _ (key_copy-Stays k s2 h2) (λ k'. built-Stays _)))

    join-Stays : (par : Node) (i : ℕ) (b : Bool) (l r : Node) → Stays (join p par i b l r)
    unfolding join join_leaves join_internals
    join-Stays par i true l r s h =
        if_Stays (ltb _ s.m.order) _ _ (merged-Stays par i _) (redistributed-Stays par i _ _ _) s h
    join-Stays par i false l r s h =
        if_Stays (ltb _ s.m.order) _ _ (merged-Stays par i _) (redistributed-Stays par i _ _ _) s h

    guard-Stays :
        {A : Type 0} (b : Bool) (e : Err) (m : Action (Bpt F) A) → Stays m → Stays (do check b e; m)
    unfolding actions
    guard-Stays true e m k s h = k s h
    guard-Stays false e m k s h = h

    rebalance-Stays : (par : Node) (i : ℕ) (ch : Node) → Stays (rebalance_child p par i ch)
    unfolding rebalance_child actions
    rebalance-Stays par i ch s h =
        let read = p.parse_node (get_or par.children (if i == 0 then 1 else i - 1) 0) in
        bind-Stays (on_pages p read s) _ (pages-Stays read (laws.parse _) s h) (λ (sib : Node).
          guard-Stays _ state _
            (if_Stays (i == 0) _ _ (join-Stays par 0 _ _ _) (join-Stays par (i - 1) _ _ _)))

    some-Stays : (m : Action (Bpt F) Node) → Stays m → Stays (do n ← m; pure (some n))
    unfolding actions
    some-Stays m k s h = bind-Stays (m s) _ (k s h) (λ n s' h'. h')

    del_leaf-Stays : (nd : Node) (i : Option ℕ) → Stays (del_leaf p nd i)
    unfolding del_leaf actions
    del_leaf-Stays nd none s h = h
    del_leaf-Stays nd (some i) s h =
        let n = leaf nd.id (remove_at i nd.keys) (remove_at i nd.values) in
        some-Stays (built p n) (built-Stays n) s h

    del_child-Stays : (nd : Node) (i : ℕ) (r : Option Node) → Stays (del_child p nd i r)
    unfolding del_child actions
    del_child-Stays nd i none s h = h
    del_child-Stays nd i (some n) s h =
        if_Stays (ltb (length n.keys) s.m.min_keys && leb 2 (length nd.children)) _ _
          (some-Stays _ (rebalance-Stays nd i n))
          (λ s1 h1.
            bind-Stays (on_pages p (p.save_node n) s1) _
              (pages-Stays (p.save_node n) (laws.save n) s1 h1) (λ c. some-Stays _ (built-Stays _)))
          s h

    del_node-Stays : (levels ptr : ℕ) (key : Key) → Stays (del_node p levels ptr key)
    unfolding del_node actions
    del_node-Stays zero ptr key s h = h
    del_node-Stays (suc levels) ptr key s h =
        bind-Stays (on_pages p (p.parse_node ptr) s) _
          (pages-Stays (p.parse_node ptr) (laws.parse ptr) s h)
          (λ nd. if_Stays nd.is_leaf _ _ (del_leaf-Stays nd _) (λ s1 h1.
            bind-Stays (del_node p levels _ key s1) _ (del_node-Stays levels _ key s1 h1)
              (λ r. del_child-Stays nd _ r)))

    abbrev hollow : Node → Bool
    hollow n = length n.keys == 0 && (not n.is_leaf && ltb 0 (length n.children))

    collapse-Stays : (levels : ℕ) (n : Node) → Stays (collapse p levels n)
    unfolding collapse actions
    collapse-Stays zero n s h =
        if_Stays {A = Node} (hollow n) (fail depth) (pure n) (λ s h. h) (λ s h. h) s h
    collapse-Stays (suc levels) n s h =
        let read = p.parse_node (get_or n.children 0 0) in
        if_Stays {A = Node} (hollow n) (do c ← on_pages p read; collapse p levels c) (pure n)
          (λ s1 h1.
            bind-Stays (on_pages p read s1) (collapse p levels)
              (pages-Stays read (laws.parse _) s1 h1) (λ c. collapse-Stays levels c))
          (λ s1 h1. h1) s h

    rooted :
        (s : Bpt F) (root size : ℕ)
        → Inside t s
        → let m : BptMeta = record (s.m) { root = root; size = size } in
          Inside t (on_pages p (p.save_metadata m) (record s { m = m })).1
    rooted s root size h =
        let m : BptMeta = record (s.m) { root = root; size = size } in
        pages-Stays (p.save_metadata m) (laws.metadata m) (record s { m = m })
          (ap (λ (x : Bpt F). record x { m = record (x.m) { root = root; size = size } }) h.0, h.1)

    new_root-Stays : (res : AddRes) → Stays (new_root p res)
    unfolding new_root actions
    new_root-Stays (whole u n) s h = h
    new_root-Stays (split l r k) s h =
        bind-Stays (on_pages p (p.save_node l) s) _ (pages-Stays (p.save_node l) (laws.save l) s h)
          (λ c s1 h1.
            bind-Stays (on_pages p (p.save_node r) s1) _
              (pages-Stays (p.save_node r) (laws.save r) s1 h1)
              (λ d s2 h2.
                bind-Stays (take_id p s2) (λ i. built p (internal i (k ∷ []) (c ∷ d ∷ [])))
                  (take_id-Stays s2 h2) (λ i. built-Stays (internal i (k ∷ []) (c ∷ d ∷ [])))))

    pub add_root-Stays : (key : Key) (val : List ℕ) → Stays (add_root p key val)
    unfolding add_root actions
    add_root-Stays key val s h =
        bind-Stays (add_node p (suc max_depth) s.m.root key val s) _
          (add_node-Stays (suc max_depth) s.m.root key val s h)
          (λ res s1 h1. bind-Stays (new_root p res s1) _ (new_root-Stays res s1 h1) (λ n s2 h2.
            bind-Stays (on_pages p (p.save_node n) s2) _
              (pages-Stays (p.save_node n) (laws.save n) s2 h2)
              (λ c s3 h3.
                rooted s3 c (if is_updated p res then s3.m.size else add64 s3.m.size 1) h3)))

    replace_root-Stays : (r : Option Node) → Stays (replace_root p r)
    unfolding replace_root actions
    replace_root-Stays none s h = h
    replace_root-Stays (some n) s h =
        bind-Stays (collapse p (suc max_depth) n s) _ (collapse-Stays (suc max_depth) n s h)
          (λ n' s2 h2.
            bind-Stays (on_pages p (p.save_node n') s2) _
              (pages-Stays (p.save_node n') (laws.save n') s2 h2)
              (λ c s3 h3. rooted s3 c (sub64 s3.m.size 1) h3))

    pub delete_root-Stays : (key : Key) → Stays (delete_root p key)
    unfolding delete_root actions
    delete_root-Stays key s h =
        bind-Stays (del_node p (suc max_depth) s.m.root key s) _
          (del_node-Stays (suc max_depth) s.m.root key s h) (λ r. replace_root-Stays r)
