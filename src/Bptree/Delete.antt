-- ===== src/Bptree/Delete.antt =====
-- src/bplustree.c: bpt_delete, with the repair of underfull nodes.
use binjson_structures.Shared.{
  ℕ, zero, suc, ◌+◌, ◌-◌, ◌/◌, Bool, true, false, not, ◌&&◌, ◌||◌, Option, none, some, List, ◌∷◌,
  ◌++◌, length, take, drop, get_or, set, ltb, leb, ◌==◌, if◌then◌else◌,
}
use binjson_structures.Shared.Words.{sub64}
use binjson_structures.Shared.Result.{ok, err, state, depth}
use binjson_structures.Shared.State.{Action, ◌>>=◌, ◌>>◌, pure, fail, get, put, check, actions}
use binjson_structures.Bptree.Key.{Key, no_key, key_find, key_upper_bound, key_storable}
use binjson_structures.Bptree.Node.{
  Node, leaf, internal, BptMeta, Pages, Bpt, max_depth, on_pages, built, key_copy,
}
use binjson_structures.Bptree.Insert.{with_meta, changed}

abbrev pub remove_at : {A : Type 0} → ℕ → List A → List A
remove_at i xs = take i xs ++ drop (suc i) xs

abbrev pub same_kind : Bool → Bool → Bool
same_kind true b = b
same_kind false b = not b

module _ {F : Type 0} (p : Pages F) where
  -- Build a node and save it.
  unfoldable pub saved : Node → Action (Bpt F) ℕ
  unfolding actions on_pages built
  saved n = do n' ← built p n; on_pages p (p.save_node n')

  -- The pair in one node.
  unfoldable pub merged : Node → ℕ → Node → Action (Bpt F) Node
  unfolding actions saved built
  merged par li n = do
    lp ← saved n
    built p (internal par.id (remove_at li par.keys) (set (remove_at (suc li) par.children) li lp))

  -- The pair in two nodes, with the separator between them.
  unfoldable pub redistributed : Node → ℕ → Node → Node → Key → Action (Bpt F) Node
  unfolding actions saved built key_copy
  redistributed par li l r k = do
    lp ← saved l
    rp ← saved r
    promoted ← key_copy p k
    built p (internal par.id (set par.keys li promoted) (set (set par.children li lp) (suc li) rp))

  -- Two leaves, concatenated and split again if they are too many.
  unfoldable pub join_leaves : Node → ℕ → Node → Node → Action (Bpt F) Node
  unfolding merged redistributed
  join_leaves par li l r t =
      let wk = l.keys ++ r.keys in
      let wv = l.values ++ r.values in
      let mid = (length wk + 1) / 2 in
      (if ltb (length wk) t.m.order
          then merged par li (leaf l.id wk wv)
          else redistributed par li (leaf l.id (take mid wk) (take mid wv))
              (leaf r.id (drop mid wk) (drop mid wv)) (get_or wk mid no_key))
        t

  -- Two internal nodes: the parent's separator comes down between them.
  unfoldable pub join_internals : Node → ℕ → Node → Node → Action (Bpt F) Node
  unfolding merged redistributed
  join_internals par li l r t =
      let wk = l.keys ++ (get_or par.keys li no_key ∷ r.keys) in
      let wc = l.children ++ r.children in
      let mid = (length wk + 1) / 2 - 1 in
      (if ltb (length wk) t.m.order
          then merged par li (internal l.id wk wc)
          else redistributed par li (internal l.id (take mid wk) (take (suc mid) wc))
              (internal r.id (drop (suc mid) wk) (drop (suc mid) wc)) (get_or wk mid no_key))
        t

  unfoldable pub join : Node → ℕ → Bool → Node → Node → Action (Bpt F) Node
  unfolding join_leaves join_internals
  join par li true l r = join_leaves par li l r
  join par li false l r = join_internals par li l r

  -- Child `i`, now `ch`, against the sibling before it, or behind it for the first child.
  unfoldable pub rebalance_child : Node → ℕ → Node → Action (Bpt F) Node
  unfolding actions on_pages join
  rebalance_child par i ch =
      let first = i == 0 in
      do
        sib ← on_pages p (p.parse_node (get_or par.children (if first then 1 else i - 1) 0))
        check (same_kind sib.is_leaf ch.is_leaf) state
        if first then join par 0 ch.is_leaf ch sib else join par (i - 1) ch.is_leaf sib ch

  unfoldable pub del_leaf : Node → Option ℕ → Action (Bpt F) (Option Node)
  unfolding actions built
  del_leaf nd none = pure none
  del_leaf nd (some i) = do
    n ← built p (leaf nd.id (remove_at i nd.keys) (remove_at i nd.values))
    pure (some n)

  -- What an internal node makes of its child's outcome.
  unfoldable pub del_child : Node → ℕ → Option Node → Action (Bpt F) (Option Node)
  unfolding actions on_pages built rebalance_child
  del_child nd i none t = (ok none, t)
  del_child nd i (some n) t =
      (if ltb (length n.keys) t.m.min_keys && leb 2 (length nd.children)
          then (do n' ← rebalance_child nd i n; pure (some n'))
          else (do
            ncp ← on_pages p (p.save_node n)
            n' ← built p (internal nd.id nd.keys (set nd.children i ncp))
            pure (some n')))
        t

  -- `none` where the key is not there.
  unfoldable pub del_node : ℕ → ℕ → Key → Action (Bpt F) (Option Node)
  unfolding actions on_pages del_leaf del_child key_find key_upper_bound
  del_node zero ptr key = fail depth
  del_node (suc levels) ptr key = do
    nd ← on_pages p (p.parse_node ptr)
    let i = key_upper_bound nd.keys key
    let below = do cr ← del_node levels (get_or nd.children i 0) key; del_child nd i cr
    if nd.is_leaf then del_leaf nd (key_find nd.keys key) else below

  -- An internal root with no keys gives way to its only child.
  unfoldable pub collapse : ℕ → Node → Action (Bpt F) Node
  unfolding actions on_pages
  collapse zero n =
      if length n.keys == 0 && (not n.is_leaf && ltb 0 (length n.children))
      then fail depth
      else pure n
  collapse (suc levels) n =
      let below : Action (Bpt F) Node = (do
        child ← on_pages p (p.parse_node (get_or n.children 0 0))
        collapse levels child) in
      if length n.keys == 0 && (not n.is_leaf && ltb 0 (length n.children)) then below else pure n

  unfoldable pub replace_root : Option Node → Action (Bpt F) Unit
  unfolding actions on_pages collapse
  replace_root none = pure tt
  replace_root (some n) = do
    final_root ← collapse (suc max_depth) n
    rootp ← on_pages p (p.save_node final_root)
    t ← get
    let m : BptMeta = record (t.m) { root = rootp; size = sub64 t.m.size 1 }
    put (with_meta p m t)
    on_pages p (p.save_metadata m)

  unfoldable pub delete_root : Key → Action (Bpt F) Unit
  unfolding actions del_node replace_root
  delete_root key = do t ← get; res ← del_node (suc max_depth) t.m.root key; replace_root res

  unfoldable pub bpt_delete : Key → Action (Bpt F) Unit
  unfolding changed delete_root key_storable
  bpt_delete key t =
      if t.read_only || not (key_storable key)
      then (err state, t)
      else changed p (delete_root key) t
