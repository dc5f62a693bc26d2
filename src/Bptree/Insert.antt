-- ===== src/Bptree/Insert.antt =====
-- src/bplustree.c: bpt_add, with the splits on the way up.
use binjson_structures.Shared.{
  ℕ, zero, suc, ◌+◌, ◌-◌, ◌/◌, Bool, true, false, not, ◌&&◌, ◌||◌, List, [], ◌∷◌, ◌++◌, length,
  take, drop, get_or, set, ltb, if◌then◌else◌,
}
use binjson_structures.Shared.Words.{add64}
use binjson_structures.Shared.Result.{Result, ok, err, state, depth}
use binjson_structures.Shared.State.{Action, ◌>>=◌, ◌>>◌, pure, fail, get, put, actions}
use binjson_structures.Bptree.Key.{
  Key, no_key, key_eq, key_lower_bound, key_upper_bound, key_storable,
}
use binjson_structures.Bptree.Node.{
  Node, leaf, internal, BptMeta, Pages, Bpt, max_depth, on_pages, built, key_copy, take_id,
}

-- `add_res`: a node that replaces the old one, with `updated`, or two halves and their separator.
pub data AddRes : Type 0 where
  whole : Bool → Node → AddRes
  split : Node → Node → Key → AddRes

abbrev pub insert_at : {A : Type 0} → ℕ → A → List A → List A
insert_at i x xs = take i xs ++ (x ∷ drop i xs)

-- Two children in the place of one.
abbrev pub split_at : ℕ → ℕ → ℕ → List ℕ → List ℕ
split_at i lp rp children = take i children ++ (lp ∷ (rp ∷ drop (suc i) children))

module _ {F : Type 0} (p : Pages F) where
  -- The leaf with one more entry, whole or in two halves.
  unfoldable pub grow_leaf : ℕ → List Key → List (List ℕ) → Action (Bpt F) AddRes
  unfolding actions built take_id key_copy
  grow_leaf id wk wv t =
      let nlen = length wk in
      let mid = (nlen + 1) / 2 in
      (if ltb nlen t.m.order then (do n ← built p (leaf id wk wv); pure (whole false n)) else (do
        l ← built p (leaf id (take mid wk) (take mid wv))
        new_id ← take_id p
        r ← built p (leaf new_id (drop mid wk) (drop mid wv))
        k ← key_copy p (get_or wk mid no_key)
        pure (split l r k)))
        t

  unfoldable pub add_leaf : Node → Key → List ℕ → Action (Bpt F) AddRes
  unfolding actions on_pages grow_leaf built key_lower_bound
  add_leaf nd key val =
      let i = key_lower_bound nd.keys key in
      do
        nb ← on_pages p (p.store_value val)
        if ltb i (length nd.keys) && key_eq key (get_or nd.keys i no_key)
            then (do n ← built p (leaf nd.id nd.keys (set nd.values i nb)); pure (whole true n))
            else grow_leaf nd.id (insert_at i key nd.keys) (insert_at i nb nd.values)

  unfoldable pub grow_internal : ℕ → List Key → List ℕ → Action (Bpt F) AddRes
  unfolding actions built take_id key_copy
  grow_internal id wk wc t =
      let nkeys = length wk in
      let mid = (nkeys + 1) / 2 - 1 in
      (if ltb nkeys t.m.order
          then (do n ← built p (internal id wk wc); pure (whole false n))
          else (do
            l ← built p (internal id (take mid wk) (take (suc mid) wc))
            new_id ← take_id p
            r ← built p (internal new_id (drop (suc mid) wk) (drop (suc mid) wc))
            k ← key_copy p (get_or wk mid no_key)
            pure (split l r k)))
        t

  -- What an internal node makes of its child's outcome.
  unfoldable pub add_child : Node → ℕ → AddRes → Action (Bpt F) AddRes
  unfolding actions on_pages built grow_internal
  add_child nd i (whole updated n) = do
    ncp ← on_pages p (p.save_node n)
    n' ← built p (internal nd.id nd.keys (set nd.children i ncp))
    pure (whole updated n')
  add_child nd i (split l r k) = do
    lp ← on_pages p (p.save_node l)
    rp ← on_pages p (p.save_node r)
    grow_internal nd.id (insert_at i k nd.keys) (split_at i lp rp nd.children)

  -- The first argument counts the levels that are allowed below: none at depth 129.
  unfoldable pub add_node : ℕ → ℕ → Key → List ℕ → Action (Bpt F) AddRes
  unfolding actions on_pages add_leaf add_child key_upper_bound
  add_node zero ptr key val = fail depth
  add_node (suc levels) ptr key val = do
    nd ← on_pages p (p.parse_node ptr)
    let i = key_upper_bound nd.keys key
    let below = do cr ← add_node levels (get_or nd.children i 0) key val; add_child nd i cr
    if nd.is_leaf then add_leaf nd key val else below

  unfoldable pub new_root : AddRes → Action (Bpt F) Node
  unfolding actions on_pages built take_id
  new_root (whole updated n) = pure n
  new_root (split l r k) = do
    lp ← on_pages p (p.save_node l)
    rp ← on_pages p (p.save_node r)
    id ← take_id p
    built p (internal id (k ∷ []) (lp ∷ rp ∷ []))

  abbrev pub is_updated : AddRes → Bool
  is_updated (whole updated n) = updated
  is_updated (split l r k) = false

  abbrev pub with_meta : BptMeta → Bpt F → Bpt F
  with_meta m t = record t { m = m }

  unfoldable pub add_root : Key → List ℕ → Action (Bpt F) Unit
  unfolding actions on_pages add_node new_root
  add_root key val = do
    t ← get
    res ← add_node (suc max_depth) t.m.root key val
    n ← new_root res
    rootp ← on_pages p (p.save_node n)
    t' ← get
    let size = if is_updated res then t'.m.size else add64 t'.m.size 1
    let m : BptMeta = record (t'.m) { root = rootp; size = size }
    put (with_meta m t')
    on_pages p (p.save_metadata m)

  -- The end of a change: keep it, or drop what is pending and roll back to the state before.
  unfoldable pub finish : Bpt F → Result (Unit {0}) × Bpt F → Result (Unit {0}) × Bpt F
  finish old (ok u, t) = (ok u, t)
  finish old (err e, t) = (
    err e,
    record t {
      f = p.discard t.f;
      m = record (t.m) { root = old.m.root; next_id = old.m.next_id; size = old.m.size };
    },
  )

  unfoldable pub changed : Action (Bpt F) Unit → Action (Bpt F) Unit
  unfolding actions on_pages finish
  changed change t = finish t ((do change; on_pages p p.commit) t)

  unfoldable pub bpt_add : Key → List ℕ → Action (Bpt F) Unit
  unfolding changed add_root key_storable
  bpt_add key val t =
      if t.read_only || not (key_storable key) then (err state, t) else changed (add_root key val) t
