-- ===== src/Bptree/Search.antt =====
-- src/bplustree.c: bpt_search, the walks over a range, and the height of a tree.
use binjson_structures.Shared.{
  ℕ, zero, suc, ◌+◌, ◌-◌, Bool, false, ◌&&◌, ◌||◌, Option, none, some, List, [], ◌∷◌, ◌++◌, length,
  take, drop, get_or, if◌then◌else◌,
}
use binjson_structures.Shared.Result.{Result, state, depth}
use binjson_structures.Shared.State.{Action, ◌>>=◌, ◌>>◌, pure, fail, get, check, actions}
use binjson_structures.Dbuf.{Dbuf, dbuf_put}
use binjson_structures.Dbuf.Capacity.{Platform}
use binjson_structures.Bptree.Key.{
  Key, key_cmp, is_lt, is_gt, key_find, key_upper_bound, key_storable, bound_valid,
}
use binjson_structures.Bptree.Node.{Node, Pages, Bpt, max_depth, on_pages}

-- The bounds of a range; `none` is no filter.
abbrev pub Range : Type 0
Range = Option (Key × Key)

abbrev pub outside : Range → Key → Bool
outside none k = false
outside (some (mn, mx)) k = is_lt (key_cmp k mn) || is_gt (key_cmp k mx)

-- The first and the last child that may hold keys of the range.
abbrev pub first_child : Range → List Key → ℕ
first_child none keys = 0
first_child (some (mn, mx)) keys = key_upper_bound keys mn

abbrev pub last_child : Range → List Key → ℕ → ℕ
last_child none keys n_children = n_children - 1
last_child (some (mn, mx)) keys n_children = key_upper_bound keys mx

-- The children from `lo` to `hi`.
abbrev pub between : ℕ → ℕ → List ℕ → List ℕ
between lo hi children = drop lo (take (suc hi) children)

module _ {F : Type 0} (plat : Platform) (p : Pages F) where
  abbrev pub with_out : Bpt F → Result (Unit {0}) × Dbuf → Result (Unit {0}) × Bpt F
  with_out t (r, b) = (r, record t { out = b })

  unfoldable pub set_out : List ℕ → Action (Bpt F) Unit
  unfolding dbuf_put
  set_out b t = with_out t (dbuf_put plat b (record (t.out) { bytes = [] }))

  unfoldable pub search_leaf : Node → Option ℕ → Action (Bpt F) (Option (List ℕ))
  unfolding actions on_pages set_out
  search_leaf nd none = pure none
  search_leaf nd (some i) = do
    v ← on_pages p (p.resolve_value (get_or nd.values i []))
    set_out v
    t ← get
    pure (some t.out.bytes)

  unfoldable pub search_loop : ℕ → ℕ → Key → Action (Bpt F) (Option (List ℕ))
  unfolding actions on_pages search_leaf key_find key_upper_bound
  search_loop zero ptr key = fail depth
  search_loop (suc levels) ptr key = do
    nd ← on_pages p (p.parse_node ptr)
    let below = search_loop levels (get_or nd.children (key_upper_bound nd.keys key) 0) key
    if nd.is_leaf then search_leaf nd (key_find nd.keys key) else below

  unfoldable pub bpt_search : Key → Action (Bpt F) (Option (List ℕ))
  unfolding actions search_loop key_storable
  bpt_search key = do
    check (key_storable key) state
    t ← get
    search_loop (suc max_depth) t.m.root key

  -- The entries of a leaf that are in the range, with their values.
  unfoldable pub collect_leaf :
      Range → List Key → List (List ℕ) → Action (Bpt F) (List (Key × List ℕ))
  unfolding actions on_pages
  collect_leaf range [] values = pure []
  collect_leaf range (k ∷ ks) values = do
    here ←
        if outside range k
        then pure []
        else (do v ← on_pages p (p.resolve_value (get_or values 0 [])); pure ((k, v) ∷ []))
    rest ← collect_leaf range ks (drop 1 values)
    pure (here ++ rest)

  -- The children in turn.
  abbrev pub each : {A : Type 0} → (ℕ → Action (Bpt F) (List A)) → List ℕ → Action (Bpt F) (List A)
  each visit [] = pure []
  each visit (c ∷ cs) = do here ← visit c; rest ← each visit cs; pure (here ++ rest)

  -- In order. The caller's builder gets the entries one by one.
  unfoldable pub collect : ℕ → Range → ℕ → Action (Bpt F) (List (Key × List ℕ))
  unfolding actions on_pages collect_leaf key_upper_bound
  collect zero range ptr = fail depth
  collect (suc levels) range ptr = do
    nd ← on_pages p (p.parse_node ptr)
    let lo = first_child range nd.keys
    let hi = last_child range nd.keys (length nd.children)
    if nd.is_leaf
        then collect_leaf range nd.keys nd.values
        else each (collect levels range) (between lo hi nd.children)

  -- `encode` is the builder on the array of `{ key, value }` objects.
  module _ (encode : List (Key × List ℕ) → Result (List ℕ)) where
    unfoldable pub collect_to_out : Range → Action (Bpt F) (List ℕ)
    unfolding actions collect set_out
    collect_to_out range t0 =
        (do
          t ← get
          es ← collect (suc max_depth) range t.m.root
          d ← λ (s : Bpt F). (encode es, s)
          set_out d
          t' ← get
          pure t'.out.bytes)
          t0

    unfoldable pub bpt_entries : Action (Bpt F) (List ℕ)
    unfolding collect_to_out
    bpt_entries = collect_to_out none

    unfoldable pub bpt_range : Key → Key → Action (Bpt F) (List ℕ)
    unfolding actions collect_to_out
    bpt_range mn mx = do
      check (bound_valid mn && bound_valid mx) state
      collect_to_out (some (mn, mx))

  unfoldable pub height_loop : ℕ → ℕ → ℕ → Action (Bpt F) ℕ
  unfolding actions on_pages
  height_loop zero h ptr = fail depth
  height_loop (suc levels) h ptr = do
    nd ← on_pages p (p.parse_node ptr)
    let below = height_loop levels (h + 1) (get_or nd.children 0 0)
    if nd.is_leaf then pure h else below

  unfoldable pub bpt_height : Action (Bpt F) ℕ
  unfolding actions height_loop
  bpt_height = do t ← get; height_loop (suc max_depth) 0 t.m.root
