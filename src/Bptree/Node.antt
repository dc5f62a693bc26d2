-- ===== src/Bptree/Node.antt =====
-- The nodes and the state of src/bplustree.c, over the operations on its file.
use binjson_structures.Shared.{ℕ, Bool, true, false, List, [], ◌∷◌}
use binjson_structures.Shared.Words.{add64}
use binjson_structures.Shared.Result.{ok, oom}
use binjson_structures.Shared.State.{Action, ◌>>◌, pure, check, actions}
use binjson_structures.Dbuf.{Dbuf}
use binjson_structures.Bptree.Key.{Key}

-- `bpt_node`. A value is the blob that the leaf holds.
pub record Node : Type 0 where
  pub id : ℕ
  pub is_leaf : Bool
  pub keys : List Key
  pub values : List (List ℕ)
  pub children : List ℕ

-- The arguments of `node_build_leaf` and `node_build_internal`.
abbrev pub leaf : ℕ → List Key → List (List ℕ) → Node
leaf id keys values = record {
  id = id;
  is_leaf = true;
  keys = keys;
  values = values;
  children = [];
}

abbrev pub internal : ℕ → List Key → List ℕ → Node
internal id keys children = record {
  id = id;
  is_leaf = false;
  keys = keys;
  values = [];
  children = children;
}

-- The fields of `bpt` that a metadata record holds.
pub record BptMeta : Type 0 where
  pub root : ℕ
  pub next_id : ℕ
  pub size : ℕ
  pub order : ℕ
  pub min_keys : ℕ
  pub applied_index : ℕ

-- What the tree asks of its file, whose state is `F`. `copies` says whether malloc serves the arrays
-- that a node takes.
pub record Pages (F : Type 0) : Type 0 where
  pub parse_node : ℕ → Action F Node
  pub save_node : Node → Action F ℕ
  pub store_value : List ℕ → Action F (List ℕ)
  pub resolve_value : List ℕ → Action F (List ℕ)
  pub save_metadata : BptMeta → Action F (Unit {0})
  pub commit : Action F (Unit {0})
  pub discard : F → F
  pub copies : Node → Bool

-- `bpt`. The size is the pattern of an int64_t.
pub record Bpt (F : Type 0) : Type 0 where
  pub f : F
  pub out : Dbuf
  pub m : BptMeta
  pub read_only : Bool
  pub cursors : ℕ

-- BPT_MAX_DEPTH: a walk of so many levels below the root is the longest.
abbrev pub max_depth : ℕ
max_depth = 128

module _ {F : Type 0} (p : Pages F) where
  unfoldable pub on_pages : {A : Type 0} → Action F A → Action (Bpt F) A
  on_pages m t = let (r, f) = m t.f in (r, record t { f = f })

  -- Deep copies of the arrays into a new node.
  unfoldable pub built : Node → Action (Bpt F) Node
  unfolding actions
  built n = do check (p.copies n) oom; pure n

  unfoldable pub key_copy : Key → Action (Bpt F) Key
  unfolding actions
  key_copy k = do check (p.copies (leaf 0 (k ∷ []) [])) oom; pure k

  -- `t->next_id++`
  unfoldable pub take_id : Action (Bpt F) ℕ
  take_id t = (ok t.m.next_id, record t { m = record (t.m) { next_id = add64 t.m.next_id 1 } })
