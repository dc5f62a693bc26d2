-- ===== src/Tests/Trees.antt =====
-- A tree of src/bplustree.c over pages in memory, and the tree's theorems at it.
use binjson_structures.Shared.{
  ℕ, zero, suc, ◌≡◌, refl, ap, arith, inl, inr, true, false, Option, none, some, List, [], ◌∷◌,
  ◌++◌, length, get_elem?, ltb, if◌then◌else◌, Bool-cases,
}
use binjson_structures.Shared.Result.{Result, ok, err, Err, eof}
use binjson_structures.Bptree.Key.{Key, str, key_cmp, key_storable}
use binjson_structures.Bptree.Node.{Node, Pages, Bpt}
use binjson_structures.Bptree.Order.{Lt, Lt-Le, Le_refl}
use binjson_structures.Bptree.Entries.{Entry}
use binjson_structures.Bptree.Tree.{View, Content, content, Body}
use binjson_structures.Bptree.Laws.{Laws, Later_refl}
use binjson_structures.Bptree.Refine.{IsMap}
use binjson_structures.Bptree.Frame.{Discards}

-- The pages in memory: a pointer is a position, a blob is its value.
abbrev pub read_page : List Content → Option Content → Result Node × List Content
read_page f none = (err eof, f)
read_page f (some q) = (
  ok (record {
    id = 0;
    is_leaf = q.is_leaf;
    keys = q.keys;
    values = q.values;
    children = q.children;
  }),
  f,
)

abbrev pub memory : Pages (List Content)
memory = record {
  parse_node = λ c f. read_page f (get_elem? f c);
  save_node = λ n f. (ok (length f), f ++ (content n ∷ []));
  store_value = λ v f. (ok v, f);
  resolve_value = λ b f. (ok b, f);
  save_metadata = λ m f. (ok tt, f);
  commit = λ f. (ok tt, f);
  discard = λ f. f;
  copies = λ n. true;
}

abbrev pub in_memory : View (List Content)
in_memory = record { node_at = λ f c. get_elem? f c; value_at = λ f b. some b }

-- The same pages with a commit that fails for a lack of room behind the third page: first all pages,
-- then the committed ones, to which a discard goes back.
abbrev pub narrow : Pages (List Content × List Content)
narrow = record {
  parse_node = λ c f. let (r, pages) = read_page f.0 (get_elem? f.0 c) in (r, (pages, f.1));
  save_node = λ n f. (ok (length f.0), (f.0 ++ (content n ∷ []), f.1));
  store_value = λ v f. (ok v, f);
  resolve_value = λ b f. (ok b, f);
  save_metadata = λ m f. (ok tt, f);
  commit = λ f. if ltb 3 (length f.0) then (err eof, f) else (ok tt, (f.0, f.0));
  discard = λ f. (f.1, f.1);
  copies = λ n. true;
}

-- What counts are the pages that a lookup reads.
abbrev pub pages : List Content × List Content → List Content
pages f = f.0

pub narrow-Discards : Discards narrow pages
narrow-Discards = record {
  parse = λ c f. refl;
  save = λ n f. refl;
  store = λ v f. refl;
  metadata = λ m f. refl;
  commit_ok = λ f g e. elim (Bool-cases (ltb 3 (length f.0))) [
    | inl full ↦ cc (ap (λ q. q.0) (rw full at e))
    | inr fits ↦ rw (← ap (λ q. q.1) (rw fits at e)) refl
  ];
  commit_err = λ f g x e. elim (Bool-cases (ltb 3 (length f.0))) [
    | inl full ↦ rw (← ap (λ q. q.1) (rw full at e)) refl
    | inr fits ↦ cc (ap (λ q. q.0) (rw fits at e))
  ];
}

get_elem?-last : (f : List Content) (q : Content) → get_elem? (f ++ (q ∷ [])) (length f) ≡ some q
get_elem?-last [] q = refl
get_elem?-last (x ∷ f) q = get_elem?-last f q

get_elem?-append :
    (f : List Content) (x q : Content) (c : ℕ)
    → get_elem? f c ≡ some q
    → get_elem? (f ++ (x ∷ [])) c ≡ some q
get_elem?-append [] x q c h = cc
get_elem?-append (y ∷ f) x q zero h = h
get_elem?-append (y ∷ f) x q (suc c) h = get_elem?-append f x q c h

abbrev pub Any : {A : Type 0} → A → Type 0
Any a = Unit

abbrev pub Never : Err → Type 0
Never e = ⊥

pub memory-Laws : Laws in_memory Any Any Never memory
memory-Laws = record {
  parse = λ c q f h. rw h (refl, Later_refl in_memory f);
  save = λ n f w. (
    get_elem?-last f (content n),
    record { nodes = λ c q h. get_elem?-append f (content n) q c h; values = λ b v h. h },
  );
  store = λ v f h. (refl, Later_refl in_memory f);
  resolve = λ b v f h. (some-injective b v h, Later_refl in_memory f);
  metadata = λ m f. Later_refl in_memory f;
  commit = λ f. Later_refl in_memory f;
  copies = λ n. inl refl;
}
  where
    value : Option (List ℕ) → List ℕ
    value none = []
    value (some v) = v

    some-injective : (b v : List ℕ) → some b ≡ some v → b ≡ v
    some-injective b v h = ap value h

abbrev pub key_a : Key
key_a = str (97 ∷ [])

abbrev pub key_c : Key
key_c = str (99 ∷ [])

abbrev pub key_d : Key
key_d = str (100 ∷ [])

abbrev pub key_e : Key
key_e = str (101 ∷ [])

-- Two leaves under a root, of order 3.
abbrev left_page : Content
left_page = record { is_leaf = true; keys = key_a ∷ []; values = (1 ∷ []) ∷ []; children = [] }

abbrev right_page : Content
right_page = record {
  is_leaf = true;
  keys = key_c ∷ key_e ∷ [];
  values = (3 ∷ []) ∷ (5 ∷ []) ∷ [];
  children = [];
}

abbrev root_page : Content
root_page = record { is_leaf = false; keys = key_c ∷ []; values = []; children = 0 ∷ 1 ∷ [] }

abbrev pub tree : Bpt (List Content)
tree = record {
  f = left_page ∷ right_page ∷ root_page ∷ [];
  out = record { bytes = []; cap = 0 };
  m = record { root = 2; next_id = 3; size = 3; order = 3; min_keys = 1; applied_index = 0 };
  read_only = false;
  cursors = 0;
}

abbrev pub narrow_tree : Bpt (List Content × List Content)
narrow_tree = record {
  f = (tree.f, tree.f);
  out = tree.out;
  m = tree.m;
  read_only = false;
  cursors = 0;
}

abbrev pub entries : List Entry
entries = (key_a, 1 ∷ []) ∷ (key_c, 3 ∷ []) ∷ (key_e, 5 ∷ []) ∷ []

a-c : Lt key_a key_c
unfolding key_cmp key_storable
a-c = record { left = refl; right = refl; below = refl }

pub c-e : Lt key_c key_e
unfolding key_cmp key_storable
c-e = record { left = refl; right = refl; below = refl }

pub tree-IsMap : IsMap in_memory Any 1 tree entries
unfolding Body key_storable
tree-IsMap = record {
  tree = (
    root_page,
    refl,
    (
      (refl, refl),
      (
        (key_a, 1 ∷ []) ∷ [],
        (key_c, 3 ∷ []) ∷ (key_e, 5 ∷ []) ∷ [],
        refl,
        (refl, tt),
        (left_page, refl, ((refl, refl), (refl, refl, ((refl, tt), Lt-Le key_a key_c a-c), tt))),
        (a-c, tt),
        (
          right_page,
          refl,
          (
            (refl, refl),
            (
              refl,
              refl,
              ((refl, tt), Le_refl key_c refl),
              (refl, refl, (((refl, tt), Lt-Le key_c key_e c-e), c-e), tt),
            ),
          ),
        ),
      ),
    ),
  );
  size = refl;
  order = omega arith;
}
