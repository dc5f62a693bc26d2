-- ===== src/Bptree/Tree.antt =====
-- The tree that the pages of src/bplustree.c hold, and the entries that it stands for.
use binjson_structures.Shared.{
  ℕ, zero, suc, ◌≡◌, Bool, true, false, Option, some, List, [], ◌∷◌, ◌++◌,
}
use binjson_structures.Bptree.Key.{Key}
use binjson_structures.Bptree.Node.{Node}
use binjson_structures.Bptree.Order.{Lt, Le}
use binjson_structures.Bptree.Entries.{Entry, Before}

-- A node without its id, which nothing but the file's reader looks at.
pub record Content : Type 0 where
  pub is_leaf : Bool
  pub keys : List Key
  pub values : List (List ℕ)
  pub children : List ℕ

abbrev pub content : Node → Content
content n = record { is_leaf = n.is_leaf; keys = n.keys; values = n.values; children = n.children }

-- What the file's state says at a pointer, and the value behind a blob.
pub record View (F : Type 0) : Type 0 where
  pub node_at : F → ℕ → Option Content
  pub value_at : F → List ℕ → Option (List ℕ)

abbrev pub Under : (Key → Type 0) → Key → Key → Type 0
Under P k x = P x × Le x k

abbrev pub From : (Key → Type 0) → Key → Key → Type 0
From P k x = P x × Le k x

abbrev pub Over : (Key → Type 0) → Key → Key → Type 0
Over P k x = P x × Lt k x

-- What a node's children are: a tree under a pointer, with its bounds and its entries.
abbrev pub Trees : Type 1
Trees = (Key → Type 0) → ℕ → List Entry → Type 0

-- The children of an internal node and its separators, which bound the children's keys.
abbrev pub Forest : Trees → (Key → Type 0) → List Key → List ℕ → List Entry → Type 0
Forest T P [] [] es = ⊥
Forest T P [] (c ∷ []) es = T P c es
Forest T P [] (c ∷ (d ∷ cs)) es = ⊥
Forest T P (k ∷ ks) [] es = ⊥
Forest T P (k ∷ ks) (c ∷ cs) es =
    (l : List Entry) × (r : List Entry) × (es ≡ l ++ r)
    × P k
    × T (Under P k) c l
    × Before k l
    × Forest T (From P k) ks cs r

module _ {F : Type 0} (view : View F) where
  -- A leaf's keys ascend, and its blobs stand for the values.
  abbrev pub Rows : F → (Key → Type 0) → List Key → List (List ℕ) → List Entry → Type 0
  Rows f P [] [] [] = Unit
  Rows f P [] [] (e ∷ es) = ⊥
  Rows f P [] (b ∷ bs) es = ⊥
  Rows f P (k ∷ ks) [] es = ⊥
  Rows f P (k ∷ ks) (b ∷ bs) [] = ⊥
  Rows f P (k ∷ ks) (b ∷ bs) ((j, v) ∷ es) =
      (k ≡ j) × (view.value_at f b ≡ some v) × P k × Rows f (Over P k) ks bs es

  -- The content that a pointer leads to.
  abbrev pub At : ((Key → Type 0) → Content → List Entry → Type 0) → F → Trees
  At B f P c es = (q : Content) × (view.node_at f c ≡ some q) × B P q es

  -- The content of a node of height `h`, in whose tree all keys satisfy `P`.
  unfoldable pub Body : ℕ → F → (Key → Type 0) → Content → List Entry → Type 0
  Body zero f P q es = ((q.is_leaf ≡ true) × (q.children ≡ [])) × Rows f P q.keys q.values es
  Body (suc h) f P q es =
      ((q.is_leaf ≡ false) × (q.values ≡ [])) × Forest (At (Body h f) f) P q.keys q.children es

  abbrev pub IsTree : ℕ → F → Trees
  IsTree h f = At (Body h f) f
