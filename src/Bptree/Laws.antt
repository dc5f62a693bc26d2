-- ===== src/Bptree/Laws.antt =====
-- What src/bplustree.c relies on when it reads and writes the pages of its file.
use binjson_structures.Shared.{ℕ, ◌+◌, ◌≡◌, ◌⊎◌, Bool, true, false, some, List, length}
use binjson_structures.Shared.Words.{All}
use binjson_structures.Shared.Result.{Result, ok, err, Err, oom}
use binjson_structures.Shared.State.{Action, bind_result}
use binjson_structures.Bptree.Key.{Key}
use binjson_structures.Bptree.Node.{Node, BptMeta, Pages}
use binjson_structures.Bptree.Tree.{View, Content, content}

-- What an action ends in: `P` on success, and one of the allowed errors otherwise.
abbrev pub Ends : {S A : Type 0} → (A → S → Type 0) → (Err → Type 0) → Result A × S → Type 0
Ends P M (ok a, s) = P a s
Ends P M (err e, s) = M e

pub Ends_bind :
    {S A B : Type 0} (P : A → S → Type 0) (Q : B → S → Type 0) (M : Err → Type 0) (r : Result A × S)
    (f : A → Action S B)
    → Ends P M r
    → ((a : A) (s : S) → P a s → Ends Q M (f a s))
    → Ends Q M (bind_result r f)
Ends_bind P Q M (ok a, s) f h k = k a s h
Ends_bind P Q M (err e, s) f h k = h

pub Ends_map :
    {S A : Type 0} (P Q : A → S → Type 0) (M : Err → Type 0) (r : Result A × S)
    → Ends P M r
    → ((a : A) (s : S) → P a s → Q a s)
    → Ends Q M r
Ends_map P Q M (ok a, s) h k = k a s h
Ends_map P Q M (err e, s) h k = h

module _ {F : Type 0} (view : View F) where
  -- What one state of the file holds, the next one holds.
  pub record Later (f g : F) : Type 0 where
    pub nodes : (c : ℕ) (q : Content) → view.node_at f c ≡ some q → view.node_at g c ≡ some q
    pub values : (b v : List ℕ) → view.value_at f b ≡ some v → view.value_at g b ≡ some v

  pub Later_refl : (f : F) → Later f f
  Later_refl f = record { nodes = λ c q h. h; values = λ b v h. h }

  pub Later_trans : (f g h : F) → Later f g → Later g h → Later f h
  Later_trans f g h a b = record {
    nodes = λ c q e. b.nodes c q (a.nodes c q e);
    values = λ x v e. b.values x v (a.values x v e);
  }

  -- A blob that stands for a value, and a pointer to a node.
  abbrev pub IsBlob : F → List ℕ → Type 0
  IsBlob f b = (v : List ℕ) × (view.value_at f b ≡ some v)

  abbrev pub IsPointer : F → ℕ → Type 0
  IsPointer f c = (q : Content) × (view.node_at f c ≡ some q)

  -- A leaf has a value for each key, an internal node one child more than keys.
  abbrev pub Shape : Bool → Content → Type 0
  Shape true q = length q.values ≡ length q.keys
  Shape false q = length q.children ≡ length q.keys + 1

  -- A node that the file can take: `Kept` are the keys that it gives back as they are.
  pub record IsWritable (Kept : Key → Type 0) (f : F) (q : Content) : Type 0 where
    pub keys : All Kept q.keys
    pub values : All (IsBlob f) q.values
    pub children : All (IsPointer f) q.children
    pub shape : Shape q.is_leaf q

  -- Every operation keeps what the file held, and fails with an allowed error at most.
  pub record Laws (Kept : Key → Type 0) (Value : List ℕ → Type 0) (MayFail : Err → Type 0)
      (p : Pages F) : Type 0 where
    pub parse :
        (c : ℕ) (q : Content) (f : F)
        → view.node_at f c ≡ some q
        → Ends (λ (n : Node) g. (content n ≡ q) × Later f g) MayFail (p.parse_node c f)
    pub save :
        (n : Node) (f : F)
        → IsWritable Kept f (content n)
        → Ends
            (λ (c : ℕ) g. (view.node_at g c ≡ some (content n)) × Later f g)
            MayFail
            (p.save_node n f)
    pub store :
        (v : List ℕ) (f : F)
        → Value v
        → Ends
            (λ (b : List ℕ) g. (view.value_at g b ≡ some v) × Later f g)
            MayFail
            (p.store_value v f)
    pub resolve :
        (b v : List ℕ) (f : F)
        → view.value_at f b ≡ some v
        → Ends (λ (w : List ℕ) g. (w ≡ v) × Later f g) MayFail (p.resolve_value b f)
    pub metadata : (m : BptMeta) (f : F) → Ends (λ u g. Later f g) MayFail (p.save_metadata m f)
    pub commit : (f : F) → Ends (λ u g. Later f g) MayFail (p.commit f)
    pub copies : (n : Node) → (p.copies n ≡ true) ⊎ MayFail oom
