-- ===== src/Bptree/Moves.antt =====
-- A tree of src/bplustree.c stands in every later state of its file, and its nodes can be written.
use binjson_structures.Shared.{
  ℕ, zero, suc, ◌+◌, ◌≡◌, refl, ap, arith, true, false, List, [], ◌∷◌, length,
}
use binjson_structures.Shared.Words.{All}
use binjson_structures.Bptree.Key.{Key}
use binjson_structures.Bptree.Entries.{Entry}
use binjson_structures.Bptree.Tree.{View, Content, Rows, Forest, Body, IsTree, From, Over}
use binjson_structures.Bptree.Sound.{IsTree_weaken}
use binjson_structures.Bptree.Focus.{Moves, Forest-move}
use binjson_structures.Bptree.Leaf.{Rows-move}
use binjson_structures.Bptree.Position.{Stored}
use binjson_structures.Bptree.Split.{Rows-IsOrdered, Forest-IsOrdered, All-map}
use binjson_structures.Bptree.Laws.{Later, IsBlob, IsPointer, IsWritable}

module _ {F : Type 0} (view : View F) where
  pub Body-move :
      (h : ℕ) (f g : F)
      → Later view f g
      → (P : Key → Type 0) (q : Content) (es : List Entry) → Body view h f P q es
      → Body view h g P q es
  unfolding Body
  Body-move zero f g m P q es (l, r) = (l, Rows-move view f g m.values P q.keys q.values es r)
  Body-move (suc h) f g m P q es (l, t) = (
    l,
    Forest-move (IsTree view h f) (IsTree view h g)
        (λ P c es t. (t.0, m.nodes c t.0 t.1, Body-move h f g m P t.0 es t.2)) P q.keys q.children
        es t,
  )

  pub IsTree_move : (h : ℕ) (f g : F) → Later view f g → Moves (IsTree view h f) (IsTree view h g)
  IsTree_move h f g m P c es (q, e, b) = (q, m.nodes c q e, Body-move h f g m P q es b)

  Rows-blobs :
      (f : F) (P : Key → Type 0) (ks : List Key) (bs : List (List ℕ)) (es : List Entry)
      → Rows view f P ks bs es
      → All (IsBlob view f) bs × (length bs ≡ length ks)
  Rows-blobs f P [] [] es r = (tt, refl)
  Rows-blobs f P [] (b ∷ bs) es no_way = elim no_way [ ]
  Rows-blobs f P (k ∷ ks) [] es no_way = elim no_way [ ]
  Rows-blobs f P (k ∷ ks) (b ∷ bs) [] no_way = elim no_way [ ]
  Rows-blobs f P (k ∷ ks) (b ∷ bs) ((j, v) ∷ es) (e, hv, pk, rest) =
      let (a, l) = Rows-blobs f (Over P k) ks bs es rest in (((v, hv), a), ap suc l)

  Forest-pointers :
      (h : ℕ) (f : F) (P : Key → Type 0) (ks : List Key) (cs : List ℕ) (es : List Entry)
      → Forest (IsTree view h f) P ks cs es
      → All (IsPointer view f) cs × (length cs ≡ length ks + 1)
  Forest-pointers h f P [] [] es no_way = elim no_way [ ]
  Forest-pointers h f P [] (c ∷ []) es t = (((t.0, t.1), tt), omega arith)
  Forest-pointers h f P [] (c ∷ (d ∷ cs)) es no_way = elim no_way [ ]
  Forest-pointers h f P (k ∷ ks) [] es no_way = elim no_way [ ]
  Forest-pointers h f P (k ∷ ks) (c ∷ cs) es (l, r, e, pk, t, low, rest) =
      let (a, n) = Forest-pointers h f (From P k) ks cs r rest in
      (((t.0, t.1), a), omega (arith, n))

  -- The file takes the node of a tree, where it keeps the tree's keys and the unused list is empty.
  pub leaf-IsWritable :
      (Kept : Key → Type 0) (f : F) (P : Key → Type 0) (ks : List Key) (bs : List (List ℕ))
      (es : List Entry)
      → ((x : Key) → P x → Stored x)
      → ((x : Key) → P x → Kept x)
      → Rows view f P ks bs es
      → IsWritable view Kept f (record { is_leaf = true; keys = ks; values = bs; children = [] })
  leaf-IsWritable Kept f P ks bs es st kept r = record {
    keys = All-map kept ks (Rows-IsOrdered view f P ks bs es st r).0;
    values = (Rows-blobs f P ks bs es r).0;
    children = tt;
    shape = (Rows-blobs f P ks bs es r).1;
  }

  pub internal-IsWritable :
      (Kept : Key → Type 0) (h : ℕ) (f : F) (P : Key → Type 0) (ks : List Key) (cs : List ℕ)
      (es : List Entry)
      → ((x : Key) → P x → Stored x)
      → ((x : Key) → P x → Kept x)
      → Forest (IsTree view h f) P ks cs es
      → IsWritable view Kept f (record { is_leaf = false; keys = ks; values = []; children = cs })
  internal-IsWritable Kept h f P ks cs es st kept t = record {
    keys =
        All-map kept ks
          (Forest-IsOrdered (IsTree view h f) (IsTree_weaken view h f) P ks cs es st t).0;
    values = tt;
    children = (Forest-pointers h f P ks cs es t).0;
    shape = (Forest-pointers h f P ks cs es t).1;
  }

  pub Body-IsWritable :
      (Kept : Key → Type 0) (h : ℕ) (f : F) (P : Key → Type 0) (q : Content) (es : List Entry)
      → ((x : Key) → P x → Stored x)
      → ((x : Key) → P x → Kept x)
      → Body view h f P q es
      → IsWritable view Kept f q
  unfolding Body
  Body-IsWritable Kept zero f P q es st kept ((kind, none), r) =
      let w = leaf-IsWritable Kept f P q.keys q.values es st kept r in
      record { keys = w.keys; values = w.values; children = rw none tt; shape = rw kind w.shape }
  Body-IsWritable Kept (suc h) f P q es st kept ((kind, none), t) =
      let w = internal-IsWritable Kept h f P q.keys q.children es st kept t in
      record { keys = w.keys; values = rw none tt; children = w.children; shape = rw kind w.shape }
