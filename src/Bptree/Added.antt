-- ===== src/Bptree/Added.antt =====
-- src/bplustree.c: what a leaf and an internal node become when bpt_add passes through them.
use binjson_structures.Shared.{
  ℕ, suc, ◌+◌, ◌-◌, ◌/◌, ◌≤◌, ◌≡◌, refl, arith, inl, inr, Bool, false, List, ◌++◌, length, get_or,
  take, drop, ltb, ltb-false→le, Bool-cases,
}
use binjson_structures.Shared.Result.{Err}
use binjson_structures.Shared.State.{actions}
use binjson_structures.Bptree.Key.{Key, no_key}
use binjson_structures.Bptree.Node.{Node, leaf, internal, Pages, Bpt, take_id}
use binjson_structures.Bptree.Insert.{AddRes, whole, split, grow_leaf, grow_internal}
use binjson_structures.Bptree.Entries.{Entry, Before}
use binjson_structures.Bptree.Position.{Stored}
use binjson_structures.Bptree.Tree.{View, content, Rows, Forest, Body, IsTree, Under, From}
use binjson_structures.Bptree.Sound.{IsTree_weaken}
use binjson_structures.Bptree.Split.{leaf_halves, node_halves}
use binjson_structures.Bptree.Laws.{Laws, Ends, IsWritable}
use binjson_structures.Bptree.Moves.{leaf-IsWritable, internal-IsWritable}
use binjson_structures.Bptree.Steps.{Steps, Steps-refl, built_bind, key_copy_bind, take_id_step}

-- Bounds that keep to the keys that may be stored and that the file gives back.
pub record Sane (Kept : Key → Type 0) (P : Key → Type 0) : Type 0 where
  pub stored : (x : Key) → P x → Stored x
  pub kept : (x : Key) → P x → Kept x

module _ {F : Type 0} (view : View F) (Kept : Key → Type 0) where
  -- A node that is not written yet, with its place in a tree.
  pub record Fresh (h : ℕ) (f : F) (P : Key → Type 0) (n : Node) (es : List Entry) : Type 0 where
    pub body : Body view h f P (content n) es
    pub writable : IsWritable view Kept f (content n)

  pub record Halves (h : ℕ) (f : F) (P : Key → Type 0) (l r : Node) (k : Key) (es : List Entry)
      : Type 0 where
    pub left : List Entry
    pub right : List Entry
    pub entries : es ≡ left ++ right
    pub middle : P k
    pub left_node : Fresh h f (Under P k) l left
    pub left_before : Before k left
    pub right_node : Fresh h f (From P k) r right

  -- What stands for the entries `es` behind an insertion, which replaced a value or not.
  abbrev pub Grown : ℕ → F → (Key → Type 0) → List Entry → Bool → AddRes → Type 0
  Grown h f P es u (whole u' n) = (u' ≡ u) × Fresh h f P n es
  Grown h f P es u (split l r k) = (u ≡ false) × Halves h f P l r k es

  pub Sane-Under : (P : Key → Type 0) (k : Key) → Sane Kept P → Sane Kept (Under P k)
  Sane-Under P k s = record { stored = λ x g. s.stored x g.0; kept = λ x g. s.kept x g.0 }

  pub Sane-From : (P : Key → Type 0) (k : Key) → Sane Kept P → Sane Kept (From P k)
  Sane-From P k s = record { stored = λ x g. s.stored x g.0; kept = λ x g. s.kept x g.0 }

  pub Fresh-leaf :
      (f : F) (P : Key → Type 0) (id : ℕ) (ks : List Key) (bs : List (List ℕ)) (es : List Entry)
      → Sane Kept P
      → Rows view f P ks bs es
      → Fresh 0 f P (leaf id ks bs) es
  unfolding Body
  Fresh-leaf f P id ks bs es s r = record {
    body = ((refl, refl), r);
    writable = leaf-IsWritable view Kept f P ks bs es s.stored s.kept r;
  }

  pub Fresh-internal :
      (h : ℕ) (f : F) (P : Key → Type 0) (id : ℕ) (ks : List Key) (cs : List ℕ) (es : List Entry)
      → Sane Kept P
      → Forest (IsTree view h f) P ks cs es
      → Fresh (suc h) f P (internal id ks cs) es
  unfolding Body
  Fresh-internal h f P id ks cs es s t = record {
    body = ((refl, refl), t);
    writable = internal-IsWritable view Kept h f P ks cs es s.stored s.kept t;
  }

  module _ (Value : List ℕ → Type 0) (MayFail : Err → Type 0) (p : Pages F)
      (laws : Laws view Kept Value MayFail p) where
    -- A leaf with its new entries, whole or in two halves.
    pub grow_leaf_lem :
        (id : ℕ) (ks : List Key) (bs : List (List ℕ)) (P : Key → Type 0) (es : List Entry)
        (t : Bpt F)
        → Sane Kept P
        → 2 ≤ t.m.order
        → Rows view t.f P ks bs es
        → Ends
            (λ res t'. Steps view t t' × Grown 0 t'.f P es false res)
            MayFail
            (grow_leaf p id ks bs t)
    unfolding grow_leaf actions take_id
    grow_leaf_lem id ks bs P es t s o r = elim (Bool-cases (ltb (length ks) t.m.order)) [
      | inl small ↦ rw small (
          built_bind view Kept Value MayFail p laws _ (leaf id ks bs) t _
            (Steps-refl view t, (refl, Fresh-leaf t.f P id ks bs es s r)))
      | inr big ↦
          let mid = (length ks + 1) / 2 in
          let k = get_or ks mid no_key in
          let z =
            leaf_halves view t.f P ks bs es mid s.stored
              (omega (arith, ltb-false→le (length ks) t.m.order big)) r in
          rw big (
            built_bind view Kept Value MayFail p laws _ (leaf id (take mid ks) (take mid bs)) t _ (
              built_bind view Kept Value MayFail p laws _
                (leaf t.m.next_id (drop mid ks) (drop mid bs)) _ _
                (key_copy_bind view Kept Value MayFail p laws _ k _ _ (
                  take_id_step view Kept Value MayFail p laws t,
                  (
                    refl,
                    record {
                      left = z.left;
                      right = z.right;
                      entries = z.entries;
                      middle = z.middle;
                      left_node =
                          Fresh-leaf t.f (Under P k) id (take mid ks) (take mid bs) z.left
                            (Sane-Under P k s) z.left_rows;
                      left_before = z.left_before;
                      right_node =
                          Fresh-leaf t.f (From P k) t.m.next_id (drop mid ks) (drop mid bs) z.right
                            (Sane-From P k s) z.right_rows;
                    },
                  ),
                ))))
    ]

    -- An internal node with its new children, whole or in two halves.
    pub grow_internal_lem :
        (h id : ℕ) (ks : List Key) (cs : List ℕ) (P : Key → Type 0) (es : List Entry) (t : Bpt F)
        → Sane Kept P
        → 2 ≤ t.m.order
        → Forest (IsTree view h t.f) P ks cs es
        → Ends
            (λ res t'. Steps view t t' × Grown (suc h) t'.f P es false res)
            MayFail
            (grow_internal p id ks cs t)
    unfolding grow_internal actions take_id
    grow_internal_lem h id ks cs P es t s o r = elim (Bool-cases (ltb (length ks) t.m.order)) [
      | inl small ↦ rw small (
          built_bind view Kept Value MayFail p laws _ (internal id ks cs) t _
            (Steps-refl view t, (refl, Fresh-internal h t.f P id ks cs es s r)))
      | inr big ↦
          let mid = (length ks + 1) / 2 - 1 in
          let k = get_or ks mid no_key in
          let z =
            node_halves (IsTree view h t.f) (IsTree_weaken view h t.f) P ks cs es mid
              (omega (arith, ltb-false→le (length ks) t.m.order big)) r in
          rw big (
            built_bind view Kept Value MayFail p laws _
              (internal id (take mid ks) (take (suc mid) cs)) t _
              (built_bind view Kept Value MayFail p laws _
                (internal t.m.next_id (drop (suc mid) ks) (drop (suc mid) cs)) _ _
                (key_copy_bind view Kept Value MayFail p laws _ k _ _ (
                  take_id_step view Kept Value MayFail p laws t,
                  (
                    refl,
                    record {
                      left = z.left;
                      right = z.right;
                      entries = z.entries;
                      middle = z.middle;
                      left_node =
                          Fresh-internal h t.f (Under P k) id (take mid ks) (take (suc mid) cs)
                            z.left (Sane-Under P k s) z.left_forest;
                      left_before = z.left_before;
                      right_node =
                          Fresh-internal h t.f (From P k) t.m.next_id (drop (suc mid) ks)
                            (drop (suc mid) cs) z.right (Sane-From P k s) z.right_forest;
                    },
                  ),
                ))))
    ]
