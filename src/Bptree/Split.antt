-- ===== src/Bptree/Split.antt =====
-- A full node of src/bplustree.c in two halves, with the key between them.
use binjson_structures.Shared.{
  ℕ, zero, suc, ◌<◌, ◌≡◌, refl, ap, sym, ◌∙◌, arith, List, [], ◌∷◌, ◌++◌, append_assoc, get_or,
  take, drop, length,
}
use binjson_structures.Shared.Words.{All}
use binjson_structures.Bptree.Key.{Key, no_key}
use binjson_structures.Bptree.Order.{Lt, Lt-Le_trans, Le_trans, Lt-Le, Le_refl}
use binjson_structures.Bptree.Position.{Stored, IsOrdered}
use binjson_structures.Bptree.Entries.{Entry, Every-map, Every-append, Before}
use binjson_structures.Bptree.Tree.{View, Trees, Rows, Forest, Under, From, Over}
use binjson_structures.Bptree.Sound.{Weakens, Rows-weaken, Forest-weaken}

pub All-map : {P Q : Key → Type 0} → ((x : Key) → P x → Q x) → (ks : List Key) → All P ks → All Q ks
All-map f [] h = tt
All-map f (k ∷ ks) (h, hs) = (f k h, All-map f ks hs)

module _ {F : Type 0} (view : View F) (f : F) where
  pub record LeafHalves (P : Key → Type 0) (ks : List Key) (bs : List (List ℕ)) (es : List Entry)
      (i : ℕ) : Type 0 where
    pub left : List Entry
    pub right : List Entry
    pub entries : es ≡ left ++ right
    pub middle : P (get_or ks i no_key)
    pub left_rows : Rows view f (Under P (get_or ks i no_key)) (take i ks) (take i bs) left
    pub left_before : Before (get_or ks i no_key) left
    pub right_rows : Rows view f (From P (get_or ks i no_key)) (drop i ks) (drop i bs) right

  pub leaf_halves :
      (P : Key → Type 0) (ks : List Key) (bs : List (List ℕ)) (es : List Entry) (i : ℕ)
      → ((x : Key) → P x → Stored x)
      → i < length ks
      → Rows view f P ks bs es
      → LeafHalves P ks bs es i
  leaf_halves P [] bs es i st h r = absurd (omega arith)
  leaf_halves P (k ∷ ks) [] es i st h no_way = elim no_way [ ]
  leaf_halves P (k ∷ ks) (b ∷ bs) [] i st h no_way = elim no_way [ ]
  leaf_halves P (k ∷ ks) (b ∷ bs) ((j, v) ∷ es) zero st h (e, hv, pk, rest) = record {
    left = [];
    right = (j, v) ∷ es;
    entries = refl;
    middle = pk;
    left_rows = tt;
    left_before = tt;
    right_rows = (
      e,
      hv,
      (pk, Le_refl k (st k pk)),
      Rows-weaken view f (Over P k) (Over (From P k) k) (λ x g. ((g.0, Lt-Le k x g.1), g.1)) ks bs
          es rest,
    );
  }
  leaf_halves P (k ∷ ks) (b ∷ bs) ((j, v) ∷ es) (suc i) st h (e, hv, pk, rest) =
      let z = leaf_halves (Over P k) ks bs es i (λ x g. st x g.0) (omega arith) rest in
      let m = get_or ks i no_key in
      record {
        left = (j, v) ∷ z.left;
        right = z.right;
        entries = ap (λ (s : List Entry). (j, v) ∷ s) z.entries;
        middle = z.middle.0;
        left_rows = (
          e,
          hv,
          (pk, Lt-Le k m z.middle.1),
          Rows-weaken view f (Under (Over P k) m) (Over (Under P m) k)
              (λ x g. ((g.0.0, g.1), g.0.1)) (take i ks) (take i bs) z.left z.left_rows,
        );
        left_before = (rw e at z.middle.1, z.left_before);
        right_rows =
            Rows-weaken view f (From (Over P k) m) (From P m) (λ x g. (g.0.0, g.1)) (drop i ks)
              (drop i bs) z.right z.right_rows;
      }

  pub Rows-IsOrdered :
      (P : Key → Type 0) (ks : List Key) (bs : List (List ℕ)) (es : List Entry)
      → ((x : Key) → P x → Stored x)
      → Rows view f P ks bs es
      → All P ks × IsOrdered ks
  Rows-IsOrdered P [] bs es st r = (tt, tt)
  Rows-IsOrdered P (k ∷ ks) [] es st no_way = elim no_way [ ]
  Rows-IsOrdered P (k ∷ ks) (b ∷ bs) [] st no_way = elim no_way [ ]
  Rows-IsOrdered P (k ∷ ks) (b ∷ bs) ((j, v) ∷ es) st (e, hv, pk, rest) =
      let (a, o) = Rows-IsOrdered (Over P k) ks bs es (λ x g. st x g.0) rest in
      ((pk, All-map (λ x g. g.0) ks a), (st k pk, All-map (λ x g. Lt-Le k x g.1) ks a, o))

module _ (T : Trees) (w : Weakens T) where
  pub record NodeHalves (P : Key → Type 0) (ks : List Key) (cs : List ℕ) (es : List Entry) (i : ℕ)
      : Type 0 where
    pub left : List Entry
    pub right : List Entry
    pub entries : es ≡ left ++ right
    pub middle : P (get_or ks i no_key)
    pub left_forest : Forest T (Under P (get_or ks i no_key)) (take i ks) (take (suc i) cs) left
    pub left_before : Before (get_or ks i no_key) left
    pub right_forest :
        Forest T (From P (get_or ks i no_key)) (drop (suc i) ks) (drop (suc i) cs) right

  pub node_halves :
      (P : Key → Type 0) (ks : List Key) (cs : List ℕ) (es : List Entry) (i : ℕ)
      → i < length ks
      → Forest T P ks cs es
      → NodeHalves P ks cs es i
  node_halves P [] cs es i h t = absurd (omega arith)
  node_halves P (k ∷ ks) [] es i h no_way = elim no_way [ ]
  node_halves P (k ∷ ks) (c ∷ cs) es zero h (l, r, e, pk, t, low, rest) = record {
    left = l;
    right = r;
    entries = e;
    middle = pk;
    left_forest = t;
    left_before = low;
    right_forest = rest;
  }
  node_halves P (k ∷ ks) (c ∷ cs) es (suc i) h (l, r, e, pk, t, low, rest) =
      let z = node_halves (From P k) ks cs r i (omega arith) rest in
      let m = get_or ks i no_key in
      record {
        left = l ++ z.left;
        right = z.right;
        entries =
            e ∙ (ap (λ (s : List Entry). l ++ s) z.entries ∙ sym (append_assoc l z.left z.right));
        middle = z.middle.0;
        left_forest = (
          l,
          z.left,
          refl,
          (pk, z.middle.1),
          w (Under P k) (Under (Under P m) k) (λ x g. ((g.0, Le_trans x k m g.1 z.middle.1), g.1)) c
              l t,
          low,
          Forest-weaken T w (Under (From P k) m) (From (Under P m) k) (λ x g. ((g.0.0, g.1), g.0.1))
              (take i ks) (take (suc i) cs) z.left z.left_forest,
        );
        left_before =
            Every-append (λ x. Lt x m) l z.left
              (Every-map (λ x g. Lt-Le_trans x k m g z.middle.1) l low) z.left_before;
        right_forest =
            Forest-weaken T w (From (From P k) m) (From P m) (λ x g. (g.0.0, g.1)) (drop (suc i) ks)
              (drop (suc i) cs) z.right z.right_forest;
      }

  pub Forest-IsOrdered :
      (P : Key → Type 0) (ks : List Key) (cs : List ℕ) (es : List Entry)
      → ((x : Key) → P x → Stored x)
      → Forest T P ks cs es
      → All P ks × IsOrdered ks
  Forest-IsOrdered P [] cs es st t = (tt, tt)
  Forest-IsOrdered P (k ∷ ks) [] es st no_way = elim no_way [ ]
  Forest-IsOrdered P (k ∷ ks) (c ∷ cs) es st (l, r, e, pk, t, low, rest) =
      let (a, o) = Forest-IsOrdered (From P k) ks cs r (λ x g. st x g.0) rest in
      ((pk, All-map (λ x g. g.0) ks a), (st k pk, All-map (λ x g. g.1) ks a, o))
