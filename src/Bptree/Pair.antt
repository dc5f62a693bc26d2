-- ===== src/Bptree/Pair.antt =====
-- Two neighbours under an internal node, and what the node becomes when they are joined.
use binjson_structures.Shared.{
  ℕ, zero, suc, ◌≡◌, refl, ap, sym, ◌∙◌, arith, List, [], ◌∷◌, ◌++◌, append_assoc, append-nil,
  get_or, set,
}
use binjson_structures.Bptree.Key.{Key, no_key}
use binjson_structures.Bptree.Delete.{remove_at}
use binjson_structures.Bptree.Order.{Lt, Lt-Le_trans, Le_trans}
use binjson_structures.Bptree.Entries.{
  Entry, Every, Every-map, Every-append, Every-right, Every-unit, Before, Behind,
}
use binjson_structures.Bptree.Tree.{Trees, Forest, Under, From}
use binjson_structures.Bptree.Position.{UpperAt}
use binjson_structures.Bptree.Sound.{Weakens, Forest-Every, Forest-weaken, Bounded}
use binjson_structures.Bptree.Focus.{Moves, Forest-move}

pub record Pair (T : Trees) (P : Key → Type 0) (ks : List Key) (cs : List ℕ) (es : List Entry)
    (li : ℕ) : Type 1 where
  pub bound : Key → Type 0
  pub narrower : (x : Key) → bound x → P x
  pub strict : Key → Type 0
  pub before : List Entry
  pub left : List Entry
  pub right : List Entry
  pub behind : List Entry
  pub entries : es ≡ before ++ ((left ++ right) ++ behind)
  pub middle : bound (get_or ks li no_key)
  pub left_tree : T (Under bound (get_or ks li no_key)) (get_or cs li 0) left
  pub left_before : Before (get_or ks li no_key) left
  pub right_tree : T (From bound (get_or ks li no_key)) (get_or cs (suc li) 0) right
  pub left_strict : Every strict left
  pub right_strict : Every strict right
  pub plug_one :
      (U : Trees)
      → Weakens U
      → Moves T U
      → (c : ℕ) (m : List Entry) → U bound c m
      → Every strict m
      → Forest U P (remove_at li ks) (set (remove_at (suc li) cs) li c) (before ++ (m ++ behind))
  pub plug_two :
      (U : Trees)
      → Weakens U
      → Moves T U
      → (k : Key) (c d : ℕ) (l r : List Entry) → bound k
      → U (Under bound k) c l
      → U (From bound k) d r
      → Before k l
      → Every strict (l ++ r)
      → Forest U P (set ks li k) (set (set cs li c) (suc li) d) (before ++ ((l ++ r) ++ behind))

module _ (T : Trees) (b : Bounded T) (w : Weakens T) where
  two :
      (P : Key → Type 0) (k : Key) (c d : ℕ) (l r : List Entry)
      → P k
      → T (Under P k) c l
      → Before k l
      → T (From P k) d r
      → Pair T P (k ∷ []) (c ∷ d ∷ []) (l ++ r) 0
  two P k c d l r pk t low u = record {
    bound = P;
    narrower = λ x h. h;
    strict = λ x. Unit;
    before = [];
    left = l;
    right = r;
    behind = [];
    entries = sym (append-nil (l ++ r));
    middle = pk;
    left_tree = t;
    left_before = low;
    right_tree = u;
    left_strict = Every-unit l;
    right_strict = Every-unit r;
    plug_one = λ U v m c' es' t' _. rw (append-nil es') t';
    plug_two =
        λ U v m k' c' d' l' r' pk' tl tr lo _. (l', r', append-nil (l' ++ r'), pk', tl, lo, tr);
  }

  more :
      (P : Key → Type 0) (k k2 : Key) (ks : List Key) (c d : ℕ) (cs : List ℕ) (l l2 r2 : List Entry)
      → P k
      → T (Under P k) c l
      → Before k l
      → From P k k2
      → T (Under (From P k) k2) d l2
      → Before k2 l2
      → Forest T (From (From P k) k2) ks cs r2
      → Pair T P (k ∷ (k2 ∷ ks)) (c ∷ (d ∷ cs)) (l ++ (l2 ++ r2)) 0
  more P k k2 ks c d cs l l2 r2 pk t low pk2 t2 low2 rest = record {
    bound = Under P k2;
    narrower = λ x g. g.0;
    strict = λ x. Lt x k2;
    before = [];
    left = l;
    right = l2;
    behind = r2;
    entries = sym (append_assoc l l2 r2);
    middle = (pk, pk2.1);
    left_tree =
        w (Under P k) (Under (Under P k2) k) (λ x g. ((g.0, Le_trans x k k2 g.1 pk2.1), g.1)) c l t;
    left_before = low;
    right_tree =
        w (Under (From P k) k2) (From (Under P k2) k) (λ x g. ((g.0.0, g.1), g.0.1)) d l2 t2;
    left_strict = Every-map (λ x g. Lt-Le_trans x k k2 g pk2.1) l low;
    right_strict = low2;
    plug_one = λ U v m c' es' t' lo. (
      es',
      r2,
      refl,
      pk2.0,
      t',
      lo,
      Forest-weaken U v (From (From P k) k2) (From P k2) (λ x g. (g.0.0, g.1)) ks cs r2
          (Forest-move T U m (From (From P k) k2) ks cs r2 rest),
    );
    plug_two = λ U v m k' c' d' l' r' pk' tl tr lo los. (
      l',
      r' ++ r2,
      append_assoc l' r' r2,
      pk'.0,
      v (Under (Under P k2) k') (Under P k') (λ x g. (g.0.0, g.1)) c' l' tl,
      lo,
      (
        r',
        r2,
        refl,
        (pk2.0, pk'.1),
        v (From (Under P k2) k') (Under (From P k') k2) (λ x g. ((g.0.0, g.1), g.0.1)) d' r' tr,
        Every-right (λ x. Lt x k2) l' r' los,
        Forest-weaken U v (From (From P k) k2) (From (From P k') k2)
            (λ x g. ((g.0.0, Le_trans k' k2 x pk'.1 g.1), g.1)) ks cs r2
            (Forest-move T U m (From (From P k) k2) ks cs r2 rest),
      ),
    );
  }

  shifted :
      (P : Key → Type 0) (k : Key) (ks : List Key) (c : ℕ) (cs : List ℕ) (l r : List Entry) (li : ℕ)
      → P k
      → T (Under P k) c l
      → Before k l
      → Pair T (From P k) ks cs r li
      → Pair T P (k ∷ ks) (c ∷ cs) (l ++ r) (suc li)
  shifted P k ks c cs l r li pk t low z = record {
    bound = z.bound;
    narrower = λ x g. (z.narrower x g).0;
    strict = z.strict;
    before = l ++ z.before;
    left = z.left;
    right = z.right;
    behind = z.behind;
    entries =
        ap (λ (s : List Entry). l ++ s) z.entries
        ∙ sym (append_assoc l z.before ((z.left ++ z.right) ++ z.behind));
    middle = z.middle;
    left_tree = z.left_tree;
    left_before = z.left_before;
    right_tree = z.right_tree;
    left_strict = z.left_strict;
    right_strict = z.right_strict;
    plug_one = λ U v m c' es' t' lo. (
      l,
      z.before ++ (es' ++ z.behind),
      append_assoc l z.before (es' ++ z.behind),
      pk,
      m (Under P k) c l t,
      low,
      z.plug_one U v m c' es' t' lo,
    );
    plug_two = λ U v m k' c' d' l' r' pk' tl tr lo los. (
      l,
      z.before ++ ((l' ++ r') ++ z.behind),
      append_assoc l z.before ((l' ++ r') ++ z.behind),
      pk,
      m (Under P k) c l t,
      low,
      z.plug_two U v m k' c' d' l' r' pk' tl tr lo los,
    );
  }

  -- The pair around a separator that the key is not below: the key belongs to the right one.
  abbrev pub KeyRight :
      (P : Key → Type 0) (ks : List Key) (cs : List ℕ) (es : List Entry) (li : ℕ) → Key → Type 1
  KeyRight P ks cs es li key =
      (z : Pair T P ks cs es li) × Before key z.before × Before key z.left × Behind key z.behind

  -- The pair around a separator that the key is below, the first one: the key belongs to the left one.
  abbrev pub KeyLeft :
      (P : Key → Type 0) (ks : List Key) (cs : List ℕ) (es : List Entry) → Key → Type 1
  KeyLeft P ks cs es key =
      (z : Pair T P ks cs es 0) × Before key z.before × Behind key z.right × Behind key z.behind

  pub key_right :
      (key : Key) (P : Key → Type 0) (ks : List Key) (cs : List ℕ) (es : List Entry) (li : ℕ)
      → Forest T P ks cs es
      → UpperAt key ks (suc li)
      → KeyRight P ks cs es li key
  unfolding two more shifted
  key_right key P [] cs es li f h = absurd (omega (arith, h))
  key_right key P (k ∷ ks) [] es li no_way h = elim no_way [ ]
  key_right key P (k ∷ []) (c ∷ []) es zero (l, r, e, pk, t, low, no_way) (h, g) = elim no_way [ ]
  key_right key P (k ∷ []) (c ∷ (d ∷ [])) es zero (l, r, e, pk, t, low, u) (h, g) =
      rw e (two P k c d l r pk t low u, tt, Every-map (λ x q. Lt-Le_trans x k key q h) l low, tt)
  key_right key P (k ∷ []) (c ∷ (d ∷ (d2 ∷ cs))) es zero (l, r, e, pk, t, low, no_way) (h, g) =
      elim no_way [ ]
  key_right key P (k ∷ (k2 ∷ ks)) (c ∷ []) es zero (l, r, e, pk, t, low, no_way) (h, g) =
      elim no_way [ ]
  key_right key P (k ∷ (k2 ∷ ks)) (c ∷ (d ∷ cs)) es zero
        (l, r, e, pk, t, low, (l2, r2, e2, pk2, t2, low2, rest)) (h, g) =
      rw (e, e2)
        (
          more P k k2 ks c d cs l l2 r2 pk t low pk2 t2 low2 rest,
          tt,
          Every-map (λ x q. Lt-Le_trans x k key q h) l low,
          Every-map (λ x q. Lt-Le_trans key k2 x g q.1) r2
              (Forest-Every T b (From (From P k) k2) ks cs r2 rest),
        )
  key_right key P (k ∷ ks) (c ∷ cs) es (suc li) (l, r, e, pk, t, low, rest) (h, hs) =
      let (z, bz, lz, az) = key_right key (From P k) ks cs r li rest hs in
      rw e (
        shifted P k ks c cs l r li pk t low z,
        Every-append (λ x. Lt x key) l z.before (Every-map (λ x q. Lt-Le_trans x k key q h) l low)
            bz,
        lz,
        az,
      )

  pub key_left :
      (key : Key) (P : Key → Type 0) (k : Key) (ks : List Key) (cs : List ℕ) (es : List Entry)
      → Forest T P (k ∷ ks) cs es
      → Lt key k
      → KeyLeft P (k ∷ ks) cs es key
  unfolding two more
  key_left key P k ks [] es no_way h = elim no_way [ ]
  key_left key P k [] (c ∷ []) es (l, r, e, pk, t, low, no_way) h = elim no_way [ ]
  key_left key P k [] (c ∷ (d ∷ [])) es (l, r, e, pk, t, low, u) h = rw e (
    two P k c d l r pk t low u,
    tt,
    Every-map (λ x q. Lt-Le_trans key k x h q.1) r (b (From P k) d r u),
    tt,
  )
  key_left key P k [] (c ∷ (d ∷ (d2 ∷ cs))) es (l, r, e, pk, t, low, no_way) h = elim no_way [ ]
  key_left key P k (k2 ∷ ks) (c ∷ []) es (l, r, e, pk, t, low, no_way) h = elim no_way [ ]
  key_left key P k (k2 ∷ ks) (c ∷ (d ∷ cs)) es
        (l, r, e, pk, t, low, (l2, r2, e2, pk2, t2, low2, rest)) h =
      rw (e, e2)
        (
          more P k k2 ks c d cs l l2 r2 pk t low pk2 t2 low2 rest,
          tt,
          Every-map (λ x q. Lt-Le_trans key k x h q.0.1) l2 (b (Under (From P k) k2) d l2 t2),
          Every-map (λ x q. Lt-Le_trans key k x h q.0.1) r2
              (Forest-Every T b (From (From P k) k2) ks cs r2 rest),
        )
