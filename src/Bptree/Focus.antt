-- ===== src/Bptree/Focus.antt =====
-- The child that a key belongs to, and what an internal node becomes when the child changes.
use binjson_structures.Shared.{
  ℕ, zero, suc, ◌≡◌, refl, ap, sym, ◌∙◌, List, [], ◌∷◌, ◌++◌, append_assoc, append-nil, get_or, set,
}
use binjson_structures.Bptree.Key.{Key}
use binjson_structures.Bptree.Insert.{insert_at, split_at}
use binjson_structures.Bptree.Order.{Lt, Le, Lt-Le_trans, Le_trans, Lt-Le}
use binjson_structures.Bptree.Entries.{
  Entry, Every, Every-map, Every-append, Every-right, Every-unit, Before, Behind,
}
use binjson_structures.Bptree.Tree.{Trees, Forest, Under, From}
use binjson_structures.Bptree.Position.{UpperAt}
use binjson_structures.Bptree.Sound.{Weakens, Forest-Every, Forest-weaken, Bounded}

-- What stands in one view of the file stands in another.
abbrev pub Moves : Trees → Trees → Type 1
Moves T U = (P : Key → Type 0) (c : ℕ) (es : List Entry) → T P c es → U P c es

pub record Focus (T : Trees) (P : Key → Type 0) (ks : List Key) (cs : List ℕ) (es : List Entry)
    (key : Key) (i : ℕ) : Type 1 where
  pub bound : Key → Type 0
  pub narrower : (x : Key) → bound x → P x
  pub strict : Key → Type 0
  pub strict_key : strict key
  pub inside : P key → bound key
  pub before : List Entry
  pub middle : List Entry
  pub behind : List Entry
  pub entries : es ≡ before ++ (middle ++ behind)
  pub below : Before key before
  pub above : Behind key behind
  pub child : T bound (get_or cs i 0) middle
  pub strict_middle : Every strict middle
  pub plug :
      (U : Trees)
      → Weakens U
      → Moves T U
      → (c : ℕ) (m : List Entry) → U bound c m
      → Every strict m
      → Forest U P ks (set cs i c) (before ++ (m ++ behind))
  pub plug_pair :
      (U : Trees)
      → Weakens U
      → Moves T U
      → (k : Key) (c d : ℕ) (l r : List Entry) → bound k
      → U (Under bound k) c l
      → U (From bound k) d r
      → Before k l
      → Every strict (l ++ r)
      → Forest U P (insert_at i k ks) (split_at i c d cs) (before ++ ((l ++ r) ++ behind))

pub Forest-move :
    (T U : Trees)
    → Moves T U
    → (P : Key → Type 0) (ks : List Key) (cs : List ℕ) (es : List Entry) → Forest T P ks cs es
    → Forest U P ks cs es
Forest-move T U m P [] [] es no_way = elim no_way [ ]
Forest-move T U m P [] (c ∷ []) es t = m P c es t
Forest-move T U m P [] (c ∷ (d ∷ cs)) es no_way = elim no_way [ ]
Forest-move T U m P (k ∷ ks) [] es no_way = elim no_way [ ]
Forest-move T U m P (k ∷ ks) (c ∷ cs) es (l, r, e, pk, t, low, rest) =
    (l, r, e, pk, m (Under P k) c l t, low, Forest-move T U m (From P k) ks cs r rest)

module _ (T : Trees) (b : Bounded T) (key : Key) where
  only : (P : Key → Type 0) (c : ℕ) (es : List Entry) → T P c es → Focus T P [] (c ∷ []) es key 0
  only P c es t = record {
    bound = P;
    narrower = λ x h. h;
    strict = λ x. Unit;
    strict_key = tt;
    inside = λ h. h;
    before = [];
    middle = es;
    behind = [];
    entries = sym (append-nil es);
    below = tt;
    above = tt;
    child = t;
    strict_middle = Every-unit es;
    plug = λ U w m c' es' t' _. rw (append-nil es') t';
    plug_pair = λ U w m k c d l r pk tl tr low _. (l, r, append-nil (l ++ r), pk, tl, low, tr);
  }

  first :
      (P : Key → Type 0) (k : Key) (ks : List Key) (c : ℕ) (cs : List ℕ) (l r : List Entry)
      → Lt key k
      → P k
      → T (Under P k) c l
      → Before k l
      → Forest T (From P k) ks cs r
      → Focus T P (k ∷ ks) (c ∷ cs) (l ++ r) key 0
  first P k ks c cs l r h pk t low rest = record {
    bound = Under P k;
    narrower = λ x g. g.0;
    strict = λ x. Lt x k;
    strict_key = h;
    inside = λ g. (g, Lt-Le key k h);
    before = [];
    middle = l;
    behind = r;
    entries = refl;
    below = tt;
    above =
        Every-map (λ x g. Lt-Le_trans key k x h g.1) r (Forest-Every T b (From P k) ks cs r rest);
    child = t;
    strict_middle = low;
    plug =
        λ U w m c' es' t' lo. (es', r, refl, pk, t', lo, Forest-move T U m (From P k) ks cs r rest);
    plug_pair = λ U w m k' c d l' r' pk' tl tr lo los. (
      l',
      r' ++ r,
      append_assoc l' r' r,
      pk'.0,
      w (Under (Under P k) k') (Under P k') (λ x g. (g.0.0, g.1)) c l' tl,
      lo,
      (
        r',
        r,
        refl,
        (pk, pk'.1),
        w (From (Under P k) k') (Under (From P k') k) (λ x g. ((g.0.0, g.1), g.0.1)) d r' tr,
        Every-right (λ x. Lt x k) l' r' los,
        Forest-weaken U w (From P k) (From (From P k') k)
            (λ x g. ((g.0, Le_trans k' k x pk'.1 g.1), g.1)) ks cs r
            (Forest-move T U m (From P k) ks cs r rest),
      ),
    );
  }

  later :
      (P : Key → Type 0) (k : Key) (ks : List Key) (c : ℕ) (cs : List ℕ) (l r : List Entry) (i : ℕ)
      → Le k key
      → P k
      → T (Under P k) c l
      → Before k l
      → Focus T (From P k) ks cs r key i
      → Focus T P (k ∷ ks) (c ∷ cs) (l ++ r) key (suc i)
  later P k ks c cs l r i h pk t low z = record {
    bound = z.bound;
    narrower = λ x g. (z.narrower x g).0;
    strict = z.strict;
    strict_key = z.strict_key;
    inside = λ g. z.inside (g, h);
    before = l ++ z.before;
    middle = z.middle;
    behind = z.behind;
    entries =
        ap (λ (s : List Entry). l ++ s) z.entries
        ∙ sym (append_assoc l z.before (z.middle ++ z.behind));
    below =
        Every-append (λ x. Lt x key) l z.before (Every-map (λ x g. Lt-Le_trans x k key g h) l low)
          z.below;
    above = z.above;
    child = z.child;
    strict_middle = z.strict_middle;
    plug = λ U w m c' es' t' lo. (
      l,
      z.before ++ (es' ++ z.behind),
      append_assoc l z.before (es' ++ z.behind),
      pk,
      m (Under P k) c l t,
      low,
      z.plug U w m c' es' t' lo,
    );
    plug_pair = λ U w m k' c' d' l' r' pk' tl tr lo los. (
      l,
      z.before ++ ((l' ++ r') ++ z.behind),
      append_assoc l z.before ((l' ++ r') ++ z.behind),
      pk,
      m (Under P k) c l t,
      low,
      z.plug_pair U w m k' c' d' l' r' pk' tl tr lo los,
    );
  }

  pub focus :
      (P : Key → Type 0) (ks : List Key) (cs : List ℕ) (es : List Entry) (i : ℕ)
      → Forest T P ks cs es
      → UpperAt key ks i
      → Focus T P ks cs es key i
  focus P [] [] es i no_way h = elim no_way [ ]
  focus P [] (c ∷ []) es i t h = rw h (only P c es t)
  focus P [] (c ∷ (d ∷ cs)) es i no_way h = elim no_way [ ]
  focus P (k ∷ ks) [] es i no_way h = elim no_way [ ]
  focus P (k ∷ ks) (c ∷ cs) es zero (l, r, e, pk, t, low, rest) h =
      rw e (first P k ks c cs l r h pk t low rest)
  focus P (k ∷ ks) (c ∷ cs) es (suc i) (l, r, e, pk, t, low, rest) (h, hs) =
      rw e (later P k ks c cs l r i h pk t low (focus (From P k) ks cs r i rest hs))
