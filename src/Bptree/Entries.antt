-- ===== src/Bptree/Entries.antt =====
-- What the tree of src/bplustree.c promises: a map from keys to values, as a list in key order.
use Prim.Native.Nat.Ordering.{lt, eq, gt}
use binjson_structures.Shared.{
  ℕ, suc, ◌≡◌, refl, ap, arith, Bool, true, false, Option, none, some, List, [], ◌∷◌, ◌++◌, inl,
  inr, if◌then◌else◌, length,
}
use binjson_structures.Bptree.Key.{Key, key_cmp, key_eq, key_storable}
use binjson_structures.Bptree.Order.{
  Lt, Le, Lt_trans, Lt-Le_trans, key_cmp-above, key_cmp_refl, key_cmp-cases, Ordering-cases,
}

abbrev pub Entry : Type 0
Entry = Key × List ℕ

abbrev pub lookup : Key → List Entry → Option (List ℕ)
lookup key [] = none
lookup key ((k, v) ∷ es) = if key_eq key k then some v else lookup key es

abbrev pub has : Key → List Entry → Bool
has key [] = false
has key ((k, v) ∷ es) = if key_eq key k then true else has key es

-- The new entry takes its place in the order. A key that is there stays, with the new value.
abbrev pub insert : Key → List ℕ → List Entry → List Entry
insert key v [] = (key, v) ∷ []
insert key v ((k, w) ∷ es) = elim (key_cmp key k) [
  | lt ↦ (key, v) ∷ ((k, w) ∷ es)
  | eq ↦ (k, v) ∷ es
  | gt ↦ (k, w) ∷ insert key v es
]

abbrev pub Every : (Key → Type 0) → List Entry → Type 0
Every P [] = Unit
Every P ((k, v) ∷ es) = P k × Every P es

abbrev pub Before : Key → List Entry → Type 0
Before key = Every (λ k. Lt k key)

abbrev pub Behind : Key → List Entry → Type 0
Behind key = Every (λ k. Lt key k)

pub Every-map :
    {P Q : Key → Type 0} → ((x : Key) → P x → Q x) → (es : List Entry) → Every P es → Every Q es
Every-map f [] h = tt
Every-map f ((k, v) ∷ es) (h, hs) = (f k h, Every-map f es hs)

pub Every-append : (P : Key → Type 0) (l r : List Entry) → Every P l → Every P r → Every P (l ++ r)
Every-append P [] r _ h = h
Every-append P ((k, v) ∷ l) r (h, hs) g = (h, Every-append P l r hs g)

pub Every-left : (P : Key → Type 0) (l r : List Entry) → Every P (l ++ r) → Every P l
Every-left P [] r h = tt
Every-left P ((k, v) ∷ l) r (h, hs) = (h, Every-left P l r hs)

pub Every-right : (P : Key → Type 0) (l r : List Entry) → Every P (l ++ r) → Every P r
Every-right P [] r h = h
Every-right P ((k, v) ∷ l) r (h, hs) = Every-right P l r hs

pub Every-unit : (es : List Entry) → Every (λ k. Unit) es
Every-unit [] = tt
Every-unit ((k, v) ∷ es) = (tt, Every-unit es)

pub insert-Every :
    (P : Key → Type 0) (key : Key) (v : List ℕ) (es : List Entry)
    → P key
    → Every P es
    → Every P (insert key v es)
insert-Every P key v [] p h = (p, tt)
insert-Every P key v ((k, w) ∷ es) p (h, hs) = elim (Ordering-cases (key_cmp key k)) [
  | inl e ↦ rw (insert, e) (p, (h, hs))
  | inr (inl e) ↦ rw (insert, e) (h, hs)
  | inr (inr e) ↦ rw (insert, e) (h, insert-Every P key v es p hs)
]

pub lookup-left : (key : Key) (l m : List Entry) → Before key l → lookup key (l ++ m) ≡ lookup key m
lookup-left key [] m _ = refl
lookup-left key ((k, v) ∷ l) m (h, hs) = rw (key_cmp-above k key h) (lookup-left key l m hs)

pub lookup-none : (key : Key) (r : List Entry) → Behind key r → lookup key r ≡ none
lookup-none key [] _ = refl
lookup-none key ((k, v) ∷ r) (h, hs) = rw h.below (lookup-none key r hs)

pub lookup-right :
    (key : Key) (m r : List Entry) → Behind key r → lookup key (m ++ r) ≡ lookup key m
lookup-right key [] r h = lookup-none key r h
lookup-right key ((k, v) ∷ m) r h = rw (lookup-right key m r h) refl

pub has-left : (key : Key) (l m : List Entry) → Before key l → has key (l ++ m) ≡ has key m
has-left key [] m _ = refl
has-left key ((k, v) ∷ l) m (h, hs) = rw (key_cmp-above k key h) (has-left key l m hs)

pub has-none : (key : Key) (r : List Entry) → Behind key r → has key r ≡ false
has-none key [] _ = refl
has-none key ((k, v) ∷ r) (h, hs) = rw h.below (has-none key r hs)

pub has-right : (key : Key) (m r : List Entry) → Behind key r → has key (m ++ r) ≡ has key m
has-right key [] r h = has-none key r h
has-right key ((k, v) ∷ m) r h = rw (has-right key m r h) refl

pub insert-left :
    (key : Key) (v : List ℕ) (l m : List Entry)
    → Before key l
    → insert key v (l ++ m) ≡ l ++ insert key v m
insert-left key v [] m _ = refl
insert-left key v ((k, w) ∷ l) m (h, hs) =
    rw (insert, key_cmp-above k key h)
      (ap (λ (r : List Entry). (k, w) ∷ r) (insert-left key v l m hs))

insert-front :
    (key : Key) (v : List ℕ) (r : List Entry) → Behind key r → insert key v r ≡ (key, v) ∷ r
insert-front key v [] _ = refl
insert-front key v ((k, w) ∷ r) (h, hs) = rw (insert, h.below) refl

pub insert-right :
    (key : Key) (v : List ℕ) (m r : List Entry)
    → Behind key r
    → insert key v (m ++ r) ≡ insert key v m ++ r
insert-right key v [] r h = insert-front key v r h
insert-right key v ((k, w) ∷ m) r h = ground (arith, insert-right key v m r h)

pub lookup-insert :
    (key : Key) (v : List ℕ) (es : List Entry)
    → key_storable key ≡ true
    → lookup key (insert key v es) ≡ some v
lookup-insert key v [] h = rw (key_cmp_refl key h) refl
lookup-insert key v ((k, w) ∷ es) h = elim (Ordering-cases (key_cmp key k)) [
  | inl e ↦ rw (insert, e, lookup, key_cmp_refl key h) refl
  | inr (inl e) ↦ rw (insert, e, lookup, e) refl
  | inr (inr e) ↦ rw (insert, e, lookup, e) (lookup-insert key v es h)
]

abbrev pub Storable : List Entry → Type 0
Storable = Every (λ k. key_storable k ≡ true)

-- The keys ascend strictly.
abbrev pub Ascending : List Entry → Type 0
Ascending [] = Unit
Ascending ((k, v) ∷ es) = Behind k es × Ascending es

Behind-trans : (a b : Key) (es : List Entry) → Lt a b → Behind b es → Behind a es
Behind-trans a b es h = Every-map (λ x g. Lt_trans a b x h g) es

pub Ascending-append :
    (k : Key) (l r : List Entry)
    → Before k l
    → Every (λ x. Le k x) r
    → Ascending l
    → Ascending r
    → Ascending (l ++ r)
Ascending-append k [] r _ _ _ h = h
Ascending-append k ((j, v) ∷ l) r (b, bs) g (h, hs) a = (
  Every-append (λ x. Lt j x) l r h (Every-map (λ x q. Lt-Le_trans j k x b q) r g),
  Ascending-append k l r bs g hs a,
)

-- The number of entries grows by one where the key is new.
pub length-insert :
    (key : Key) (v : List ℕ) (es : List Entry)
    → key_storable key ≡ true
    → Storable es
    → Ascending es
    → length (insert key v es) ≡ (if has key es then length es else suc (length es))
length-insert key v [] _ _ _ = refl
length-insert key v ((k, w) ∷ es) hk (hs, hss) (a, rest) = elim (key_cmp-cases key k hk hs) [
  | inl h ↦ rw (insert, h.below, has-none key es (Behind-trans key k es h a)) refl
  | inr (inl e) ↦ rw (insert, e) refl
  | inr (inr h) ↦
      rw (insert, key_cmp-above k key h) (ground (arith, length-insert key v es hk hss rest))
]
