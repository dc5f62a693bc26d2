-- ===== src/Entrylog/Invariant/Table.antt =====
-- The entry table of src/entrylog.c: the part that a metadata record speaks of.
use binjson_structures.Shared.{
  ℕ, zero, suc, ◌+◌, ◌^◌, ◌≤◌, ◌<◌, ◌≡◌, refl, ap, arith, List, [], ◌∷◌, ◌++◌, length, take, get_or,
  length-drop,
}
use binjson_structures.Entrylog.Record.{ElMeta}
use binjson_structures.Entrylog.State.{ElEnt, Elog, store}

-- Terms never fall, from the base term on.
abbrev pub Ascending : ℕ → List ElEnt → Type 0
Ascending base [] = Unit
Ascending base (e ∷ es) = (base ≤ e.term) × Ascending e.term es

-- The term of the last entry, or the base term.
abbrev pub tail_term : ℕ → List ElEnt → ℕ
tail_term base [] = base
tail_term base (e ∷ es) = tail_term e.term es

pub Ascending-snoc :
    (base : ℕ) (es : List ElEnt) (e : ElEnt)
    → Ascending base es
    → tail_term base es ≤ e.term
    → Ascending base (es ++ (e ∷ []))
Ascending-snoc base [] e a h = (h, tt)
Ascending-snoc base (x ∷ es) e (lo, a) h = (lo, Ascending-snoc x.term es e a h)

pub tail_term-snoc :
    (base : ℕ) (es : List ElEnt) (e : ElEnt) → tail_term base (es ++ (e ∷ [])) ≡ e.term
tail_term-snoc base [] e = refl
tail_term-snoc base (x ∷ es) e = tail_term-snoc x.term es e

pub take-store :
    (k : ℕ) (es : List ElEnt) (i : ℕ) (e : ElEnt)
    → k ≤ i
    → i ≤ length es
    → take k (store es i e) ≡ take k es
unfolding store
take-store zero es i e h l = refl
take-store (suc k) es zero e h l = absurd (omega arith)
take-store (suc k) [] (suc i) e h l = absurd (omega arith)
take-store (suc k) (x ∷ es) (suc i) e h l =
    ap (λ (r : List ElEnt). x ∷ r) (take-store k es i e (omega arith) (omega arith))

pub take-suc-store :
    (es : List ElEnt) (i : ℕ) (e : ElEnt)
    → i ≤ length es
    → take (suc i) (store es i e) ≡ take i es ++ (e ∷ [])
unfolding store
take-suc-store es zero e l = refl
take-suc-store [] (suc i) e l = absurd (omega arith)
take-suc-store (x ∷ es) (suc i) e l =
    ap (λ (r : List ElEnt). x ∷ r) (take-suc-store es i e (omega arith))

pub length-store :
    (es : List ElEnt) (i : ℕ) (e : ElEnt)
    → i ≤ length es
    → (suc i ≤ length (store es i e)) × (length es ≤ length (store es i e))
unfolding store
length-store es zero e l = omega (arith, length-drop 1 es)
length-store [] (suc i) e l = absurd (omega arith)
length-store (x ∷ es) (suc i) e l = omega (arith, length-store es i e (omega arith))

pub Ascending-take :
    (k base : ℕ) (es : List ElEnt) (n : ℕ)
    → k ≤ n
    → Ascending base (take n es)
    → Ascending base (take k es)
Ascending-take zero base es n h a = tt
Ascending-take (suc k) base es zero h a = absurd (omega arith)
Ascending-take (suc k) base [] (suc n) h a = tt
Ascending-take (suc k) base (x ∷ es) (suc n) h (lo, a) =
    (lo, Ascending-take k x.term es n (omega arith) a)

-- The terms of an ascending table lie between the base term and that of the last entry.
pub base-le-tail_term : (base : ℕ) (es : List ElEnt) → Ascending base es → base ≤ tail_term base es
base-le-tail_term base [] a = omega arith
base-le-tail_term base (x ∷ es) (lo, a) = omega (arith, base-le-tail_term x.term es a)

pub tail_term-take :
    (k base : ℕ) (es : List ElEnt) (n : ℕ)
    → k ≤ n
    → Ascending base (take n es)
    → tail_term base (take k es) ≤ tail_term base (take n es)
tail_term-take zero base es n h a = base-le-tail_term base (take n es) a
tail_term-take (suc k) base es zero h a = absurd (omega arith)
tail_term-take (suc k) base [] (suc n) h a = omega arith
tail_term-take (suc k) base (x ∷ es) (suc n) h (lo, a) =
    tail_term-take k x.term es n (omega arith) a

pub tail_term-get :
    (k base : ℕ) (es : List ElEnt) (d : ElEnt)
    → k < length es
    → tail_term base (take (suc k) es) ≡ (get_or es k d).term
tail_term-get k base [] d h = absurd (omega arith)
tail_term-get zero base (x ∷ es) d h = refl
tail_term-get (suc k) base (x ∷ es) d h = tail_term-get k x.term es d (omega arith)

-- A metadata value that fits the table.
pub record IsConsistent (base_index base_term : ℕ) (ents : List ElEnt) (m : ElMeta) : Type 0 where
  pub bounds : m.last_index ≡ base_index + m.n_ents
  pub few : m.n_ents ≤ 0x7fffffff
  pub stored : m.n_ents ≤ length ents
  pub ascending : Ascending base_term (take m.n_ents ents)
  pub tail : m.last_term ≡ tail_term base_term (take m.n_ents ents)
  pub reached : m.last_term ≤ m.current_term
  pub commit_lo : base_index ≤ m.commit_index
  pub commit_hi : m.commit_index ≤ m.last_index

-- Both the live and the committed metadata fit the table; the live one is ahead, with the same hard
-- state.
pub record IsValid {Ctx : Type 0} (t : Elog Ctx) : Type 0 where
  pub wide : t.base_index + 2 ^ 32 < 2 ^ 64
  pub live : IsConsistent t.base_index t.base_term t.ents t.m
  pub committed : IsConsistent t.base_index t.base_term t.ents t.cm
  pub ahead : t.cm.n_ents ≤ t.m.n_ents
  pub commit_ahead : t.cm.commit_index ≤ t.m.commit_index
  pub same_term : t.m.current_term ≡ t.cm.current_term
  pub same_vote : t.m.voted_for ≡ t.cm.voted_for
