-- ===== src/Bptree/Stored.antt =====
-- src/bplustree.c: what bpt_add stores, bpt_search finds.
use binjson_structures.Shared.{
  ℕ, ◌+◌, ◌/◌, ◌^◌, ◌≤◌, ◌<◌, ◌≡◌, ap, sym, ◌∙◌, arith, false, Option, some, List, length,
}
use binjson_structures.Shared.Result.{Result, ok, err, Err}
use binjson_structures.Shared.State.{◌>>◌, actions}
use binjson_structures.Dbuf.Capacity.{Platform}
use binjson_structures.Dbuf.Growth.{IsValid}
use binjson_structures.Bptree.Key.{Key}
use binjson_structures.Bptree.Node.{Pages, Bpt, max_depth}
use binjson_structures.Bptree.Insert.{bpt_add}
use binjson_structures.Bptree.Search.{bpt_search}
use binjson_structures.Bptree.Entries.{Entry, insert, lookup-insert}
use binjson_structures.Bptree.Tree.{View}
use binjson_structures.Bptree.Laws.{Laws, Ends, Ends_bind, Ends_map}
use binjson_structures.Bptree.Refine.{IsMap, Usable, bpt_add-insert}
use binjson_structures.Bptree.Frame.{Frame}
use binjson_structures.Bptree.Rollback.{bpt_add-Frame}
use binjson_structures.Bptree.Found.{Memory, bpt_search-lookup}

Ends_both :
    {S A : Type 0} (P : A → S → Type 0) (R : S → Type 0) (M : Err → Type 0) (r : Result A × S)
    → Ends P M r
    → R r.1
    → Ends (λ a s. P a s × R s) M r
Ends_both P R M (ok a, s) h g = (h, g)
Ends_both P R M (err e, s) h g = h

module _ {F : Type 0} (view : View F) (Kept : Key → Type 0) (Value : List ℕ → Type 0)
    (MayFail : Err → Type 0) (p : Pages F) (laws : Laws view Kept Value MayFail p) (plat : Platform)
    (wide : 256 ≤ plat.size_max) (memory : Memory plat MayFail) where
  -- On a writable tree that stands for `es`, with room in the height and in the count, a `bpt_add` and a
  -- `bpt_search` of the same key, with a value that a buffer can hold, end in that value and a tree for
  -- `insert key val es`, or in an error that the file's operations and memory allow.
  pub bpt_search-bpt_add :
      (h : ℕ) (key : Key) (val : List ℕ) (es : List Entry) (t : Bpt F)
      → t.read_only ≡ false
      → h < max_depth
      → Usable view Kept key
      → Value val
      → length val ≤ plat.size_max / 2
      → length es + 1 < 2 ^ 64
      → IsValid plat t.out
      → IsMap view Kept h t es
      → Ends
          (λ r t'. (r ≡ some val) × ((h' : ℕ) × IsMap view Kept h' t' (insert key val es)))
          MayFail
          (((bpt_add p key val) >> (bpt_search plat p key)) t)
  unfolding actions
  bpt_search-bpt_add h key val es t wr l uk hv small fits valid i =
      let found = lookup-insert key val es uk.0 in
      Ends_bind _ _ MayFail (bpt_add p key val t) _
        (Ends_both _ (Frame p t) MayFail (bpt_add p key val t)
          (bpt_add-insert view Kept Value MayFail p laws h key val es t wr (omega arith) uk hv fits
            i)
          (bpt_add-Frame p t key val))
        (λ u t1 ((h1, low, i1), fr).
          Ends_map _ _ MayFail (bpt_search plat p key t1)
            (bpt_search-lookup view Kept Value MayFail p laws plat wide memory h1 key
              (insert key val es) t1 (omega (arith, low)) uk.0
              (λ v e. rw (some-injective val v (sym found ∙ e)) at small) (rw fr valid) i1)
            (λ r t2 (e, i2). (e ∙ found, (h1, i2))))
    where
      some-injective : (a b : List ℕ) → some a ≡ some b → a ≡ b
      some-injective a b e = ap (λ (o : Option (List ℕ)). value_of o) e
        where
          value_of : Option (List ℕ) → List ℕ
          value_of Option.none = a
          value_of (some v) = v
