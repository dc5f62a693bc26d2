-- ===== src/Bptree/Listed.antt =====
-- src/bplustree.c: bpt_entries and bpt_range encode the tree's entries, all or those of the range.
use binjson_structures.Shared.{
  ℕ, suc, ◌/◌, ◌≤◌, ◌≡◌, refl, ap, ◌∙◌, arith, true, not, none, some, List, length,
}
use binjson_structures.Shared.Result.{Result, ok, Err}
use binjson_structures.Shared.State.{actions}
use binjson_structures.Dbuf.Capacity.{Platform}
use binjson_structures.Dbuf.Growth.{IsValid}
use binjson_structures.Bptree.Key.{Key, num, str, key_storable, bound_valid}
use binjson_structures.Bptree.Node.{Pages, Bpt, max_depth}
use binjson_structures.Bptree.Order.{finite-not_nan}
use binjson_structures.Bptree.Search.{
  Range, collect, set_out, collect_to_out, bpt_entries, bpt_range,
}
use binjson_structures.Bptree.Entries.{Entry}
use binjson_structures.Bptree.Position.{Stored}
use binjson_structures.Bptree.Tree.{View}
use binjson_structures.Bptree.Laws.{Laws, Ends, Ends_bind}
use binjson_structures.Bptree.Refine.{IsMap, IsMap-move, Usable}
use binjson_structures.Bptree.Found.{Memory, Read_refl, Read_trans, set_out_lem}
use binjson_structures.Bptree.Select.{Bounds, select, select_all}
use binjson_structures.Bptree.Ranged.{collect_lem}

Stored-bound_valid : (k : Key) → Stored k → bound_valid k ≡ true
unfolding bound_valid key_storable
Stored-bound_valid (num x) h = ap not (finite-not_nan x h)
Stored-bound_valid (str s) h = refl

module _ {F : Type 0} (view : View F) (Kept : Key → Type 0) (Value : List ℕ → Type 0)
    (MayFail : Err → Type 0) (p : Pages F) (laws : Laws view Kept Value MayFail p) (plat : Platform)
    (wide : 256 ≤ plat.size_max) (memory : Memory plat MayFail)
    (encode : List Entry → Result (List ℕ)) where
  collect_to_out_lem :
      (range : Range)
      → Bounds range
      → (h : ℕ) (es : List Entry) (d : List ℕ) (t : Bpt F) → h ≤ max_depth
      → encode (select range es) ≡ ok d
      → length d ≤ plat.size_max / 2
      → IsValid plat t.out
      → IsMap view Kept h t es
      → Ends
          (λ r t'. (r ≡ d) × IsMap view Kept h t' es)
          MayFail
          (collect_to_out plat p encode range t)
  unfolding collect_to_out actions
  collect_to_out_lem range b h es d t l enc small valid i =
      Ends_bind _ _ MayFail (collect plat p (suc max_depth) range t.m.root t) _
        (collect_lem view Kept Value MayFail p laws plat wide memory range b h (suc max_depth)
          t.m.root (Usable view Kept) es t (omega (arith, l)) (λ x g. g.0) i.tree t
          (Read_refl view Kept Value MayFail p laws plat wide memory t valid))
        (λ fs u (e, s).
          rw (e, enc)
            (Ends_bind _ _ MayFail (set_out plat p d u) _
              (set_out_lem view Kept Value MayFail p laws plat wide memory d u s.out small)
              (λ x w (eb, s2).
                let sw = Read_trans view Kept Value MayFail p laws plat wide memory t u w s s2 in
                (eb, IsMap-move view Kept h t w es sw.same sw.later i))))

  -- On a tree that stands for `es`, `bpt_entries` returns the encoding of `es`, and `bpt_range` with
  -- bounds that may be stored returns the encoding of those entries of `es` that are not outside the
  -- bounds, where these encodings exist and a buffer can hold them. Both leave a tree for `es`. The
  -- only other outcomes are errors that the file's operations and memory allow.
  pub listings_lem :
      (mn mx : Key) (h : ℕ) (es : List Entry) (d d' : List ℕ) (t : Bpt F)
      → h ≤ max_depth
      → Stored mn
      → Stored mx
      → encode es ≡ ok d
      → encode (select (some (mn, mx)) es) ≡ ok d'
      → length d ≤ plat.size_max / 2
      → length d' ≤ plat.size_max / 2
      → IsValid plat t.out
      → IsMap view Kept h t es
      → Ends (λ r t'. (r ≡ d) × IsMap view Kept h t' es) MayFail (bpt_entries plat p encode t)
        × Ends
            (λ r t'. (r ≡ d') × IsMap view Kept h t' es)
            MayFail
            (bpt_range plat p encode mn mx t)
  unfolding bpt_entries bpt_range actions
  listings_lem mn mx h es d d' t l a b enc enc' small small' valid i = (
    collect_to_out_lem none tt h es d t l (ap encode (select_all es) ∙ enc) small valid i,
    rw (Stored-bound_valid mn a, Stored-bound_valid mx b)
        (collect_to_out_lem (some (mn, mx)) (a, b) h es d' t l enc' small' valid i),
  )
