-- ===== src/Tests/Maps.antt =====
-- The theorems on the tree of src/bplustree.c, at a tree of two leaves in memory.
use binjson_structures.Shared.{ℕ, ◌/◌, ◌≤◌, ◌≡◌, refl, arith, inr, some, List, [], ◌∷◌, length}
use binjson_structures.Shared.Result.{Result, ok, err, eof}
use binjson_structures.Shared.State.{◌>>◌}
use binjson_structures.Dbuf.Growth.{IsValid}
use binjson_structures.Bptree.Key.{key_cmp, key_storable, key_lower_bound, key_upper_bound}
use binjson_structures.Bptree.Insert.{bpt_add}
use binjson_structures.Bptree.Delete.{bpt_delete}
use binjson_structures.Bptree.Search.{bpt_search, bpt_entries, bpt_range}
use binjson_structures.Bptree.Order.{Lt-Le}
use binjson_structures.Bptree.Entries.{Entry, insert, lookup}
use binjson_structures.Bptree.Position.{LowerAt, UpperAt, key_bounds_lem}
use binjson_structures.Bptree.Laws.{Ends}
use binjson_structures.Bptree.Refine.{IsMap, bpt_add-insert}
use binjson_structures.Bptree.Rollback.{RolledBack, changes-RolledBack}
use binjson_structures.Bptree.Erase.{erase}
use binjson_structures.Bptree.Shrunk.{bpt_delete-erase}
use binjson_structures.Bptree.Found.{bpt_search-lookup}
use binjson_structures.Bptree.Stored.{bpt_search-bpt_add}
use binjson_structures.Bptree.Listed.{listings_lem}
use binjson_structures.Tests.Host.{plat}
use binjson_structures.Tests.Trees.{
  memory, narrow, pages, narrow-Discards, narrow_tree, in_memory, memory-Laws, Any, Never, key_a,
  key_c, key_d, key_e, c-e, tree, entries, tree-IsMap,
}

-- A stand-in for the array builder: the values one behind the other.
abbrev listing : List Entry → Result (List ℕ)
listing es = ok (length es ∷ [])

out-IsValid : IsValid plat tree.out
out-IsValid = record { room = omega arith; bounded = omega arith }

small_values : (v : List ℕ) → lookup key_c entries ≡ some v → length v ≤ plat.size_max / 2
unfolding key_cmp
small_values v e = rw (value_of v e) (omega arith)
  where
    value_of : (v : List ℕ) → some (3 ∷ []) ≡ some v → v ≡ 3 ∷ []
    value_of v e = cc

key_bounds_lem_example :
    LowerAt key_c (key_c ∷ key_e ∷ []) (key_lower_bound (key_c ∷ key_e ∷ []) key_c)
    × UpperAt key_c (key_c ∷ key_e ∷ []) (key_upper_bound (key_c ∷ key_e ∷ []) key_c)
unfolding key_storable
key_bounds_lem_example =
    key_bounds_lem key_c (key_c ∷ key_e ∷ []) refl
      (refl, (Lt-Le key_c key_e c-e, tt), (refl, tt, tt))

bpt_add-insert_example :
    Ends
      (λ u t'. (h' : ℕ) × (h' ≤ 2) × IsMap in_memory Any h' t' (insert key_d (4 ∷ []) entries))
      Never
      (bpt_add memory key_d (4 ∷ []) tree)
unfolding key_storable
bpt_add-insert_example =
    bpt_add-insert in_memory Any Any Never memory memory-Laws 1 key_d (4 ∷ []) entries tree refl
      (omega arith) (refl, tt) tt (omega arith) tree-IsMap

bpt_search-lookup_example :
    Ends
      (λ r t'. (r ≡ lookup key_c entries) × IsMap in_memory Any 1 t' entries)
      Never
      (bpt_search plat memory key_c tree)
unfolding key_storable
bpt_search-lookup_example =
    bpt_search-lookup in_memory Any Any Never memory memory-Laws plat (omega arith)
      (inr (λ n. refl)) 1 key_c entries tree (omega arith) refl small_values out-IsValid tree-IsMap

bpt_search-bpt_add_example :
    Ends
      (λ r t'.
        (r ≡ some (4 ∷ []))
        × ((h' : ℕ) × IsMap in_memory Any h' t' (insert key_d (4 ∷ []) entries)))
      Never
      (((bpt_add memory key_d (4 ∷ [])) >> (bpt_search plat memory key_d)) tree)
unfolding key_storable
bpt_search-bpt_add_example =
    bpt_search-bpt_add in_memory Any Any Never memory memory-Laws plat (omega arith)
      (inr (λ n. refl)) 1 key_d (4 ∷ []) entries tree refl (omega arith) (refl, tt) tt (omega arith)
      (omega arith) out-IsValid tree-IsMap

-- The insertion splits the right leaf, and there is no room to commit its pages; the key to delete is
-- absent, so that the deletion saves no page and commits.
changes-RolledBack_example :
    RolledBack narrow pages narrow-Discards narrow_tree (bpt_add narrow key_d (4 ∷ []) narrow_tree)
    × RolledBack narrow pages narrow-Discards narrow_tree (bpt_delete narrow key_d narrow_tree)
changes-RolledBack_example =
    changes-RolledBack narrow pages narrow-Discards narrow_tree key_d (4 ∷ []) refl

no_room : (bpt_add narrow key_d (4 ∷ []) narrow_tree).0 ≡ err eof
unfolding bpt_add key_storable key_cmp
no_room = refl

listings_lem_example :
    Ends
      (λ r t'. (r ≡ 3 ∷ []) × IsMap in_memory Any 1 t' entries)
      Never
      (bpt_entries plat memory listing tree)
    × Ends
        (λ r t'. (r ≡ 1 ∷ []) × IsMap in_memory Any 1 t' entries)
        Never
        (bpt_range plat memory listing key_c key_d tree)
unfolding key_storable key_cmp
listings_lem_example =
    listings_lem in_memory Any Any Never memory memory-Laws plat (omega arith) (inr (λ n. refl))
      listing key_c key_d 1 entries (3 ∷ []) (1 ∷ []) tree (omega arith) refl refl refl refl
      (omega arith) (omega arith) out-IsValid tree-IsMap

bpt_delete-erase_example :
    Ends
      (λ u t'. (h' : ℕ) × (h' ≤ 1) × IsMap in_memory Any h' t' (erase key_a entries))
      Never
      (bpt_delete memory key_a tree)
unfolding key_storable
bpt_delete-erase_example =
    bpt_delete-erase in_memory Any Any Never memory memory-Laws 1 key_a entries tree refl
      (omega arith) refl (omega arith) tree-IsMap
