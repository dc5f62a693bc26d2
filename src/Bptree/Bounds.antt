-- ===== src/Bptree/Bounds.antt =====
-- The two binary searches in src/bplustree.c find where a node's keys change sides.
use binjson_structures.Shared.{
  ℕ, zero, suc, ◌+◌, ◌-◌, ◌/◌, ◌≤◌, ◌<◌, ◌≡◌, arith, Bool, true, false, List, length, get_or, ltb,
  Bool-cases, inl, inr, ltb→lt, ltb-false→le,
}
use binjson_structures.Bptree.Key.{Key, no_key, bound_loop}

-- From `r` on the test fails, and before `r` it holds.
pub record Cut (right : Key → Bool) (keys : List Key) (r : ℕ) : Type 0 where
  pub within : r ≤ length keys
  pub before : (j : ℕ) → j < r → right (get_or keys j no_key) ≡ true
  pub behind : (j : ℕ) → r ≤ j → j < length keys → right (get_or keys j no_key) ≡ false

-- Once it fails, the test fails on.
pub record Falls (right : Key → Bool) (keys : List Key) : Type 0 where
  pub stays_false :
      (i j : ℕ)
      → i ≤ j
      → j < length keys
      → right (get_or keys i no_key) ≡ false
      → right (get_or keys j no_key) ≡ false

differ : {b : Bool} → b ≡ true → b ≡ false → ⊥
differ h k = cc

module _ (right : Key → Bool) (keys : List Key) (mono : Falls right keys) where
  -- As many rounds as positions are enough.
  pub bound_loop-Cut :
      (rounds lo hi : ℕ)
      → lo ≤ hi
      → hi ≤ length keys
      → hi ≤ lo + rounds
      → ((j : ℕ) → j < lo → right (get_or keys j no_key) ≡ true)
      → ((j : ℕ) → hi ≤ j → j < length keys → right (get_or keys j no_key) ≡ false)
      → Cut right keys (bound_loop right keys rounds lo hi)
  unfolding bound_loop
  bound_loop-Cut zero lo hi h hn hr before behind = record {
    within = omega arith;
    before = before;
    behind = λ j q. behind j (omega arith);
  }
  bound_loop-Cut (suc rounds) lo hi h hn hr before behind = elim (Bool-cases (ltb lo hi)) [
    | inr done ↦ rw done (record {
      within = omega (arith, ltb-false→le lo hi done);
      before = before;
      behind = λ j q. behind j (omega (arith, ltb-false→le lo hi done));
    })
    | inl more ↦
        let wide : lo < hi = ltb→lt lo hi more in
        elim (Bool-cases (right (get_or keys (lo + (hi - lo) / 2) no_key))) [
          | inl up ↦
              rw (more, up)
                (bound_loop-Cut rounds (lo + (hi - lo) / 2 + 1) hi (omega arith) hn (omega arith)
                  (λ j q. all_before (lo + (hi - lo) / 2) (omega arith) up j (omega arith)) behind)
          | inr down ↦
              rw (more, down)
                (bound_loop-Cut rounds lo (lo + (hi - lo) / 2) (omega arith) (omega arith)
                  (omega arith) before (λ j q r. mono.stays_false _ j q r down))
        ]
  ]
    where
      all_before :
          (m : ℕ)
          → m < length keys
          → right (get_or keys m no_key) ≡ true
          → (j : ℕ) → j ≤ m
          → right (get_or keys j no_key) ≡ true
      all_before m h t j q = elim (Bool-cases (right (get_or keys j no_key))) [
        | inl yes_true ↦ yes_true
        | inr no_true ↦ absurd (differ t (mono.stays_false j m q h no_true))
      ]
