-- ===== src/Entrylog/Invariant/Hard.antt =====
-- Hard state and commit index in src/entrylog.c keep the table well formed, on every branch.
use mathlib.Core.Path.{subst}
use binjson_structures.Shared.{
  ℕ, ◌≤◌, ◌≡◌, sym, arith, true, ◌||◌, List, ltb, Bool-cases, inl, inr, ltb-false→le,
}
use binjson_structures.Shared.Result.{ok, Result-cases}
use binjson_structures.Entrylog.Record.{ElMeta}
use binjson_structures.Entrylog.State.{ElEnt, Env, Log}
use binjson_structures.Entrylog.Append.{next_hard, elog_set_hard_state, elog_set_commit_index}
use binjson_structures.Entrylog.Invariant.Table.{IsConsistent, IsValid}
use binjson_structures.Entrylog.Invariant.Commit.{commit_state-IsValid}
use binjson_structures.Entrylog.Invariant.Push.{in_term}

module _ (env : Env) where
  -- A request changes the hard state alone, and never lowers the term.
  pub next_hard_lem :
      (term vote : ℕ) (m m' : ElMeta)
      → next_hard env term vote m ≡ ok m'
      → (m' ≡ record m { current_term = m'.current_term; voted_for = m'.voted_for })
        × (m.current_term ≤ m'.current_term)
  unfolding next_hard
  next_hard_lem term vote m m' e = ground arith

  hard-IsConsistent :
      (base_index base_term : ℕ) (ents : List ElEnt) (m m' : ElMeta) (term vote : ℕ)
      → next_hard env term vote m ≡ ok m'
      → IsConsistent base_index base_term ents m
      → IsConsistent base_index base_term ents m'
  hard-IsConsistent base_index base_term ents m m' term vote e c =
      let (shape, grown) = next_hard_lem term vote m m' e in
      let reached = c.reached in
      subst (IsConsistent base_index base_term ents) (sym shape) (record {
        bounds = c.bounds;
        few = c.few;
        stored = c.stored;
        ascending = c.ascending;
        tail = c.tail;
        reached = omega arith;
        commit_lo = c.commit_lo;
        commit_hi = c.commit_hi;
      })

  pub elog_set_hard_state-IsValid :
      (term vote : ℕ) (t : Log env) → IsValid t → IsValid (elog_set_hard_state env term vote t).1
  unfolding elog_set_hard_state
  elog_set_hard_state-IsValid term vote t v = elim (Result-cases (next_hard env term vote t.m)) [
    | inr (x, e) ↦ rw e v
    | inl (m', e) ↦ rw e (
        commit_state-IsValid env true (record t { m = m' }) v.wide
          (hard-IsConsistent t.base_index t.base_term t.ents t.m m' term vote e v.live) v.committed)
  ]

  pub elog_set_commit_index-IsValid :
      (index : ℕ) (t : Log env) → IsValid t → IsValid (elog_set_commit_index env index t).1
  unfolding elog_set_commit_index
  elog_set_commit_index-IsValid index t v =
      elim (Bool-cases (ltb index t.base_index || ltb t.m.last_index index)) [
        | inl outside ↦ rw outside v
        | inr inside ↦ elim (Bool-cases (ltb index t.m.commit_index)) [
          | inl lower ↦ rw (inside, lower) v
          | inr higher ↦
              let (lo, hi) = in_term index t.base_index t.m.last_index inside in
              let c = v.live in
              let ca = v.commit_ahead in
              rw (inside, higher)
                (record {
                  wide = v.wide;
                  live = record {
                    bounds = c.bounds;
                    few = c.few;
                    stored = c.stored;
                    ascending = c.ascending;
                    tail = c.tail;
                    reached = c.reached;
                    commit_lo = lo;
                    commit_hi = hi;
                  };
                  committed = v.committed;
                  ahead = v.ahead;
                  commit_ahead = omega (arith, ltb-false→le _ _ higher);
                  same_term = v.same_term;
                  same_vote = v.same_vote;
                })
        ]
      ]
