-- ===== src/Entrylog/Session/Stable.antt =====
-- Raft's local safety over whole sessions on src/entrylog.c: one vote per term, terms never fall,
-- committed entries stay.
use binjson_structures.Shared.{
  ℕ, ◌-◌, ◌≤◌, ◌<◌, ◌≡◌, ◌≢◌, sym, ap, ◌∙◌, arith, List, [], ◌∷◌, take, get_or, get_or-take, ◌==◌,
  if◌then◌else◌, false, Bool-cases, inl, inr, ltb-eq-false,
}
use binjson_structures.Shared.Result.{Result, ok}
use binjson_structures.Entrylog.State.{Env, Log, ElEnt}
use binjson_structures.Entrylog.Append.{no_entry, elog_term_at}
use binjson_structures.Entrylog.Invariant.Table.{IsValid}
use binjson_structures.Entrylog.Session.{
  Call, append, sync, set_hard_state, set_commit_index, truncate_from, run, run_all, run-IsValid,
  run_all-IsValid,
}
use binjson_structures.Entrylog.Session.Moves.{
  Moves, Moves-refl, Moves-trans, elog_append-Moves, elog_sync-Moves, elog_set_hard_state-Moves,
  elog_set_commit_index-Moves, elog_truncate_from-Moves,
}

module _ (env : Env) where
  run-Moves : (c : Call) (t : Log env) → IsValid t → Moves t (run env c t)
  unfolding run
  run-Moves (append term type payload) t v = elog_append-Moves env term type payload t v
  run-Moves sync t v = elog_sync-Moves env t v
  run-Moves (set_hard_state term vote) t v = elog_set_hard_state-Moves env term vote t v
  run-Moves (set_commit_index index) t v = elog_set_commit_index-Moves env index t
  run-Moves (truncate_from index) t v = elog_truncate_from-Moves env index t v

  run_all-Moves : (cs : List Call) (t : Log env) → IsValid t → Moves t (run_all env cs t)
  unfolding run_all
  run_all-Moves [] t v = Moves-refl t
  run_all-Moves (c ∷ cs) t v =
      Moves-trans (run-Moves c t v) (run_all-Moves cs (run env c t) (run-IsValid env c t v))

  -- No session from a well-formed log lowers the current term.
  pub run_all-current_term :
      (cs : List Call) (t : Log env)
      → IsValid t
      → t.m.current_term ≤ (run_all env cs t).m.current_term
  run_all-current_term cs t v = (run_all-Moves cs t v).hard.term

  -- A node votes at most once per term: after any session from a well-formed log with a vote, a log
  -- that is still in the same term has the same vote.
  pub one_vote_per_term :
      (cs : List Call) (t : Log env)
      → IsValid t
      → t.m.voted_for ≢ 0
      → (run_all env cs t).m.current_term ≡ t.m.current_term
      → (run_all env cs t).m.voted_for ≡ t.m.voted_for
  one_vote_per_term cs t v cast same = (run_all-Moves cs t v).hard.vote same cast

  term_at_lem :
      (t : Log env) (index : ℕ)
      → t.base_index ≤ index
      → index ≤ t.m.last_index
      → elog_term_at env index t
        ≡ ok (
            if index == t.base_index
            then t.base_term
            else (get_or t.ents (index - t.base_index - 1) no_entry).term)
  unfolding elog_term_at
  term_at_lem t index lo hi =
      rw (ltb-eq-false index t.base_index lo, ltb-eq-false t.m.last_index index hi)

  same_entry :
      (k i : ℕ) (xs ys : List ElEnt)
      → i < k
      → take k xs ≡ take k ys
      → get_or xs i no_entry ≡ get_or ys i no_entry
  same_entry k i xs ys h e =
      sym (get_or-take k i xs no_entry h)
      ∙ ap (λ l. get_or l i no_entry) e
      ∙ get_or-take k i ys no_entry h

  -- Two logs with the same base that agree on the entry at `index`.
  same_term_at :
      (t u : Log env) (index : ℕ)
      → u.base_index ≡ t.base_index
      → u.base_term ≡ t.base_term
      → t.base_index ≤ index
      → index ≤ t.m.last_index
      → index ≤ u.m.last_index
      → (t.base_index < index
          → get_or u.ents (index - t.base_index - 1) no_entry
            ≡ get_or t.ents (index - t.base_index - 1) no_entry)
      → elog_term_at env index u ≡ elog_term_at env index t
  same_term_at t u index base term lo ht hu same =
      term_at_lem u index (omega arith) hu ∙ middle ∙ sym (term_at_lem t index lo ht)
    where
      beyond : (a b : ℕ) → b ≤ a → (a == b) ≡ false → b < a
      beyond a b h e = ground arith

      middle :
          ◌≡◌ {A = Result ℕ}
            (ok (
              if index == u.base_index
              then u.base_term
              else (get_or u.ents (index - u.base_index - 1) no_entry).term))
            (ok (
              if index == t.base_index
              then t.base_term
              else (get_or t.ents (index - t.base_index - 1) no_entry).term))
      middle = elim (Bool-cases (index == t.base_index)) [
        | inl at_base ↦ rw (base, at_base) (ap ok term)
        | inr above ↦
            rw (base, above)
              (ap (λ (e : ElEnt). ok e.term) (same (beyond index t.base_index lo above)))
      ]

  -- Every entry up to the committed commit index of a well-formed log keeps its term through any
  -- session.
  pub committed_terms_stay :
      (cs : List Call) (t : Log env) (index : ℕ)
      → IsValid t
      → t.base_index ≤ index
      → index ≤ t.cm.commit_index
      → elog_term_at env index (run_all env cs t) ≡ elog_term_at env index t
  committed_terms_stay cs t index v lo hi =
      let u = run_all env cs t in
      let g = run_all-Moves cs t v in
      let vu = run_all-IsValid env cs t v in
      let c = g.commit in
      let a = vu.commit_ahead in
      let b = vu.live.commit_hi in
      let d = v.commit_ahead in
      let e = v.live.commit_hi in
      same_term_at t u index g.base_index g.base_term lo (omega arith) (omega arith) (λ above.
        same_entry (t.cm.commit_index - t.base_index) (index - t.base_index - 1) u.ents t.ents
          (omega arith) g.prefix)
