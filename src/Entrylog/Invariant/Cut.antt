-- ===== src/Entrylog/Invariant/Cut.antt =====
-- Truncation in src/entrylog.c keeps the table well formed, on every branch.
use binjson_structures.Shared.{
  ℕ, suc, ◌-◌, ◌≤◌, ◌<◌, ◌≡◌, sym, arith, true, false, not, ◌||◌, List, length, take, get_or, ltb,
  leb, ◌==◌, if◌then◌else◌, Bool-cases, inl, inr, leb-false→lt, Ordering-cases, ==-eq-false,
  ==-eq-true,
}
use binjson_structures.Shared.Words.{add64}
use binjson_structures.Entrylog.State.{ElEnt, Env, Log}
use binjson_structures.Entrylog.Append.{no_entry, cut, elog_truncate_from}
use binjson_structures.Entrylog.Invariant.Table.{
  tail_term, Ascending-take, tail_term-take, tail_term-get, IsConsistent, IsValid,
}
use binjson_structures.Entrylog.Invariant.Commit.{commit_state-IsValid}

module _ (env : Env) where
  -- The last term that a cut leaves.
  cut-tail :
      (base_index base_term index : ℕ) (ents : List ElEnt)
      → base_index < index
      → index - 1 - base_index < length ents
      → (if index - 1 == base_index
          then base_term
          else (get_or ents (index - base_index - 2) no_entry).term)
        ≡ tail_term base_term (take (index - 1 - base_index) ents)
  cut-tail base_index base_term index ents lo hi = elim (Ordering-cases (index - 1) base_index) [
    | inl below ↦ absurd (omega arith)
    | inr (inl at_base) ↦
        let none_left : index - 1 - base_index ≡ 0 = omega arith in
        rw (==-eq-true _ _ at_base, none_left)
    | inr (inr above) ↦
        let count : index - 1 - base_index ≡ suc (index - base_index - 2) = omega arith in
        let other : (index - 1 == base_index) ≡ false = ==-eq-false _ _ (omega arith) in
        rw (other, count)
          (sym (tail_term-get (index - base_index - 2) base_term ents no_entry (omega arith)))
  ]

  cut-IsConsistent :
      (index : ℕ) (t : Log env)
      → t.base_index < index
      → index ≤ t.m.last_index
      → t.m.commit_index < index
      → IsConsistent t.base_index t.base_term t.ents t.m
      → IsConsistent t.base_index t.base_term t.ents (cut env index t)
  unfolding cut
  cut-IsConsistent index t lo hi above c =
      let b = c.bounds in
      let f = c.few in
      let s = c.stored in
      let k = c.commit_lo in
      let r = c.reached in
      let kept : index - 1 - t.base_index ≤ t.m.n_ents = omega arith in
      let same = cut-tail t.base_index t.base_term index t.ents lo (omega arith) in
      let lower =
        tail_term-take (index - 1 - t.base_index) t.base_term t.ents t.m.n_ents kept c.ascending in
      let top = c.tail in
      record {
        bounds = omega arith;
        few = omega arith;
        stored = omega arith;
        ascending =
            Ascending-take (index - 1 - t.base_index) t.base_term t.ents t.m.n_ents kept
              c.ascending;
        tail = same;
        reached = rw same (omega arith);
        commit_lo = k;
        commit_hi = omega arith;
      }

  cut_range :
      (index lo hi : ℕ)
      → (leb index lo || ltb hi index) ≡ false
      → (index == hi) ≡ false
      → (lo < index) × (index < hi)
  cut_range index lo hi e d = ground arith

  pub elog_truncate_from-IsValid :
      (index : ℕ) (t : Log env) → IsValid t → IsValid (elog_truncate_from env index t).1
  unfolding elog_truncate_from
  elog_truncate_from-IsValid index t v =
      elim (Bool-cases (leb index t.base_index || ltb (add64 t.m.last_index 1) index)) [
        | inl outside ↦ rw outside v
        | inr inside ↦ elim (Bool-cases (not (length t.f.wb == 0))) [
          | inl pending ↦ rw (inside, pending) v
          | inr clean ↦ elim (Bool-cases (index == add64 t.m.last_index 1)) [
            | inl at_end ↦ rw (inside, clean, at_end) v
            | inr within ↦ elim (Bool-cases (leb index t.m.commit_index)) [
              | inl committed ↦ rw (inside, clean, within, committed) v
              | inr free ↦
                  let (lo, hi) =
                    cut_range index t.base_index (add64 t.m.last_index 1) inside within in
                  let b = v.live.bounds in
                  let w = v.wide in
                  let f = v.live.few in
                  rw (inside, clean, within, free)
                    (commit_state-IsValid env true (record t { m = cut env index t }) v.wide
                      (cut-IsConsistent index t lo (omega arith) (leb-false→lt _ _ free) v.live)
                      v.committed)
            ]
          ]
        ]
      ]
