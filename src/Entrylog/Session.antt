-- ===== src/Entrylog/Session.antt =====
-- Sessions on a log of src/entrylog.c: sequences of calls, failing or not.
pub mod Moves
pub mod Stable
use binjson_structures.Shared.{ℕ, Bool, List, [], ◌∷◌}
use binjson_structures.Entrylog.State.{Env, Log, Elog}
use binjson_structures.Entrylog.Append.{
  elog_append, elog_sync, elog_set_hard_state, elog_set_commit_index, elog_truncate_from,
}
use binjson_structures.Entrylog.Invariant.Table.{IsValid}
use binjson_structures.Entrylog.Invariant.Commit.{elog_sync-IsValid}
use binjson_structures.Entrylog.Invariant.Push.{elog_append-IsValid}
use binjson_structures.Entrylog.Invariant.Hard.{
  elog_set_hard_state-IsValid, elog_set_commit_index-IsValid,
}
use binjson_structures.Entrylog.Invariant.Cut.{elog_truncate_from-IsValid}

pub data Call : Type 0 where
  append : ℕ → ℕ → List ℕ → Call
  sync : Call
  set_hard_state : ℕ → ℕ → Call
  set_commit_index : ℕ → Call
  truncate_from : ℕ → Call

module _ (env : Env) where
  -- The log that a call leaves, whatever it returned.
  unfoldable pub run : Call → Log env → Log env
  run (append term type payload) t = (elog_append env term type payload t).1
  run sync t = (elog_sync env t).1
  run (set_hard_state term vote) t = (elog_set_hard_state env term vote t).1
  run (set_commit_index index) t = (elog_set_commit_index env index t).1
  run (truncate_from index) t = (elog_truncate_from env index t).1

  unfoldable pub run_all : List Call → Log env → Log env
  unfolding run
  run_all [] t = t
  run_all (c ∷ cs) t = run_all cs (run c t)

  pub run-IsValid : (c : Call) (t : Log env) → IsValid t → IsValid (run c t)
  unfolding run
  run-IsValid (append term type payload) t v = elog_append-IsValid env term type payload t v
  run-IsValid sync t v = elog_sync-IsValid env t v
  run-IsValid (set_hard_state term vote) t v = elog_set_hard_state-IsValid env term vote t v
  run-IsValid (set_commit_index index) t v = elog_set_commit_index-IsValid env index t v
  run-IsValid (truncate_from index) t v = elog_truncate_from-IsValid env index t v

  -- Any sequence of calls, each of which may fail in the file or for lack of memory, keeps a log
  -- well formed.
  pub run_all-IsValid : (cs : List Call) (t : Log env) → IsValid t → IsValid (run_all cs t)
  unfolding run_all
  run_all-IsValid [] t v = v
  run_all-IsValid (c ∷ cs) t v = run_all-IsValid cs (run c t) (run-IsValid c t v)
