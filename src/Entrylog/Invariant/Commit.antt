-- ===== src/Entrylog/Invariant/Commit.antt =====
-- Commits and creation in src/entrylog.c keep the table well formed.
use mathlib.Core.Path.{subst}
use binjson_structures.Shared.{ℕ, ◌+◌, ◌^◌, ◌<◌, ◌≡◌, refl, arith, Bool, true, []}
use binjson_structures.Shared.Result.{Result, ok, err, ok-injective}
use binjson_structures.BjFile.{bjfile_init}
use binjson_structures.Entrylog.State.{
  Env, Log, LogFile, commit_state, settle, write_state, fresh, created, write_first, elog_create_at,
}
use binjson_structures.Entrylog.Append.{elog_sync}
use binjson_structures.Entrylog.Invariant.Table.{IsConsistent, IsValid}

module _ (env : Env) where
  -- A commit adopts the live metadata or falls back to the committed one, so both must fit.
  settle-IsValid :
      (t : Log env) (r : Result (Unit {0}) × LogFile env)
      → t.base_index + 2 ^ 32 < 2 ^ 64
      → IsConsistent t.base_index t.base_term t.ents t.m
      → IsConsistent t.base_index t.base_term t.ents t.cm
      → IsValid (settle env t r).1
  unfolding settle
  settle-IsValid t (ok u, f) wide live committed = record {
    wide = wide;
    live = live;
    committed = live;
    ahead = omega arith;
    commit_ahead = omega arith;
    same_term = refl;
    same_vote = refl;
  }
  settle-IsValid t (err e, f) wide live committed = record {
    wide = wide;
    live = committed;
    committed = committed;
    ahead = omega arith;
    commit_ahead = omega arith;
    same_term = refl;
    same_vote = refl;
  }

  pub commit_state-IsValid :
      (durable : Bool) (t : Log env)
      → t.base_index + 2 ^ 32 < 2 ^ 64
      → IsConsistent t.base_index t.base_term t.ents t.m
      → IsConsistent t.base_index t.base_term t.ents t.cm
      → IsValid (commit_state env durable t).1
  unfolding commit_state
  commit_state-IsValid durable t wide live committed =
      settle-IsValid t (write_state env durable t.base_index t.base_term t.m t.f) wide live
        committed

  pub elog_sync-IsValid : (t : Log env) → IsValid t → IsValid (elog_sync env t).1
  unfolding elog_sync
  elog_sync-IsValid t v = commit_state-IsValid true t v.wide v.live v.committed

  created-IsValid :
      (base_index base_term : ℕ) (t : Log env) (r : Result (Unit {0}) × LogFile env)
      → base_index + 2 ^ 32 < 2 ^ 64
      → created env base_index base_term r ≡ ok t
      → IsValid t
  unfolding created fresh
  created-IsValid base_index base_term t (err e, f) wide h = cc
  created-IsValid base_index base_term t (ok u, f) wide h =
      subst IsValid (ok-injective _ _ h) (record {
        wide = wide;
        live = start;
        committed = start;
        ahead = omega arith;
        commit_ahead = omega arith;
        same_term = refl;
        same_vote = refl;
      })
    where
      start : IsConsistent base_index base_term [] (fresh env base_index base_term)
      start = record {
        bounds = omega arith;
        few = omega arith;
        stored = omega arith;
        ascending = tt;
        tail = refl;
        reached = omega arith;
        commit_lo = omega arith;
        commit_hi = omega arith;
      }

  -- A log that creation gives on a base index with room for 2^32 more is well formed.
  pub elog_create_at-IsValid :
      (base_index base_term : ℕ) (ctx : env.host.Ctx) (t : Log env)
      → base_index + 2 ^ 32 < 2 ^ 64
      → elog_create_at env base_index base_term ctx ≡ ok t
      → IsValid t
  unfolding elog_create_at
  elog_create_at-IsValid base_index base_term ctx t wide h =
      created-IsValid base_index base_term t
        (write_first env base_index base_term (bjfile_init env.host env.plat ctx)) wide h
