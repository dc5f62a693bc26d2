-- ===== src/Entrylog/Append.antt =====
-- The operations of src/entrylog.c that change a log.
use binjson_structures.Shared.{
  ℕ, ◌+◌, ◌-◌, ◌^◌, Bool, true, not, ◌&&◌, ◌||◌, List, length, get_or, ltb, leb, ◌==◌,
  if◌then◌else◌,
}
use binjson_structures.Shared.Words.{add64, sub64}
use binjson_structures.Shared.Result.{Result, ok, err, state, range}
use binjson_structures.Shared.State.{Action, ◌>>=◌, ◌>>◌, get, put, lift, check, actions}
use binjson_structures.BjFile.{bjfile_discard}
use binjson_structures.Entrylog.Record.{ElMeta}
use binjson_structures.Entrylog.State.{
  ElEnt, Env, Log, LogFile, store, ents_reserve, encode_entry, commit_state,
}

-- An `int` is its 32-bit pattern.
abbrev pub is_negative_int : ℕ → Bool
is_negative_int type = leb (2 ^ 31) type

abbrev pub max_entries : ℕ
max_entries = 0x7fffffff

abbrev pub no_entry : ElEnt
no_entry = record { off = 0; term = 0 }

module _ (env : Env) where
  -- What an append makes of the encoder's outcome.
  unfoldable pub appended : ℕ → ℕ → Log env → Result ℕ × LogFile env → Result ℕ × Log env
  appended index term t (err e, f) =
      (err e, record t { f = bjfile_discard env.host env.plat f; m = t.cm })
  appended index term t (ok off, f) = (
    ok index,
    record t {
      f = f;
      ents = store t.ents t.m.n_ents (record { off = off; term = term });
      m = record (t.m) { n_ents = t.m.n_ents + 1; last_index = index; last_term = term };
    },
  )

  unfoldable pub push_entry : ℕ → ℕ → List ℕ → Action (Log env) ℕ
  unfolding appended
  push_entry term type payload t =
      let index = add64 t.m.last_index 1 in
      appended index term t (encode_entry env index term type payload t.f)

  unfoldable pub elog_append : ℕ → ℕ → List ℕ → Action (Log env) ℕ
  unfolding actions push_entry
  elog_append term type payload = do
    check (not (is_negative_int type)) range
    t ← get
    check (not (ltb term t.m.last_term || ltb t.m.current_term term)) state
    check (ltb (sub64 t.m.last_index t.base_index) max_entries) range
    ents_reserve env (t.m.n_ents + 1)
    push_entry term type payload

  unfoldable pub elog_sync : Action (Log env) Unit
  elog_sync = commit_state env true

  -- The hard state that a request leads to, if it is allowed.
  unfoldable pub next_hard : ℕ → ℕ → ElMeta → Result ElMeta
  next_hard term voted_for m =
      if ltb term m.current_term
      then err state
      else if term == m.current_term
      then if not (voted_for == 0) && (not (m.voted_for == 0) && not (voted_for == m.voted_for))
        then err state
        else if voted_for == 0
        then ok m
        else ok (record m { voted_for = voted_for })
      else ok (record m { current_term = term; voted_for = voted_for })

  unfoldable pub elog_set_hard_state : ℕ → ℕ → Action (Log env) Unit
  unfolding actions next_hard
  elog_set_hard_state term voted_for = do
    t ← get
    m ← lift (next_hard term voted_for t.m)
    put (record t { m = m })
    commit_state env true

  unfoldable pub elog_set_commit_index : ℕ → Action (Log env) Unit
  elog_set_commit_index index t =
      if ltb index t.base_index || ltb t.m.last_index index
      then (err range, t)
      else if ltb index t.m.commit_index
      then (err state, t)
      else (ok tt, record t { m = record (t.m) { commit_index = index } })

  -- The state that ends before `index`.
  unfoldable pub cut : ℕ → Log env → ElMeta
  cut index t = record (t.m) {
    last_index = index - 1;
    last_term =
        (if index - 1 == t.base_index
          then t.base_term
          else (get_or t.ents (index - t.base_index - 2) no_entry).term);
    n_ents = index - 1 - t.base_index;
  }

  unfoldable pub elog_truncate_from : ℕ → Action (Log env) Unit
  unfolding cut
  elog_truncate_from index t =
      if leb index t.base_index || ltb (add64 t.m.last_index 1) index
      then (err range, t)
      else if not (length t.f.wb == 0)
      then (err state, t)
      else if index == add64 t.m.last_index 1
      then (ok tt, t)
      else if leb index t.m.commit_index
      then (err state, t)
      else commit_state env true (record t { m = cut index t })

  unfoldable pub elog_term_at : ℕ → Log env → Result ℕ
  elog_term_at index t =
      if ltb index t.base_index || ltb t.m.last_index index
      then err range
      else ok (
          if index == t.base_index
          then t.base_term
          else (get_or t.ents (index - t.base_index - 1) no_entry).term)
