-- ===== src/Entrylog/Compact.antt =====
-- src/entrylog.c: elog_compact, which writes the entries behind a snapshot to another file.
use binjson_structures.Shared.{
  ℕ, zero, suc, ◌+◌, ◌-◌, ◌^◌, not, ◌||◌, length, ltb, ◌==◌, if◌then◌else◌,
}
use binjson_structures.Shared.Result.{range, state}
use binjson_structures.Shared.State.{Action, ◌>>=◌, ◌>>◌, pure, get, lift, check, actions}
use binjson_structures.BjFile.{File, bjfile_init, bjfile_append, bjfile_commit}
use binjson_structures.BjFile.Io.{Host}
use binjson_structures.BjFile.Protect.{bjfile_append_header}
use binjson_structures.Entrylog.Record.{ElMeta, codes}
use binjson_structures.Entrylog.State.{Env, Log, append_metadata}
use binjson_structures.Entrylog.Append.{elog_term_at}
use binjson_structures.Entrylog.Read.{stored_record}

module _ (env : Env) (dst : Host) where
  abbrev pub Copying : Type 0
  Copying = Log env × File dst env.plat

  unfoldable pub from_log : {A : Type 0} → Action (Log env) A → Action Copying A
  from_log m (t, df) = let (r, t') = m t in (r, (t', df))

  unfoldable pub to_file : {A : Type 0} → Action (File dst env.plat) A → Action Copying A
  to_file m (t, df) = let (r, df') = m df in (r, (t, df'))

  -- One round for each index that is left.
  unfoldable pub copy_entries : ℕ → ℕ → Action Copying Unit
  unfolding actions from_log to_file stored_record bjfile_append
  copy_entries zero i = pure tt
  copy_entries (suc rounds) i = do
    rec ← from_log (stored_record env i)
    off ← to_file (bjfile_append dst env.plat rec)
    copy_entries rounds (i + 1)

  -- The metadata of the copy.
  unfoldable pub rebased : ℕ → ElMeta → ElMeta
  rebased new_base_index m = record m {
    n_ents = m.last_index - new_base_index;
    commit_index = (if ltb m.commit_index new_base_index then new_base_index else m.commit_index);
  }

  unfoldable pub write_copy : ℕ → ℕ → Action Copying Unit
  unfolding actions to_file copy_entries rebased bjfile_append_header append_metadata bjfile_commit
  write_copy new_base_index new_base_term = do
    to_file (bjfile_append_header dst env.plat env.wire env.encode_header (codes "entrylog"))
    (t, df) ← get
    copy_entries (t.m.last_index - new_base_index) (new_base_index + 1)
    to_file (
        append_metadata (record env { host = dst }) new_base_index new_base_term
          (rebased new_base_index t.m))
    to_file (bjfile_commit dst env.plat)

  -- The new file flushes in chunks of 2^18 bytes.
  unfoldable pub new_file : dst.Ctx → File dst env.plat
  unfolding bjfile_init
  new_file ctx = record (bjfile_init dst env.plat ctx) { autoflush = 2 ^ 18 }

  unfoldable pub elog_compact : ℕ → ℕ → Action Copying Unit
  unfolding actions elog_term_at write_copy
  elog_compact new_base_index new_base_term = do
    (t, df) ← get
    check (not (ltb new_base_index t.base_index || ltb t.m.last_index new_base_index)) range
    check (length t.f.wb == 0) state
    have_term ← lift (elog_term_at env new_base_index t)
    check (have_term == new_base_term) state
    write_copy new_base_index new_base_term
