-- ===== src/Entrylog/Read.antt =====
-- The calls of src/entrylog.c that read entries back, and the check of a log against its file.
use binjson_structures.Shared.{
  ℕ, zero, suc, ◌+◌, ◌-◌, ◌%◌, not, ◌&&◌, ◌||◌, List, [], ◌∷◌, length, get_or, ltb, leb, ◌==◌,
  if◌then◌else◌,
}
use binjson_structures.Shared.Words.{sub64}
use binjson_structures.Shared.Result.{Result, range, verify}
use binjson_structures.Shared.State.{Action, ◌>>=◌, ◌>>◌, pure, get, lift, check, actions}
use binjson_structures.Dbuf.{Dbuf, dbuf_put}
use binjson_structures.BjFile.Reading.{bjfile_read_record}
use binjson_structures.Entrylog.Record.{Erec, Value, entry_fields, parse_record}
use binjson_structures.Entrylog.State.{Env, Log, LogFile}
use binjson_structures.Entrylog.Append.{no_entry}

module _ (env : Env) where
  unfoldable pub with_file :
      (t : Log env) → {A : Type 0} → Result A × LogFile env → Result A × Log env
  with_file t (r, f) = (r, record t { f = f })

  unfoldable pub with_out : Log env → Result (Unit {0}) × Dbuf → Result (Unit {0}) × Log env
  with_out t (r, b) = (r, record t { out = b })

  unfoldable pub set_out : List ℕ → Action (Log env) Unit
  unfolding with_out dbuf_put
  set_out b t = with_out t (dbuf_put env.plat b (record (t.out) { bytes = [] }))

  unfoldable pub stored_record : ℕ → Action (Log env) (List ℕ)
  unfolding with_file bjfile_read_record
  stored_record index t = with_file t (
      bjfile_read_record env.host env.plat env.wire
        (get_or t.ents (index - t.base_index - 1) no_entry).off t.f)

  unfoldable pub read_entry : ℕ → Action (Log env) Erec
  unfolding actions stored_record parse_record
  read_entry index = do
    rec ← stored_record index
    r ← lift (parse_record env.wire rec)
    check (r.is_entry && r.index == index) verify
    pure r

  -- The entry's term, type and payload.
  unfoldable pub elog_get : ℕ → Action (Log env) (ℕ × (ℕ × List ℕ))
  unfolding actions read_entry set_out
  elog_get index = do
    t ← get
    check (not (leb index t.base_index || ltb t.m.last_index index)) range
    r ← read_entry index
    set_out r.payload
    t' ← get
    pure (r.term, (r.etype, t'.out.bytes))

  -- `for (i = from_index; i <= last_index; i++)`, one round for each index that is left.
  unfoldable pub gather : ℕ → ℕ → ℕ → ℕ → Action (Log env) (List (List (List ℕ × Value)))
  unfolding actions read_entry entry_fields
  gather zero i gathered max_bytes = pure []
  gather (suc rounds) i gathered max_bytes = do
    r ← read_entry i
    let fields = entry_fields r.index r.term r.etype r.payload
    let gathered' = (gathered + length r.payload) % suc env.plat.size_max
    if leb max_bytes gathered'
        then pure (fields ∷ [])
        else (do more ← gather rounds (i + 1) gathered' max_bytes; pure (fields ∷ more))

  -- The count of entries, and their encoding as one array.
  unfoldable pub elog_get_batch : ℕ → ℕ → Action (Log env) (ℕ × List ℕ)
  unfolding actions gather set_out
  elog_get_batch from_index max_bytes = do
    t ← get
    check (not (leb from_index t.base_index)) range
    objects ← gather (t.m.last_index + 1 - from_index) from_index 0 max_bytes
    d ← lift (env.build_array objects)
    set_out d
    t' ← get
    pure (length objects, t'.out.bytes)

  -- The loop over the entries; the result is the last term.
  unfoldable pub verify_entries : ℕ → ℕ → ℕ → Action (Log env) ℕ
  unfolding actions read_entry
  verify_entries zero i prev_term = pure prev_term
  verify_entries (suc rounds) i prev_term = do
    t ← get
    r ← read_entry (t.base_index + 1 + i)
    check (not (ltb r.term prev_term)) verify
    check (r.term == (get_or t.ents i no_entry).term) verify
    verify_entries rounds (i + 1) r.term

  unfoldable pub elog_verify : Action (Log env) Unit
  unfolding actions verify_entries
  elog_verify = do
    t ← get
    prev_term ← verify_entries t.m.n_ents 0 t.base_term
    check (t.m.last_term == prev_term) verify
    check (not (ltb t.m.current_term t.m.last_term)) verify
    check (not (ltb t.m.last_index t.m.commit_index)) verify
    check (sub64 t.m.last_index t.base_index == t.m.n_ents) verify
