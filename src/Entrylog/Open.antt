-- ===== src/Entrylog/Open.antt =====
-- src/entrylog.c: elog_open, which scans a file and rebuilds the log that it holds.
use binjson_structures.Shared.{
  ℕ, ◌+◌, ◌-◌, ◌*◌, ◌%◌, Bool, true, false, not, ◌&&◌, ◌||◌, Option, none, some, List, [], ◌∷◌,
  ◌++◌, length, get_or, ltb, leb, ◌==◌, if◌then◌else◌,
}
use binjson_structures.Shared.Words.{sub64}
use binjson_structures.Shared.Result.{Result, ok, err, oom, state}
use binjson_structures.Shared.State.{Action, ◌>>=◌, ◌>>◌, pure, get, put, lift, check, actions}
use binjson_structures.Dbuf.{empty}
use binjson_structures.BjFile.{bjfile_init, bjfile_len, bjfile_set_len}
use binjson_structures.BjFile.Recover.{bjfile_check_header, bjfile_scan_commits}
use binjson_structures.Entrylog.Record.{Erec, ElMeta, blank, codes, parse_record}
use binjson_structures.Entrylog.State.{Env, Log, LogFile, store, ents_reserve}
use binjson_structures.Entrylog.Append.{no_entry}
use binjson_structures.Entrylog.Read.{with_file}

-- `el_raw`
pub record ElRaw : Type 0 where
  pub off : ℕ
  pub index : ℕ
  pub term : ℕ

-- `el_scan`: the entries in file order, and the last two metadata records in turn in two slots.
pub record ElScan : Type 0 where
  pub raw : List ElRaw
  pub cap_raw : ℕ
  pub md0 : Erec
  pub md1 : Erec
  pub md_end0 : ℕ
  pub md_end1 : ℕ
  pub n_md : ℕ

abbrev pub new_scan : ElScan
new_scan = record {
  raw = [];
  cap_raw = 0;
  md0 = blank;
  md1 = blank;
  md_end0 = 0;
  md_end1 = 0;
  n_md = 0;
}

unfoldable pub note_metadata : Erec → ℕ → ElScan → Result Bool × ElScan
note_metadata r end s =
    if r.is_metadata
    then (
      ok true,
      if s.n_md % 2 == 0
          then record s { md0 = r; md_end0 = end; n_md = s.n_md + 1 }
          else record s { md1 = r; md_end1 = end; n_md = s.n_md + 1 },
    )
    else (ok false, s)

-- The metadata record that ends at `good`; the second slot is looked at last.
unfoldable pub adopt : ElScan → ℕ → Option Erec
adopt s good =
    if ltb 1 s.n_md && s.md_end1 == good
    then some s.md1
    else if ltb 0 s.n_md && s.md_end0 == good
    then some s.md0
    else none

unfoldable pub check_adopted : Option Erec → Result Erec
check_adopted none = err state
check_adopted (some a) =
    if ltb a.last_index a.base_index
      || (ltb a.last_term a.base_term
          || (ltb a.current_term a.last_term
              || (ltb a.last_index a.commit_index
                  || ltb 0x7fffffff (sub64 a.last_index a.base_index))))
    then err state
    else ok a

abbrev pub adopted_meta : Erec → ElMeta
adopted_meta a = record {
  last_index = a.last_index;
  last_term = a.last_term;
  current_term = a.current_term;
  voted_for = a.voted_for;
  commit_index = a.commit_index;
  n_ents = 0;
}

module _ (env : Env) where
  unfoldable pub note_entry : Erec → ℕ → Action ElScan Unit
  note_entry r off s =
      let grown : ElScan = record s {
        raw = s.raw ++ (record { off = off; index = r.index; term = r.term } ∷ []);
      } in
      if not r.is_entry
      then (ok tt, s)
      else if not (length s.raw == s.cap_raw)
      then (ok tt, grown)
      else let nc = if s.cap_raw == 0 then 16 else s.cap_raw * 2 in
        if env.plat.can_alloc (nc * 24)
        then (ok tt, record grown { cap_raw = nc })
        else (err oom, s)

  -- The callback on a record that was parsed or is no object.
  unfoldable pub note_record : ℕ → ℕ → Result Erec → Action ElScan Bool
  unfolding actions note_entry note_metadata
  note_record off end (err e) s = (ok false, s)
  note_record off end (ok r) s = (do note_entry r off; note_metadata r end) s

  unfoldable pub el_scan_cb : ElScan → ℕ → List ℕ → Result Bool × ElScan
  unfolding note_record parse_record
  el_scan_cb s off rec = note_record off (off + length rec) (parse_record env.wire rec) s

  -- The entries in file order against the adopted metadata: an entry supersedes all from its index
  -- up. The result counts the entries.
  unfoldable pub replay : ℕ → List ElRaw → ℕ → Action (Log env) ℕ
  unfolding actions ents_reserve store
  replay good [] n = pure n
  replay good (r ∷ raw) n = if leb good r.off then replay good raw n else (do
    t ← get
    check (ltb t.base_index r.index) state
    let pos = r.index - t.base_index - 1
    check (leb pos n) state
    ents_reserve env (pos + 1)
    t' ← get
    put (record t' { ents = store t'.ents pos (record { off = r.off; term = r.term }) })
    replay good raw (pos + 1))

  -- The log before its entries are known.
  unfoldable pub skeleton : Erec → LogFile env → Log env
  skeleton a f = record {
    f = f;
    out = empty;
    base_index = a.base_index;
    base_term = a.base_term;
    m = adopted_meta a;
    cm = adopted_meta a;
    ents = [];
    cap_ents = 0;
  }

  unfoldable pub cut_tail : ℕ → ℕ → Action (Log env) Unit
  unfolding with_file bjfile_set_len
  cut_tail good flen t =
      if ltb good flen
      then with_file env t (bjfile_set_len env.host env.plat good t.f)
      else (ok tt, t)

  unfoldable pub rebuild : ℕ → ℕ → List ElRaw → Action (Log env) Unit
  unfolding actions replay cut_tail
  rebuild good flen raw = do
    n ← replay good raw 0
    t ← get
    let want = t.m.last_index - t.base_index
    check (leb want n) state
    let tail_term = if want == 0 then t.base_term else (get_or t.ents (want - 1) no_entry).term
    check (tail_term == t.m.last_term) state
    let m : ElMeta = record (t.m) { n_ents = want }
    put (record t { m = m; cm = m })
    cut_tail good flen

  unfoldable pub scanned : Result ℕ × (LogFile env × ElScan) → Result (ℕ × ElScan) × LogFile env
  scanned (ok good, (f, s)) = (ok (good, s), f)
  scanned (err e, (f, s)) = (err e, f)

  -- A failure frees the log; what it did to the file stays.
  unfoldable pub opened : Result (Unit {0}) × Log env → Result (Log env) × LogFile env
  opened (ok u, t) = (ok t, t.f)
  opened (err e, t) = (err e, t.f)

  unfoldable pub open_file : Action (LogFile env) (Log env)
  unfolding actions bjfile_check_header bjfile_scan_commits el_scan_cb scanned adopt check_adopted
      skeleton rebuild opened bjfile_len
  open_file = do
    has_header ← bjfile_check_header env.host env.plat env.wire (codes "entrylog")
    f ← get
    let flen = bjfile_len env.host env.plat f
    (good, s) ← λ (f : LogFile env).
        scanned (bjfile_scan_commits env.host env.plat env.wire el_scan_cb (f, new_scan))
    a ← lift (check_adopted (adopt s good))
    λ (f : LogFile env). opened (rebuild good flen s.raw (skeleton a f))

  unfoldable pub elog_open : env.host.Ctx → Result (Log env)
  unfolding open_file bjfile_init
  elog_open ctx = (open_file (bjfile_init env.host env.plat ctx)).0
