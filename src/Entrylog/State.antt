-- ===== src/Entrylog/State.antt =====
-- The state of src/entrylog.c and its commits.
use binjson_structures.Shared.{
  ℕ, zero, suc, ◌*◌, Bool, List, [], ◌∷◌, ◌++◌, take, drop, ltb, leb, ◌==◌, if◌then◌else◌,
}
use binjson_structures.Shared.Result.{Result, ok, err, oom}
use binjson_structures.Shared.State.{Action, ◌>>=◌, ◌>>◌, lift, actions}
use binjson_structures.Dbuf.{Dbuf, empty}
use binjson_structures.Dbuf.Capacity.{Platform}
use binjson_structures.Wire.{Wire}
use binjson_structures.BjFile.{
  File, BjFile, bjfile_init, bjfile_append, bjfile_commit, bjfile_sync, bjfile_discard,
}
use binjson_structures.BjFile.Io.{Host}
use binjson_structures.BjFile.Protect.{bjfile_append_protected, bjfile_append_header}
use binjson_structures.Entrylog.Record.{
  ElMeta, Builder, codes, entry_fields, metadata_fields, Value,
}

-- `el_ent`
pub record ElEnt : Type 0 where
  pub off : ℕ
  pub term : ℕ

-- `elog`. The array `ents` may hold dead entries behind the first `m.n_ents`.
pub record Elog (Ctx : Type 0) : Type 0 where
  pub f : BjFile Ctx
  pub out : Dbuf
  pub base_index : ℕ
  pub base_term : ℕ
  pub m : ElMeta
  pub cm : ElMeta
  pub ents : List ElEnt
  pub cap_ents : ℕ

-- What the module takes from outside: the host, memory, the wire format and binjson's builder, and
-- the header record for a log.
pub record Env : Type 1 where
  pub host : Host
  pub plat : Platform
  pub wire : Wire
  pub build : Builder
  pub build_array : List (List (List ℕ × Value)) → Result (List ℕ)
  pub encode_header : List ℕ → Result (List ℕ)

-- The array after `ents[i] = e`.
unfoldable pub store : List ElEnt → ℕ → ElEnt → List ElEnt
store ents i e = take i ents ++ (e ∷ drop (suc i) ents)

-- `while (nc < need) nc *= 2;` on fuel.
unfoldable pub double_ents : ℕ → ℕ → ℕ → ℕ
double_ents zero nc need = nc
double_ents (suc fuel) nc need =
    let rest = double_ents fuel (nc * 2) need in if ltb nc need then rest else nc

module _ (env : Env) where
  abbrev pub Log : Type 0
  Log = Elog env.host.Ctx

  abbrev pub LogFile : Type 0
  LogFile = File env.host env.plat

  unfoldable pub ents_reserve : ℕ → Action Log Unit
  unfolding double_ents
  ents_reserve need t =
      if leb need t.cap_ents
      then (ok tt, t)
      else let nc = double_ents need (if t.cap_ents == 0 then 16 else t.cap_ents * 2) need in
        if env.plat.can_alloc (nc * 16) then (ok tt, record t { cap_ents = nc }) else (err oom, t)

  unfoldable pub encode_entry : ℕ → ℕ → ℕ → List ℕ → Action LogFile ℕ
  unfolding actions entry_fields bjfile_append
  encode_entry index term type payload = do
    d ← lift (env.build (entry_fields index term type payload))
    bjfile_append env.host env.plat d

  unfoldable pub append_metadata : ℕ → ℕ → ElMeta → Action LogFile Unit
  unfolding actions metadata_fields bjfile_append_protected
  append_metadata base_index base_term m = do
    d ← lift (env.build (metadata_fields base_index base_term m))
    bjfile_append_protected env.host env.plat env.wire d

  -- The file's part of a commit.
  unfoldable pub write_state : Bool → ℕ → ℕ → ElMeta → Action LogFile Unit
  unfolding actions append_metadata bjfile_sync bjfile_commit
  write_state durable base_index base_term m = do
    append_metadata base_index base_term m
    if durable then bjfile_sync env.host env.plat else bjfile_commit env.host env.plat

  -- What a commit makes of the file's outcome: adopt the live state, or roll it back.
  unfoldable pub settle : Log → Result (Unit {0}) × LogFile → Result (Unit {0}) × Log
  settle t (ok u, f) = (ok tt, record t { f = f; cm = t.m })
  settle t (err e, f) = (err e, record t { f = bjfile_discard env.host env.plat f; m = t.cm })

  unfoldable pub commit_state : Bool → Action Log Unit
  unfolding settle
  commit_state durable t = settle t (write_state durable t.base_index t.base_term t.m t.f)

  unfoldable pub fresh : ℕ → ℕ → ElMeta
  fresh base_index base_term = record {
    last_index = base_index;
    last_term = base_term;
    current_term = base_term;
    voted_for = 0;
    commit_index = base_index;
    n_ents = 0;
  }

  -- A failure frees the log; what it did to the file stays.
  unfoldable pub created : ℕ → ℕ → Result (Unit {0}) × LogFile → Result Log
  unfolding fresh
  created base_index base_term (err e, f) = err e
  created base_index base_term (ok u, f) = ok (record {
    f = f;
    out = empty;
    base_index = base_index;
    base_term = base_term;
    m = fresh base_index base_term;
    cm = fresh base_index base_term;
    ents = [];
    cap_ents = 0;
  })

  -- The first commit of a new file: header, metadata.
  unfoldable pub write_first : ℕ → ℕ → Action LogFile Unit
  unfolding actions fresh append_metadata bjfile_append_header bjfile_commit
  write_first base_index base_term = do
    bjfile_append_header env.host env.plat env.wire env.encode_header (codes "entrylog")
    append_metadata base_index base_term (fresh base_index base_term)
    bjfile_commit env.host env.plat

  unfoldable pub elog_create_at : ℕ → ℕ → env.host.Ctx → Result Log
  unfolding created write_first bjfile_init
  elog_create_at base_index base_term ctx =
      created base_index base_term
        (write_first base_index base_term (bjfile_init env.host env.plat ctx))

  unfoldable pub elog_create : env.host.Ctx → Result Log
  unfolding elog_create_at
  elog_create = elog_create_at 0 0
