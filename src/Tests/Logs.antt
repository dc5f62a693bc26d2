-- ===== src/Tests/Logs.antt =====
-- src/entrylog.c at a concrete log: two entries, one of them committed, a vote for node 7 in term 3.
use binjson_structures.Shared.{◌≤◌, ◌≡◌, refl, arith, List, [], ◌∷◌, ◌++◌}
use binjson_structures.Shared.State.{actions}
use binjson_structures.BjFile.{bjfile_init}
use binjson_structures.Entrylog.Record.{ElMeta}
use binjson_structures.Shared.Bytes.{le_bytes}
use binjson_structures.Crc.{crc32_update, crc_loop, crc_round}
use binjson_structures.Dbuf.{empty}
use binjson_structures.Dbuf.Capacity.{grow, next_capacity, reallocate, double_until}
use binjson_structures.BjFile.{
  bjfile_append, append_bytes, buffer, bjfile_sync, bjfile_commit, after_write, host_sync,
}
use binjson_structures.BjFile.Protect.{
  bjfile_append_header, bjfile_append_protected, reset_crc, trailer,
}
use binjson_structures.Entrylog.Record.{metadata_fields}
use binjson_structures.Entrylog.State.{
  commit_state, settle, write_state, append_metadata, Log, elog_create_at, created, fresh,
  write_first,
}
use binjson_structures.Entrylog.Append.{
  elog_term_at, elog_sync, elog_truncate_from, elog_set_hard_state, next_hard,
}
use binjson_structures.Entrylog.Invariant.Table.{IsValid, IsConsistent}
use binjson_structures.Entrylog.Invariant.Commit.{elog_create_at-IsValid}
use binjson_structures.Entrylog.Session.{
  Call, append, sync, set_hard_state, set_commit_index, truncate_from, run, run_all,
  run_all-IsValid,
}
use binjson_structures.Entrylog.Session.Stable.{
  one_vote_per_term, committed_terms_stay, run_all-current_term,
}
use binjson_structures.Tests.Host.{env, wire}

abbrev two_entries : ElMeta
two_entries = record {
  last_index = 12;
  last_term = 3;
  current_term = 3;
  voted_for = 7;
  commit_index = 11;
  n_ents = 2;
}

abbrev log : Log env
log = record {
  f = record {
    ctx = 1 ∷ 2 ∷ [];
    flen = 2;
    wb = [];
    wb_cap = 0;
    rd_cap = 0;
    rd_hint = 512;
    autoflush = 0;
    crc = 0;
    crc_len = 0;
    crc_committed = 0;
    crc_len_committed = 0;
  };
  out = empty;
  base_index = 10;
  base_term = 1;
  m = two_entries;
  cm = two_entries;
  ents = record { off = 0; term = 2 } ∷ record { off = 1; term = 3 } ∷ [];
  cap_ents = 16;
}

two_entries-IsConsistent : IsConsistent 10 1 log.ents two_entries
two_entries-IsConsistent = record {
  bounds = refl;
  few = omega arith;
  stored = omega arith;
  ascending = (omega arith, (omega arith, tt));
  tail = refl;
  reached = omega arith;
  commit_lo = omega arith;
  commit_hi = omega arith;
}

log-IsValid : IsValid log
log-IsValid = record {
  wide = omega arith;
  live = two_entries-IsConsistent;
  committed = two_entries-IsConsistent;
  ahead = omega arith;
  commit_ahead = omega arith;
  same_term = refl;
  same_vote = refl;
}

abbrev session : List Call
session =
    append 3 0 (1 ∷ [])
    ∷ sync
    ∷ truncate_from 11
    ∷ truncate_from 13
    ∷ set_hard_state 3 8
    ∷ set_commit_index 12
    ∷ []

-- A second vote, for node 8, and the truncation of a committed entry are refused.
abbrev refused : List Call
refused = set_hard_state 3 8 ∷ truncate_from 11 ∷ sync ∷ []

refused_term : (run_all env refused log).m.current_term ≡ 3
unfolding run_all run elog_sync elog_truncate_from elog_set_hard_state next_hard actions
    commit_state settle write_state append_metadata metadata_fields bjfile_append_protected
    append_bytes buffer bjfile_sync bjfile_commit after_write host_sync reset_crc trailer
    crc32_update crc_loop crc_round le_bytes grow next_capacity reallocate double_until
refused_term = refl

run_all-IsValid_example : IsValid (run_all env session log)
run_all-IsValid_example = run_all-IsValid env session log log-IsValid

one_vote_per_term_example : (run_all env refused log).m.voted_for ≡ 7
one_vote_per_term_example = one_vote_per_term env refused log log-IsValid (omega arith) refused_term

committed_terms_stay_example :
    elog_term_at env 11 (run_all env session log) ≡ elog_term_at env 11 log
committed_terms_stay_example =
    committed_terms_stay env session log 11 log-IsValid (omega arith) (omega arith)

run_all-current_term_example : 3 ≤ (run_all env session log).m.current_term
run_all-current_term_example = run_all-current_term env session log log-IsValid

-- The log that creation on index 10 and term 1 gives.
abbrev new_log : Log env
new_log = record {
  f = record {
    ctx = 9 ∷ 9 ∷ (trailer wire (crc32_update 0 (9 ∷ 9 ∷ 1 ∷ 2 ∷ [])) 21 ++ (1 ∷ 2 ∷ []));
    flen = 21;
    wb = [];
    wb_cap = 256;
    rd_cap = 0;
    rd_hint = 512;
    autoflush = 0;
    crc = 0;
    crc_len = 0;
    crc_committed = 0;
    crc_len_committed = 0;
  };
  out = empty;
  base_index = 10;
  base_term = 1;
  m = fresh env 10 1;
  cm = fresh env 10 1;
  ents = [];
  cap_ents = 0;
}

elog_create_at-IsValid_example : IsValid new_log
elog_create_at-IsValid_example = elog_create_at-IsValid env 10 1 [] new_log (omega arith) (
    unfold elog_create_at created write_first fresh bjfile_init bjfile_append_header bjfile_append
      actions append_metadata metadata_fields bjfile_append_protected append_bytes buffer
      bjfile_commit after_write reset_crc trailer crc32_update crc_loop crc_round le_bytes grow
      next_capacity reallocate double_until in
    refl)
