-- ===== src/Tests/Readback.antt =====
-- Reading src/entrylog.c's log back: a file that holds one entry record.
use binjson_structures.Shared.{ℕ, ◌-◌, refl, arith, List, [], ◌∷◌, length}
use binjson_structures.Shared.Result.{ok}
use binjson_structures.Shared.State.{actions}
use binjson_structures.Shared.Bytes.{le_word}
use binjson_structures.Dbuf.{empty}
use binjson_structures.Dbuf.Capacity.{grow, next_capacity, reallocate, double_until}
use binjson_structures.Double.{is_safe_int, of_int64, to_u64}
use binjson_structures.Cursor.{readers}
use binjson_structures.BjFile.Reading.{
  bjfile_read_record, read_committed, io_read, count_of, grow_rd, top_up,
}
use binjson_structures.Entrylog.Record.{
  ElMeta, parse_record, parse_fields, parse_field, take_binary,
}
use binjson_structures.Entrylog.State.{Env, Log}
use binjson_structures.Entrylog.Read.{
  elog_verify, verify_entries, read_entry, stored_record, with_file,
}
use binjson_structures.Entrylog.Verified.{Sound, elog_verify_lem}
use binjson_structures.Tests.Host.{env, wire}

-- A value here reaches to the end of the bytes.
abbrev whole : Env
whole = record env { wire = record wire { value_size = λ d pos. ok (length d - pos) } }

-- Entry 11 of term 2, with one payload byte.
abbrev entry_record : List ℕ
entry_record =
    10 ∷ 76 ∷ 0 ∷ 0 ∷ 0 ∷ 4 ∷ 0 ∷ 0 ∷ 0 ∷ 5 ∷ 0 ∷ 0 ∷ 0 ∷ 105 ∷ 110 ∷ 100 ∷ 101 ∷ 120 ∷ 3 ∷ 11 ∷ 0
    ∷ 0 ∷ 0 ∷ 0 ∷ 0 ∷ 0 ∷ 0 ∷ 4 ∷ 0 ∷ 0 ∷ 0 ∷ 116 ∷ 101 ∷ 114 ∷ 109 ∷ 3 ∷ 2 ∷ 0 ∷ 0 ∷ 0 ∷ 0 ∷ 0 ∷ 0
    ∷ 0 ∷ 4 ∷ 0 ∷ 0 ∷ 0 ∷ 116 ∷ 121 ∷ 112 ∷ 101 ∷ 3 ∷ 0 ∷ 0 ∷ 0 ∷ 0 ∷ 0 ∷ 0 ∷ 0 ∷ 0 ∷ 7 ∷ 0 ∷ 0 ∷ 0
    ∷ 112 ∷ 97 ∷ 121 ∷ 108 ∷ 111 ∷ 97 ∷ 100 ∷ 6 ∷ 1 ∷ 0 ∷ 0 ∷ 0 ∷ 97 ∷ []

abbrev one_entry : ElMeta
one_entry = record {
  last_index = 11;
  last_term = 2;
  current_term = 2;
  voted_for = 0;
  commit_index = 10;
  n_ents = 1;
}

abbrev stored_log : Log whole
stored_log = record {
  f = record {
    ctx = entry_record;
    flen = 78;
    wb = [];
    wb_cap = 0;
    rd_cap = 512;
    rd_hint = 512;
    autoflush = 0;
    crc = 0;
    crc_len = 0;
    crc_committed = 0;
    crc_len_committed = 0;
  };
  out = empty;
  base_index = 10;
  base_term = 1;
  m = one_entry;
  cm = one_entry;
  ents = record { off = 0; term = 2 } ∷ [];
  cap_ents = 16;
}

elog_verify_lem_example : Sound whole stored_log stored_log
elog_verify_lem_example = elog_verify_lem whole stored_log stored_log (omega arith) (
    unfold elog_verify verify_entries read_entry stored_record with_file bjfile_read_record
      read_committed io_read count_of grow_rd top_up grow next_capacity reallocate double_until
      actions readers parse_record parse_fields parse_field take_binary le_word is_safe_int of_int64
      to_u64 in
    refl)
