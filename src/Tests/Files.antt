-- ===== src/Tests/Files.antt =====
-- src/bjfile.c at a concrete file with two committed and two pending bytes.
use binjson_structures.Shared.{ℕ, ◌≡◌, refl, arith, Bool, true, false, List, [], ◌∷◌}
use binjson_structures.Shared.Result.{err, eof}
use binjson_structures.Shared.State.{actions}
use binjson_structures.BjFile.{
  File, bjfile_commit, bjfile_sync, bjfile_discard, append_bytes, after_write, host_sync, on_host,
}
use binjson_structures.BjFile.Discard.{append_all, bjfile_discard-append}
use binjson_structures.BjFile.Pending.{
  IsValid, Committed, Appended, bjfile_commit_lem, append_bytes_lem,
}
use binjson_structures.BjFile.Sync.{Synced, bjfile_sync_lem}
use binjson_structures.Tests.Host.{
  plat, memory, memory_file, torn, torn_file, failing, failing_file,
}

abbrev two_pending : File memory plat
two_pending = record {
  ctx = 1 ∷ 2 ∷ [];
  flen = 2;
  wb = 3 ∷ 4 ∷ [];
  wb_cap = 4096;
  rd_cap = 0;
  rd_hint = 512;
  autoflush = 0;
  crc = 5;
  crc_len = 2;
  crc_committed = 0;
  crc_len_committed = 0;
}

two_pending-IsValid : IsValid memory plat memory_file two_pending
two_pending-IsValid = record { flen_lem = omega arith; fits = omega arith; crc_fits = omega arith }

-- The commit succeeds on the file in memory, and fails behind its first byte on the torn one.
bjfile_commit_lem_example :
    Committed memory plat memory_file two_pending (bjfile_commit memory plat two_pending)
    × Committed torn plat torn_file two_pending (bjfile_commit torn plat two_pending)
bjfile_commit_lem_example = (
  bjfile_commit_lem memory plat memory_file two_pending two_pending-IsValid,
  bjfile_commit_lem torn plat torn_file two_pending
      (record { flen_lem = omega arith; fits = omega arith; crc_fits = omega arith }),
)

torn_commit :
    bjfile_commit torn plat two_pending ≡ (err eof, record two_pending { ctx = 1 ∷ 2 ∷ 3 ∷ [] })
unfolding bjfile_commit after_write
torn_commit = refl

append_bytes_lem_example :
    Appended memory plat memory_file true
      (5 ∷ 6 ∷ [])
      two_pending
      (append_bytes memory plat true (5 ∷ 6 ∷ []) two_pending)
append_bytes_lem_example =
    append_bytes_lem memory plat memory_file true (5 ∷ 6 ∷ []) two_pending two_pending-IsValid refl
      (omega arith) (omega arith)

abbrev all_stored : File memory plat
all_stored = record two_pending {
  ctx = 1 ∷ 2 ∷ 3 ∷ 4 ∷ [];
  flen = 4;
  wb = [];
  crc_committed = 5;
  crc_len_committed = 2;
}

abbrev appends : List (Bool × List ℕ)
appends = (true, 5 ∷ []) ∷ (false, 6 ∷ 7 ∷ []) ∷ []

bjfile_discard-append_example :
    record (bjfile_discard memory plat (append_all memory plat appends all_stored)) { wb_cap = 0 }
    ≡ record all_stored { wb_cap = 0 }
bjfile_discard-append_example =
    bjfile_discard-append memory plat appends two_pending all_stored
      (unfold bjfile_commit after_write in refl) refl

bjfile_sync_lem_example :
    Synced failing plat failing_file two_pending (bjfile_sync failing plat two_pending)
bjfile_sync_lem_example =
    bjfile_sync_lem failing plat failing_file two_pending
      (record { flen_lem = omega arith; fits = omega arith; crc_fits = omega arith })

failed_sync : bjfile_sync failing plat two_pending ≡ (err eof, all_stored)
unfolding bjfile_sync bjfile_commit after_write host_sync on_host actions
failed_sync = refl
