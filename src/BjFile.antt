-- ===== src/BjFile.antt =====
-- src/bjfile.c: an append-only file of records behind the host's callbacks (include/bjio.h).
pub mod Io
pub mod Reading
pub mod Protect
pub mod Recover
pub mod Discard
pub mod Pending
pub mod Sync
use binjson_structures.Shared.{
  ℕ, zero, suc, ◌+◌, ◌-◌, ◌%◌, ◌^◌, Bool, true, false, not, ◌&&◌, ◌||◌, Option, none, some, List,
  [], ◌∷◌, ◌++◌, length, take, drop, ltb, leb, ◌==◌, if◌then◌else◌,
}
use binjson_structures.Shared.Words.{add64}
use binjson_structures.Shared.Bytes.{le_bytes}
use binjson_structures.Shared.Result.{Result, ok, err, eof, oom, state}
use binjson_structures.Shared.State.{
  Action, ◌>>=◌, ◌>>◌, pure, fail, get, put, lift, check, actions,
}
use binjson_structures.Dbuf.Capacity.{Platform, grow}
use binjson_structures.Crc.{crc32_update}
use binjson_structures.Wire.{Wire}
use Io.{Host, io_read_err, bytes_read, failed, Read}

-- `bjfile`. `wb_len` is the length of `wb`; `rd` holds what the last read left there.
pub record BjFile (Ctx : Type 0) : Type 0 where
  pub ctx : Ctx
  pub flen : ℕ
  pub wb : List ℕ
  pub wb_cap : ℕ
  pub rd_cap : ℕ
  pub rd_hint : ℕ
  pub autoflush : ℕ
  pub crc : ℕ
  pub crc_len : ℕ
  pub crc_committed : ℕ
  pub crc_len_committed : ℕ

abbrev pub rd_hint0 : ℕ
rd_hint0 = 512

abbrev pub trailer_size : ℕ
trailer_size = 17

abbrev pub u32_max : ℕ
u32_max = 2 ^ 32 - 1

module _ (h : Host) (plat : Platform) where
  abbrev pub File : Type 0
  File = BjFile h.Ctx

  -- `bjfile_init`, where `bjio_check` is a no-op (no BJIO_REQUIRE_SYNC).
  unfoldable pub bjfile_init : h.Ctx → File
  bjfile_init ctx = record {
    ctx = ctx;
    flen = h.size ctx;
    wb = [];
    wb_cap = 0;
    rd_cap = 0;
    rd_hint = rd_hint0;
    autoflush = 0;
    crc = 0;
    crc_len = 0;
    crc_committed = 0;
    crc_len_committed = 0;
  }

  unfoldable pub bjfile_len : File → ℕ
  bjfile_len f = add64 f.flen (length f.wb)

  -- What follows the host's `write`.
  unfoldable pub after_write : File → Result (Unit {0}) × h.Ctx → Result (Unit {0}) × File
  after_write f (err e, ctx) = (err e, record f { ctx = ctx })
  after_write f (ok u, ctx) = (
    ok tt,
    record f {
      ctx = ctx;
      flen = add64 f.flen (length f.wb);
      wb = [];
      crc_committed = f.crc;
      crc_len_committed = f.crc_len;
    },
  )

  unfoldable pub bjfile_commit : Action File Unit
  unfolding after_write
  bjfile_commit f =
      if length f.wb == 0
      then (ok tt, record f { crc_committed = f.crc; crc_len_committed = f.crc_len })
      else if ltb u32_max (length f.wb)
      then (err oom, f)
      else after_write f (h.write f.ctx f.flen f.wb)

  -- A callback on the host's state alone.
  unfoldable pub on_host : (h.Ctx → Result (Unit {0}) × h.Ctx) → Action File Unit
  on_host call f = let (r, ctx) = call f.ctx in (r, record f { ctx = ctx })

  unfoldable pub host_sync : Option (h.Ctx → Result (Unit {0}) × h.Ctx) → Action File Unit
  unfolding on_host
  host_sync none f = (ok tt, f)
  host_sync (some call) f = on_host call f

  unfoldable pub bjfile_sync : Action File Unit
  unfolding actions bjfile_commit host_sync
  bjfile_sync = do bjfile_commit; host_sync h.sync

  unfoldable pub bjfile_discard : File → File
  bjfile_discard f = record f { wb = []; crc = f.crc_committed; crc_len = f.crc_len_committed }

  unfoldable pub host_truncate :
      Option (h.Ctx → ℕ → Result (Unit {0}) × h.Ctx) → ℕ → Action File Unit
  unfolding on_host
  host_truncate none len f = (ok tt, f)
  host_truncate (some call) len f = on_host (λ ctx. call ctx len) f

  unfoldable pub bjfile_set_len : ℕ → Action File Unit
  unfolding host_truncate
  bjfile_set_len len f =
      if not (length f.wb == 0) || ltb f.flen len
      then (err state, f)
      else host_truncate h.truncate len (record f { flen = len })

  -- The bytes reach the buffer, and the running CRC if they count for it.
  unfoldable pub buffer : Bool → List ℕ → ℕ → File → File
  buffer account_crc b nc f =
      let f' : File = record f { wb = f.wb ++ b; wb_cap = nc } in
      if account_crc
      then record f' { crc = crc32_update f.crc b; crc_len = add64 f.crc_len (length b) }
      else f'

  -- Returns the offset of the bytes.
  unfoldable pub append_bytes : Bool → List ℕ → Action File ℕ
  unfolding actions
  append_bytes account_crc b f =
      let off = add64 f.flen (length f.wb) in
      if ltb (plat.size_max - length f.wb) (length b)
      then (err oom, f)
      else (do
        nc ← lift (grow plat f.wb_cap (length f.wb + length b))
        put (buffer account_crc b nc f)
        f' ← get
        if not (f'.autoflush == 0) && leb f'.autoflush (length f'.wb)
            then bjfile_commit
            else pure tt
        pure off)
          f

  unfoldable pub bjfile_append : List ℕ → Action File ℕ
  unfolding append_bytes
  bjfile_append b = append_bytes true b
