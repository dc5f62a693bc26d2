-- ===== src/BjFile/Reading.antt =====
-- Reading records and ranges of src/bjfile.c, committed or still pending.
use binjson_structures.Shared.{
  ℕ, zero, suc, ◌+◌, ◌-◌, ◌%◌, ◌^◌, List, ◌++◌, length, take, drop, ltb, leb, if◌then◌else◌,
}
use binjson_structures.Shared.Words.{add64}
use binjson_structures.Shared.Result.{Result, ok, err, eof}
use binjson_structures.Shared.State.{Action, ◌>>=◌, ◌>>◌, pure, get, put, lift, check, actions}
use binjson_structures.Dbuf.Capacity.{Platform, grow}
use binjson_structures.Crc.{crc32_update}
use binjson_structures.Wire.{Wire}
use binjson_structures.BjFile.{File}
use binjson_structures.BjFile.Io.{Host, io_read_err, bytes_read, failed, Read}

abbrev pub min_of : ℕ → ℕ → ℕ
min_of a b = if ltb a b then a else b

module _ (h : Host) (plat : Platform) where
  unfoldable pub count_of : Read × h.Ctx → File h plat → Result (List ℕ) × File h plat
  unfolding io_read_err
  count_of (failed e, ctx) f = (err (io_read_err e), record f { ctx = ctx })
  count_of (bytes_read b, ctx) f = (ok b, record f { ctx = ctx })

  -- One `read` callback; the length is narrowed to uint32_t.
  unfoldable pub io_read : ℕ → ℕ → Action (File h plat) (List ℕ)
  unfolding count_of
  io_read off n f = count_of (h.read f.ctx off (n % 2 ^ 32)) f

  -- `grow (&f->rd, &f->rd_cap, n)`
  unfoldable pub grow_rd : ℕ → Action (File h plat) Unit
  unfolding actions
  grow_rd n f = (do nc ← lift (grow plat f.rd_cap n); put (record f { rd_cap = nc })) f

  unfoldable pub raise_hint : ℕ → Action (File h plat) Unit
  raise_hint sz f = (ok tt, record f { rd_hint = if ltb f.rd_hint sz then sz else f.rd_hint })

  -- The rest of a record that outgrew the first read, which gave `first`.
  unfoldable pub top_up : ℕ → ℕ → List ℕ → Action (File h plat) (List ℕ)
  unfolding actions io_read grow_rd raise_hint
  top_up off sz first =
      if ltb (length first) sz
      then (do
        grow_rd sz
        more ← io_read (add64 off (length first)) (sz - length first)
        check (leb sz (length first + length more)) eof
        raise_hint sz
        pure (take sz (first ++ more)))
      else pure (take sz first)

  module _ (w : Wire) where
    -- A record that is still pending is served in place.
    unfoldable pub read_pending : ℕ → Action (File h plat) (List ℕ)
    unfolding actions
    read_pending rel = do
      f ← get
      sz ← lift (w.value_size f.wb rel)
      check (leb sz (length f.wb - rel)) eof
      pure (take sz (drop rel f.wb))

    unfoldable pub read_committed : ℕ → Action (File h plat) (List ℕ)
    unfolding actions io_read grow_rd top_up
    read_committed off = do
      f ← get
      let avail = min_of (f.flen - off) plat.size_max
      let want = min_of f.rd_hint avail
      grow_rd want
      first ← io_read off want
      sz ← lift (w.value_size first 0)
      check (leb sz avail) eof
      top_up off sz first

    unfoldable pub bjfile_read_record : ℕ → Action (File h plat) (List ℕ)
    unfolding actions read_pending read_committed
    bjfile_read_record off = do
      f ← get
      check (ltb off (add64 f.flen (length f.wb))) eof
      if leb f.flen off then read_pending (off - f.flen) else read_committed off

  -- Exactly [off, off + n), committed or pending.
  unfoldable pub read_range : ℕ → ℕ → Action (File h plat) (List ℕ)
  unfolding actions io_read grow_rd
  read_range off n = do
    f ← get
    let total = add64 f.flen (length f.wb)
    check (leb off total) eof
    check (leb n (total - off)) eof
    if leb f.flen off then pure (take n (drop (off - f.flen) f.wb)) else (do
      check (leb (add64 off n) f.flen) eof
      grow_rd n
      b ← io_read off n
      check (leb n (length b)) eof
      pure (take n b))

  -- The loop of `crc_over_range` in chunks of `size` bytes, on fuel: a round takes one byte at least.
  unfoldable pub crc_over_range : ℕ → ℕ → ℕ → ℕ → ℕ → Action (File h plat) ℕ
  unfolding actions io_read
  crc_over_range zero from to size crc = pure crc
  crc_over_range (suc fuel) from to size crc =
      if ltb from to
      then (do
        let n = min_of (to - from) size
        b ← io_read from n
        check (leb n (length b)) eof
        crc_over_range fuel (from + n) to size (crc32_update crc (take n b)))
      else pure crc
