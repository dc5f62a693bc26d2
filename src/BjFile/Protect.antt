-- ===== src/BjFile/Protect.antt =====
-- Commit protection of src/bjfile.c: the CRC trailer before the metadata, the header, the check of
-- the tail.
use binjson_structures.Shared.{
  ℕ, ◌+◌, ◌-◌, ◌*◌, ◌^◌, false, not, ◌&&◌, Option, none, some, List, [], ◌∷◌, ◌++◌, length, take,
  drop, get_or, ltb, leb, ◌==◌, if◌then◌else◌,
}
use binjson_structures.Shared.Words.{add64}
use binjson_structures.Shared.Bytes.{le_bytes}
use binjson_structures.Shared.Result.{Result, ok, eof, state}
use binjson_structures.Shared.State.{Action, ◌>>=◌, ◌>>◌, pure, get, lift, check, actions}
use binjson_structures.Dbuf.Capacity.{Platform}
use binjson_structures.Crc.{crc32_update}
use binjson_structures.Wire.{Wire}
use binjson_structures.Cursor.{name_eq, rdu32}
use binjson_structures.BjFile.{File, append_bytes, bjfile_append, trailer_size, u32_max}
use binjson_structures.BjFile.Io.{Host}
use binjson_structures.BjFile.Reading.{bjfile_read_record, read_range, crc_over_range}

-- "BJC1"
abbrev pub trailer_magic : List ℕ
trailer_magic = 0x42 ∷ 0x4A ∷ 0x43 ∷ 0x31 ∷ []

-- Tail commits above this size are accepted with no CRC check.
abbrev pub verify_cap : ℕ
verify_cap = 8 * 2 ^ 20

module _ (w : Wire) where
  -- The 17 bytes of a trailer.
  unfoldable pub trailer : ℕ → ℕ → List ℕ
  unfolding le_bytes
  trailer crc clen =
      w.type_binary ∷ (le_bytes 4 12 ++ (trailer_magic ++ (le_bytes 4 crc ++ le_bytes 4 clen)))

  -- The recorded CRC and commit length, if the record is a trailer.
  unfoldable pub is_trailer : List ℕ → Option (ℕ × ℕ)
  unfolding rdu32 name_eq
  is_trailer rec =
      if not (length rec == trailer_size)
      then none
      else if not (get_or rec 0 0 == w.type_binary)
      then none
      else if not (rdu32 (drop 1 rec) == 12)
      then none
      else if not (name_eq (take 4 (drop 5 rec)) trailer_magic)
      then none
      else some (rdu32 (drop 9 rec), rdu32 (drop 13 rec))

module _ (h : Host) (plat : Platform) (w : Wire) where
  unfoldable pub reset_crc : Action (File h plat) Unit
  reset_crc f = (ok tt, record f { crc = 0; crc_len = 0 })

  unfoldable pub bjfile_append_protected : List ℕ → Action (File h plat) Unit
  unfolding actions append_bytes trailer reset_crc
  bjfile_append_protected md = do
    f ← get
    let commit_len = add64 (add64 f.crc_len (length md)) trailer_size
    if ltb u32_max commit_len then (do off ← append_bytes h plat false md; pure tt) else (do
      tr ← append_bytes h plat false (trailer w (crc32_update f.crc md) commit_len)
      off ← append_bytes h plat false md
      pure tt)
    reset_crc

  -- `encode_header` is binjson's builder on `{ binjson: type, fmt: 1 }`.
  unfoldable pub bjfile_append_header :
      (List ℕ → Result (List ℕ)) → List ℕ → Action (File h plat) Unit
  unfolding actions bjfile_append
  bjfile_append_header encode_header type = do
    d ← lift (encode_header type)
    off ← bjfile_append h plat d
    pure tt

  -- The CRC of a tail commit without its trailer's bytes.
  unfoldable pub verify_tail : ℕ → ℕ → ℕ → ℕ → Action (File h plat) Unit
  unfolding actions crc_over_range
  verify_tail flen md_off clen want_crc = do
    let start = flen - clen
    let tr_off = md_off - trailer_size
    crc ← crc_over_range h plat clen start tr_off 4096 0
    crc' ← crc_over_range h plat clen md_off flen 4096 crc
    check (crc' == want_crc) state

  unfoldable pub check_trailer : ℕ → ℕ → ℕ → Option (ℕ × ℕ) → Action (File h plat) Unit
  unfolding actions verify_tail
  check_trailer flen meta_size md_off none = pure tt
  check_trailer flen meta_size md_off (some (want_crc, clen)) = do
    check (leb clen flen && leb (meta_size + trailer_size) clen) state
    if leb clen verify_cap then verify_tail flen md_off clen want_crc else pure tt

  unfoldable pub bjfile_check_tail : ℕ → Action (File h plat) (List ℕ)
  unfolding actions read_range is_trailer check_trailer bjfile_read_record
  bjfile_check_tail meta_size = do
    f ← get
    let flen = add64 f.flen (length f.wb)
    check (leb meta_size flen) eof
    let md_off = flen - meta_size
    if leb (meta_size + trailer_size) flen
        then (do
          tr ← read_range h plat (md_off - trailer_size) trailer_size
          check_trailer flen meta_size md_off (is_trailer w tr))
        else pure tt
    rec ← bjfile_read_record h plat w md_off
    check (length rec == meta_size) state
    pure rec
