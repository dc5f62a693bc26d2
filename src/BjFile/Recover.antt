-- ===== src/BjFile/Recover.antt =====
-- The header check and the recovery scan of src/bjfile.c.
use binjson_structures.Shared.{
  ℕ, zero, suc, ◌+◌, ◌-◌, Bool, true, false, not, ◌&&◌, ◌||◌, Option, none, some, List, [], ◌∷◌,
  length, take, drop, get_or, ltb, leb, ◌==◌, if◌then◌else◌,
}
use binjson_structures.Shared.Words.{add64}
use binjson_structures.Shared.Result.{Result, ok, err, state, oom}
use binjson_structures.Shared.State.{Action, ◌>>=◌, ◌>>◌, pure, check, actions}
use binjson_structures.Dbuf.Capacity.{Platform}
use binjson_structures.Crc.{crc32_update}
use binjson_structures.Wire.{Wire}
use binjson_structures.Cursor.{name_eq, rdu32, rdu64}
use binjson_structures.BjFile.{File, trailer_size}
use binjson_structures.BjFile.Io.{Host}
use binjson_structures.BjFile.Reading.{bjfile_read_record, io_read, crc_over_range, min_of}
use binjson_structures.BjFile.Protect.{is_trailer}

-- The bytes of `n` from `pos` on.
abbrev span : List ℕ → ℕ → ℕ → List ℕ
span rec pos n = take n (drop pos rec)

-- "binjson" and "fmt"
abbrev pub key_binjson : List ℕ
key_binjson = 0x62 ∷ 0x69 ∷ 0x6E ∷ 0x6A ∷ 0x73 ∷ 0x6F ∷ 0x6E ∷ []

abbrev pub key_fmt : List ℕ
key_fmt = 0x66 ∷ 0x6D ∷ 0x74 ∷ []

module _ (w : Wire) where
  -- The optional "fmt" field behind the type: formats above 1 and negative ones are refused.
  unfoldable pub check_fmt : List ℕ → ℕ → Result Bool
  unfolding rdu32 rdu64 name_eq
  check_fmt rec pos =
      if not (leb (pos + 4) (length rec))
      then ok true
      else if rdu32 (drop pos rec) == 3
          && (leb (pos + 4 + 3 + 9) (length rec) && name_eq (span rec (pos + 4) 3) key_fmt)
      then if get_or rec (pos + 7) 0 == w.type_int
        then if leb (rdu64 (drop (pos + 8) rec)) 1 then ok true else err state
        else ok true
      else ok true

  -- The header record's fields: `true` for a header of this type, `false` for a legacy file.
  unfoldable pub check_header_record : List ℕ → List ℕ → Result Bool
  unfolding check_fmt
  check_header_record type rec =
      if ltb (length rec) (9 + 4 + 7) || not (get_or rec 0 0 == w.type_object)
      then ok false
      else if not (rdu32 (drop 9 rec) == 7) || ltb (length rec) (13 + 7)
      then ok false
      else if not (name_eq (span rec 13 7) key_binjson)
      then ok false
      else if ltb (length rec) (20 + 5) || not (get_or rec 20 0 == w.type_string)
      then err state
      else let slen = rdu32 (drop 21 rec) in
        if ltb (length rec) (25 + slen)
        then err state
        else if not (slen == length type) || not (name_eq (span rec 25 (length type)) type)
        then err state
        else check_fmt rec (25 + slen)

-- What the scan carries: the end of the last accepted commit, the start of the commit at hand, its
-- CRC, and the trailer that was seen in it.
pub record Scan : Type 0 where
  pub good : ℕ
  pub epoch : ℕ
  pub crc : ℕ
  pub trailer : Option (ℕ × ℕ)

abbrev pub start_scan : Scan
start_scan = record { good = 0; epoch = 0; crc = 0; trailer = none }

-- Where a loop stopped: at the end of the file, or at damage.
pub data Verdict : Type 0 where
  clean damaged : Scan → Verdict

abbrev pub scan_of : Verdict → Scan
scan_of (clean s) = s
scan_of (damaged s) = s

-- A commit that carries a trailer must end with this record, and fit its length and CRC.
unfoldable pub fits_trailer : Option (ℕ × ℕ) → Bool → ℕ → ℕ → Bool
fits_trailer none is_end len crc = true
fits_trailer (some (tr_crc, tr_clen)) is_end len crc = is_end && (tr_clen == len && crc == tr_crc)

-- One record that is no trailer, after the callback has seen it.
unfoldable pub scan_record : ℕ → List ℕ → Bool → Scan → Verdict
unfolding fits_trailer
scan_record pos rec is_end s =
    let end = pos + length rec in
    let crc = crc32_update s.crc rec in
    if fits_trailer s.trailer is_end (end - s.epoch) crc
    then if is_end
      then clean (record { good = end; epoch = end; crc = 0; trailer = none })
      else clean (record s { crc = crc })
    else damaged (record s { crc = crc })

-- One trailer.
unfoldable pub scan_trailer : ℕ × ℕ → Scan → Verdict
scan_trailer t s = elim s.trailer [
  | none ↦ clean (record s { trailer = some t })
  | some old ↦ damaged s
]

module _ (h : Host) (plat : Platform) (w : Wire) where
  unfoldable pub header_of : List ℕ → Result (List ℕ) × File h plat → Result Bool × File h plat
  unfolding check_header_record
  header_of type (err e, f) = (ok false, f)
  header_of type (ok rec, f) = (check_header_record w type rec, f)

  unfoldable pub bjfile_check_header : List ℕ → Action (File h plat) Bool
  unfolding header_of bjfile_read_record
  bjfile_check_header type f =
      if add64 f.flen (length f.wb) == 0
      then (ok false, f)
      else header_of type (bjfile_read_record h plat w 0 f)

  -- A failing step of a search counts as "no".
  unfoldable pub or_no : Result Bool × File h plat → Result Bool × File h plat
  or_no (ok b, f) = (ok b, f)
  or_no (err e, f) = (ok false, f)

  -- Whether the whole commit around the trailer at `tr_off` fits its CRC.
  unfoldable pub verify_commit : ℕ → ℕ → ℕ → ℕ → Action (File h plat) Bool
  unfolding actions bjfile_read_record crc_over_range
  verify_commit tr_off want_crc clen flen = do
    mrec ← bjfile_read_record h plat w (tr_off + trailer_size)
    let md_end = tr_off + trailer_size + length mrec
    check (leb md_end flen && leb clen md_end) state
    let start = md_end - clen
    check (leb start tr_off) state
    crc ← crc_over_range h plat clen start tr_off 4096 0
    crc' ← crc_over_range h plat (length mrec) (tr_off + trailer_size) md_end 4096 crc
    pure (crc' == want_crc)

  -- The positions of one chunk; `p` is what is left of it, at offset `off`.
  unfoldable pub search_chunk : ℕ → List ℕ → ℕ → Action (File h plat) Bool
  unfolding actions is_trailer verify_commit or_no
  search_chunk off [] flen = pure false
  search_chunk off (b ∷ p) flen = elim (is_trailer w (take trailer_size (b ∷ p))) [
    | none ↦ search_chunk (off + 1) p flen
    | some (want_crc, clen) ↦ do
      found ← λ (f : File h plat). or_no (verify_commit off want_crc clen flen f)
      if found then pure true else search_chunk (off + 1) p flen
  ]

  abbrev pub chunk_size : ℕ
  chunk_size = 65536

  -- `while (pos < flen && !found)` on fuel: a chunk moves on by one byte at least.
  unfoldable pub search_loop : ℕ → ℕ → ℕ → Action (File h plat) Bool
  unfolding actions io_read search_chunk
  search_loop zero pos flen = pure false
  search_loop (suc fuel) pos flen =
      if ltb pos flen
      then (do
        buf ← io_read h plat pos (min_of (flen - pos) chunk_size)
        if ltb (length buf) trailer_size then pure false else (do
          found ← search_chunk pos buf flen
          let step =
              if ltb trailer_size (length buf) then length buf - (trailer_size - 1) else length buf
          if found then pure true else search_loop fuel (pos + step) flen))
      else pure false

  -- The search needs a buffer for one chunk.
  unfoldable pub find_verified_commit : ℕ → ℕ → Action (File h plat) Bool
  unfolding actions search_loop
  find_verified_commit from flen = do
    check (plat.can_alloc chunk_size) oom
    search_loop (flen + 1) from flen

  module _ {S : Type 0} (cb : S → ℕ → List ℕ → Result Bool × S) where
    abbrev pub Scanning : Type 0
    Scanning = File h plat × S

    -- The callback on a record, then the checks on it.
    unfoldable pub visited :
        ℕ → List ℕ → Scan → File h plat → Result Bool × S → Result Verdict × Scanning
    unfolding scan_record
    visited pos rec s f (err e, c) = (err e, (f, c))
    visited pos rec s f (ok is_end, c) = (ok (scan_record pos rec is_end s), (f, c))

    unfoldable pub scan_one : ℕ → List ℕ → Scan → Option (ℕ × ℕ) → Action Scanning Verdict
    unfolding visited scan_trailer
    scan_one pos rec s (some t) (f, c) = (ok (scan_trailer t s), (f, c))
    scan_one pos rec s none (f, c) = visited pos rec s f (cb c pos rec)

    -- Reading a record: running out of memory is no damage, any other failure is.
    unfoldable pub scan_read :
        ℕ → Scan → Result (List ℕ) × File h plat → S → Result (ℕ × Verdict) × Scanning
    unfolding actions scan_one is_trailer
    scan_read pos s (err oom, f) c = (err oom, (f, c))
    scan_read pos s (ok rec, f) c =
        (do v ← scan_one pos rec s (is_trailer w rec); pure (pos + length rec, v)) (f, c)
    scan_read pos s (err e, f) c = (ok (pos, damaged s), (f, c))

    -- `while (pos < flen)` on fuel: a record has one byte at least.
    unfoldable pub scan_loop : ℕ → ℕ → ℕ → Scan → Action Scanning Verdict
    unfolding actions scan_read
    scan_loop zero flen pos s = pure (clean s)
    scan_loop (suc fuel) flen pos s =
        if ltb pos flen
        then (do
          (pos', v) ← λ (x : Scanning). scan_read pos s (bjfile_read_record h plat w pos x.0) x.1
          elim v [ clean s' ↦ scan_loop fuel flen pos' s' | damaged s' ↦ pure (damaged s') ])
        else pure (clean s)

    unfoldable pub after_search : ℕ → S → Result Bool × File h plat → Result ℕ × Scanning
    after_search good c (err e, f) = (err e, (f, c))
    after_search good c (ok true, f) = (err state, (f, c))
    after_search good c (ok false, f) = (ok good, (f, c))

    unfoldable pub settle : ℕ → Verdict → Action Scanning ℕ
    unfolding after_search find_verified_commit
    settle flen (damaged s) (f, c) = after_search s.good c (find_verified_commit s.good flen f)
    settle flen (clean s) (f, c) =
        if ltb s.good flen
        then after_search s.good c (find_verified_commit s.good flen f)
        else (ok s.good, (f, c))

    -- The end of the last good commit.
    unfoldable pub bjfile_scan_commits : Action Scanning ℕ
    unfolding actions scan_loop settle
    bjfile_scan_commits (f, c) =
        let flen = add64 f.flen (length f.wb) in
        (do v ← scan_loop (flen + 1) flen 0 start_scan; settle flen v) (f, c)
