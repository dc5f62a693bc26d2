-- ===== src/BjFile/Pending.antt =====
-- Pending appends of src/bjfile.c against the host's file: what an append and a commit leave, where
-- the host's `write` may fail in its midst.
use binjson_structures.Shared.{
  ℕ, ◌+◌, ◌-◌, ◌^◌, ◌≤◌, ◌<◌, ◌≡◌, inl, inr, refl, sym, ap, ◌∙◌, arith, Bool, true, false, List, [],
  ◌++◌, length, length-append, length-take, append-nil, append_assoc, take-append-drop, ltb, ◌==◌,
  if◌then◌else◌, Bool-cases, take, drop,
}
use binjson_structures.Shared.Words.{add64}
use binjson_structures.Shared.Result.{Result, ok, err, Err, Result-cases}
use binjson_structures.Dbuf.Capacity.{Platform, grow}
use binjson_structures.Crc.{crc32_update}
use binjson_structures.BjFile.{File, after_write, bjfile_commit, append_bytes, buffer, u32_max}
use binjson_structures.BjFile.Io.{Host}
use binjson_structures.BjFile.Discard.{
  Settled, length-zero, after_write-Settled, bjfile_commit-Settled, buffer-manual,
}

-- Of what include/bjio.h documents of `write`, "write `len` bytes at `off`, extending the file as
-- needed": where the host keeps a file with these bytes, a successful write puts its bytes at `off`,
-- and no write touches the bytes before `off`. A write that fails may have written any part.
pub record FileHost (h : Host) : Type 0 where
  pub contents : h.Ctx → List ℕ
  pub write_ok :
      (c c' : h.Ctx) (off : ℕ) (b : List ℕ)
      → off ≤ length (contents c)
      → h.write c off b ≡ (ok tt, c')
      → contents c' ≡ take off (contents c) ++ (b ++ drop (off + length b) (contents c))
  pub write_err :
      (c c' : h.Ctx) (off : ℕ) (b : List ℕ) (e : Err)
      → off ≤ length (contents c)
      → h.write c off b ≡ (err e, c')
      → take off (contents c') ≡ take off (contents c)

length-take_le : (n : ℕ) (l : List ℕ) → n ≤ length l → length (take n l) ≡ n
length-take_le n l h = omega (arith, length-take n l)

le-length-take : (n : ℕ) (l : List ℕ) → length (take n l) ≡ n → n ≤ length l
le-length-take n l h = omega (arith, length-take n l)

module _ (h : Host) (plat : Platform) (fh : FileHost h) where
  -- The file's own bytes and the pending ones. What a failed write has left behind the file's own
  -- length does not count.
  abbrev pub image : File h plat → List ℕ
  image f = take f.flen (fh.contents f.ctx) ++ f.wb

  -- The host has the file's own bytes, and lengths stay below 2^64.
  pub record IsValid (f : File h plat) : Type 0 where
    pub flen_lem : f.flen ≤ length (fh.contents f.ctx)
    pub fits : f.flen + length f.wb < 2 ^ 64
    pub crc_fits : f.crc_len < 2 ^ 64

  abbrev pub Stored : List ℕ → h.Ctx → h.Ctx → Type 0
  Stored bytes c c' = fh.contents c' ≡ bytes ++ drop (length bytes) (fh.contents c)

  -- After a commit: all pending bytes are the host's, or none counts and they are still pending.
  abbrev pub Committed : File h plat → Result (Unit {0}) × File h plat → Type 0
  Committed f (ok u, f') =
      Stored (image f) f.ctx f'.ctx
      × (f'.flen ≡ length (image f))
      × Settled h plat f (ok u, f')
      × IsValid f'
  Committed f (err e, f') = (image f' ≡ image f) × Settled h plat f (err e, f') × IsValid f'

  length-image :
      (f : File h plat)
      → IsValid f
      → (length (image f) ≡ f.flen + length f.wb) × (add64 f.flen (length f.wb) ≡ length (image f))
  length-image f v =
      let own = length-take_le f.flen (fh.contents f.ctx) v.flen_lem in
      let all = length-append (take f.flen (fh.contents f.ctx)) f.wb in
      let small = v.fits in (omega arith, omega arith)

  after_write-Committed :
      (f : File h plat) (r : Result (Unit {0}) × h.Ctx)
      → IsValid f
      → h.write f.ctx f.flen f.wb ≡ r
      → Committed f (after_write h plat f r)
  unfolding after_write
  after_write-Committed f (ok u, c) v e =
      let own = fh.contents f.ctx in
      let stored : Stored (image f) f.ctx c =
        fh.write_ok f.ctx c f.flen f.wb v.flen_lem e
        ∙ sym (
            rw (length-image f v).0
              (append_assoc (take f.flen own) f.wb (drop (f.flen + length f.wb) own))) in
      let bytes = length-append (image f) (drop (length (image f)) own) in
      let known = (length-image f v) in
      let small = v.fits in
      (
        stored,
        known.1,
        after_write-Settled h plat f (ok u, c),
        record { flen_lem = rw stored (omega arith); fits = omega arith; crc_fits = v.crc_fits },
      )
  after_write-Committed f (err x, c) v e =
      let kept = fh.write_err f.ctx c f.flen f.wb x v.flen_lem e in
      let own = length-take_le f.flen (fh.contents f.ctx) v.flen_lem in
      (
        ap (λ l. l ++ f.wb) kept,
        refl,
        record {
          flen_lem = le-length-take f.flen (fh.contents c) (ap (λ l. length l) kept ∙ own);
          fits = v.fits;
          crc_fits = v.crc_fits;
        },
      )

  nothing-Committed :
      (f : File h plat)
      → IsValid f
      → f.wb ≡ []
      → Settled h plat f (ok tt, record f { crc_committed = f.crc; crc_len_committed = f.crc_len })
      → Committed f (ok tt, record f { crc_committed = f.crc; crc_len_committed = f.crc_len })
  nothing-Committed f v empty settled =
      let own = length-take_le f.flen (fh.contents f.ctx) v.flen_lem in
      let bytes : image f ≡ take f.flen (fh.contents f.ctx) = rw empty (append-nil _) in
      (
        rw (bytes, own) (sym (take-append-drop f.flen (fh.contents f.ctx))),
        rw bytes (sym own),
        settled,
        record { flen_lem = v.flen_lem; fits = v.fits; crc_fits = v.crc_fits },
      )

  -- With a host whose successful writes put their bytes at the offset and of which no write touches
  -- the bytes before the offset: a commit on a valid file that succeeds puts the file's own bytes and
  -- the pending ones into the host's file, in this order, in place of as many bytes, takes their length
  -- as the file's, and leaves no byte pending, the running CRC and its length as they were and recorded
  -- as committed, nothing for a discard to take back, and a valid file. One that fails changes only the
  -- host's state, and the file's own bytes in it and so the image stay, however much was written; the
  -- file is valid, so that a further commit writes the same bytes to the same place.
  pub bjfile_commit_lem : (f : File h plat) → IsValid f → Committed f (bjfile_commit h plat f)
  unfolding bjfile_commit
  bjfile_commit_lem f v = elim (Bool-cases (length f.wb == 0)) [
    | inl none_pending ↦ rw none_pending (
        nothing-Committed f v (length-zero f.wb none_pending)
          (rw none_pending at (bjfile_commit-Settled h plat f)))
    | inr pending ↦ elim (Bool-cases (ltb u32_max (length f.wb))) [
      | inl large ↦ rw (pending, large) (refl, refl, v)
      | inr small ↦ rw (pending, small) (after_write-Committed f _ v refl)
    ]
  ]

  -- An append of `b` behind the image, where it leaves a valid file; or a refusal that changes
  -- nothing.
  abbrev pub Appended : Bool → List ℕ → File h plat → Result ℕ × File h plat → Type 0
  Appended account b f (ok off, f') =
      (off ≡ length (image f))
      × (image f' ≡ image f ++ b)
      × (f'.crc ≡ (if account then crc32_update f.crc b else f.crc))
      × (f'.ctx ≡ f.ctx)
      × (f'.flen ≡ f.flen)
      × IsValid f'
  Appended account b f (err e, f') = f' ≡ f

  buffered_length :
      (b : List ℕ) (f : File h plat)
      → IsValid f
      → f.flen + length f.wb + length b < 2 ^ 64
      → (add64 f.flen (length f.wb) ≡ length (image f)) × (f.flen + length (f.wb ++ b) < 2 ^ 64)
  buffered_length b f v small =
      let known = length-image f v in let more = length-append f.wb b in (known.1, omega arith)

  buffer-Appended :
      (account : Bool) (b : List ℕ) (nc : ℕ) (f : File h plat)
      → IsValid f
      → f.flen + length f.wb + length b < 2 ^ 64
      → f.crc_len + length b < 2 ^ 64
      → Appended account b f (ok (add64 f.flen (length f.wb)), buffer h plat account b nc f)
  unfolding buffer
  buffer-Appended true b nc f v small room = (
    (buffered_length b f v small).0,
    sym (append_assoc (take f.flen (fh.contents f.ctx)) f.wb b),
    refl,
    refl,
    refl,
    record {
      flen_lem = v.flen_lem;
      fits = (buffered_length b f v small).1;
      crc_fits = omega arith;
    },
  )
  buffer-Appended false b nc f v small room = (
    (buffered_length b f v small).0,
    sym (append_assoc (take f.flen (fh.contents f.ctx)) f.wb b),
    refl,
    refl,
    refl,
    record { flen_lem = v.flen_lem; fits = (buffered_length b f v small).1; crc_fits = v.crc_fits },
  )

  -- An append of `b` to a valid file with no automatic commit, where the lengths stay below 2^64:
  -- if it succeeds, it returns the length before, `b` stands behind all the bytes, the running CRC
  -- has taken `b` in if it was to, the host's state and the file's own length are as they were, and
  -- the file is valid; if it fails, the file is as it was.
  pub append_bytes_lem :
      (account : Bool) (b : List ℕ) (f : File h plat)
      → IsValid f
      → f.autoflush ≡ 0
      → f.flen + length f.wb + length b < 2 ^ 64
      → f.crc_len + length b < 2 ^ 64
      → Appended account b f (append_bytes h plat account b f)
  unfolding append_bytes
  append_bytes_lem account b f v manual small room =
      elim (Bool-cases (ltb (plat.size_max - length f.wb) (length b))) [
        | inl full ↦ rw full refl
        | inr some_room ↦ elim (Result-cases (grow plat f.wb_cap (length f.wb + length b))) [
          | inl (nc, e) ↦
              let unflushed : ((buffer h plat account b nc f).autoflush == 0) ≡ true =
                buffer-manual h plat account b nc f manual in
              rw (some_room, e, unflushed) (buffer-Appended account b nc f v small room)
          | inr (x, e) ↦ rw (some_room, e) refl
        ]
      ]
