-- ===== src/BjFile/Discard.antt =====
-- A discard in src/bjfile.c against the commit that it goes back to.
use binjson_structures.Shared.{
  ℕ, ◌+◌, ◌-◌, ◌≡◌, inl, inr, refl, sym, ap, ◌∙◌, arith, Bool, true, false, List, [], ◌∷◌, length,
  ltb, ◌==◌, Bool-cases,
}
use binjson_structures.Shared.Result.{Result, ok, err, Result-cases}
use binjson_structures.Dbuf.Capacity.{Platform, grow}
use binjson_structures.BjFile.{
  File, after_write, bjfile_commit, bjfile_discard, append_bytes, buffer, u32_max,
}
use binjson_structures.BjFile.Io.{Host}

pub length-zero : (l : List ℕ) → (length l == 0) ≡ true → l ≡ []
length-zero [] e = refl
length-zero (x ∷ l) e = absurd (ground arith)

module _ (h : Host) (plat : Platform) where
  -- After a commit: nothing is left for a discard to take back, or only the host's state differs.
  abbrev pub Settled : File h plat → Result (Unit {0}) × File h plat → Type 0
  Settled f (ok u, f') =
      (bjfile_discard h plat f' ≡ f')
      × (f'.wb ≡ [])
      × (f'.crc ≡ f.crc)
      × (f'.crc_committed ≡ f.crc)
      × (f'.crc_len_committed ≡ f.crc_len)
  Settled f (err e, f') = f' ≡ record f { ctx = f'.ctx }

  pub after_write-Settled :
      (f : File h plat) (r : Result (Unit {0}) × h.Ctx) → Settled f (after_write h plat f r)
  unfolding after_write bjfile_discard
  after_write-Settled f (ok u, c) = (refl, refl, refl, refl, refl)
  after_write-Settled f (err e, c) = refl

  pub bjfile_commit-Settled : (f : File h plat) → Settled f (bjfile_commit h plat f)
  unfolding bjfile_commit bjfile_discard
  bjfile_commit-Settled f = elim (Bool-cases (length f.wb == 0)) [
    | inl none_pending ↦
        let empty = length-zero f.wb none_pending in
        let settled : File h plat = record f {
          crc_committed = f.crc;
          crc_len_committed = f.crc_len;
        } in
        rw none_pending (sym (ap (λ w. record settled { wb = w }) empty), empty, refl, refl, refl)
    | inr pending ↦ elim (Bool-cases (ltb u32_max (length f.wb))) [
      | inl large ↦ rw (pending, large) refl
      | inr small ↦ rw (pending, small) (after_write-Settled f _)
    ]
  ]

  -- Appends one after the other, whether they succeed or not; the Boolean says whether the bytes count
  -- for the CRC.
  abbrev pub append_all : List (Bool × List ℕ) → File h plat → File h plat
  append_all [] f = f
  append_all ((account, b) ∷ more) f = append_all more (append_bytes h plat account b f).1

  pub buffer-manual :
      (account : Bool) (b : List ℕ) (nc : ℕ) (f : File h plat)
      → f.autoflush ≡ 0
      → ((buffer h plat account b nc f).autoflush == 0) ≡ true
  unfolding buffer
  buffer-manual true b nc f manual = ground arith
  buffer-manual false b nc f manual = ground arith

  -- A discard gives the same file from both, the buffer's capacity apart, and neither commits by
  -- itself.
  abbrev SameBase : File h plat → File h plat → Type 0
  SameBase f g =
      (record (bjfile_discard h plat g) { wb_cap = 0 }
        ≡ record (bjfile_discard h plat f) { wb_cap = 0 })
      × (g.autoflush ≡ 0)

  buffer-SameBase :
      (account : Bool) (b : List ℕ) (nc : ℕ) (f : File h plat)
      → f.autoflush ≡ 0
      → SameBase f (buffer h plat account b nc f)
  unfolding buffer bjfile_discard
  buffer-SameBase true b nc f manual = (refl, manual)
  buffer-SameBase false b nc f manual = (refl, manual)

  append_bytes-SameBase :
      (account : Bool) (b : List ℕ) (f : File h plat)
      → f.autoflush ≡ 0
      → SameBase f (append_bytes h plat account b f).1
  unfolding append_bytes
  append_bytes-SameBase account b f manual =
      elim (Bool-cases (ltb (plat.size_max - length f.wb) (length b))) [
        | inl full ↦ rw full (refl, manual)
        | inr some_room ↦ elim (Result-cases (grow plat f.wb_cap (length f.wb + length b))) [
          | inl (nc, e) ↦
              let unflushed : ((buffer h plat account b nc f).autoflush == 0) ≡ true =
                buffer-manual account b nc f manual in
              rw (some_room, e, unflushed) (buffer-SameBase account b nc f manual)
          | inr (x, e) ↦ rw (some_room, e) (refl, manual)
        ]
      ]

  append_all-SameBase :
      (bs : List (Bool × List ℕ)) (f : File h plat) → f.autoflush ≡ 0 → SameBase f (append_all bs f)
  append_all-SameBase [] f manual = (refl, manual)
  append_all-SameBase ((account, b) ∷ more) f manual =
      let first = append_bytes-SameBase account b f manual in
      let rest = append_all-SameBase more (append_bytes h plat account b f).1 first.1 in
      (rest.0 ∙ first.0, rest.1)

  -- After a commit that succeeds, on a file with no automatic commit: any number of appends, failing
  -- or not, and then a discard give the file as the commit left it, but for the buffer's capacity.
  pub bjfile_discard-append :
      (bs : List (Bool × List ℕ)) (f f' : File h plat)
      → bjfile_commit h plat f ≡ (ok tt, f')
      → f'.autoflush ≡ 0
      → record (bjfile_discard h plat (append_all bs f')) { wb_cap = 0 } ≡ record f' { wb_cap = 0 }
  bjfile_discard-append bs f f' done manual =
      (append_all-SameBase bs f' manual).0
      ∙ ap (λ (g : File h plat). record g { wb_cap = 0 }) (rw done at (bjfile_commit-Settled f)).0
