-- ===== src/BjFile/Sync.antt =====
-- bjfile_sync of src/bjfile.c on all its branches, against the host's file.
use binjson_structures.Shared.{◌≡◌, ◌⊎◌, inl, inr, refl, ap, Option, none, some, length}
use binjson_structures.Shared.Result.{Result, ok, err}
use binjson_structures.Shared.State.{bind_result, actions}
use binjson_structures.Dbuf.Capacity.{Platform}
use binjson_structures.BjFile.{File, bjfile_commit, bjfile_sync, bjfile_discard, host_sync, on_host}
use binjson_structures.BjFile.Io.{Host}
use binjson_structures.BjFile.Discard.{Settled}
use binjson_structures.BjFile.Pending.{
  FileHost, IsValid, image, Stored, Committed, bjfile_commit_lem,
}

module _ (h : Host) (plat : Platform) (fh : FileHost h) where
  -- What the host's `sync` gives, or success where there is none.
  abbrev pub answer : Option (h.Ctx → Result (Unit {0}) × h.Ctx) → h.Ctx → Result (Unit {0}) × h.Ctx
  answer none c = (ok tt, c)
  answer (some call) c = call c

  -- All bytes were in the host's file when the host's `sync` was called, which gave `r`; nothing is
  -- pending, and a discard takes nothing back.
  abbrev pub Handed : File h plat → Result (Unit {0}) → File h plat → Type 0
  Handed f r f' =
      (c : h.Ctx) × Stored h plat fh (image h plat fh f) f.ctx c
      × (answer h.sync c ≡ (r, f'.ctx))
      × (f'.flen ≡ length (image h plat fh f))
      × Settled h plat f (ok tt, f')

  abbrev pub Synced : File h plat → Result (Unit {0}) × File h plat → Type 0
  Synced f (ok u, f') = Handed f (ok u) f'
  Synced f (err e, f') = Committed h plat fh f (err e, f') ⊎ Handed f (err e) f'

  handed-Settled :
      (f f' : File h plat) (c : h.Ctx)
      → Settled h plat f (ok tt, f')
      → Settled h plat f (ok tt, record f' { ctx = c })
  unfolding bjfile_discard
  handed-Settled f f' c (back, none_pending, crc, at, len) =
      (ap (λ (g : File h plat). record g { ctx = c }) back, none_pending, crc, at, len)

  handed :
      (f f' : File h plat) (r : Result (Unit {0}) × h.Ctx)
      → Committed h plat fh f (ok tt, f')
      → answer h.sync f'.ctx ≡ r
      → Handed f r.0 (record f' { ctx = r.1 })
  handed f f' r done e = (f'.ctx, done.0, e, done.1, handed-Settled f f' r.1 done.2)

  Handed-Synced : (f f' : File h plat) (r : Result (Unit {0})) → Handed f r f' → Synced f (r, f')
  Handed-Synced f f' (ok u) h = h
  Handed-Synced f f' (err e) h = inr h

  host_sync-Synced :
      (o : Option (h.Ctx → Result (Unit {0}) × h.Ctx)) (f f' : File h plat)
      → h.sync ≡ o
      → Committed h plat fh f (ok tt, f')
      → Synced f (host_sync h plat o f')
  unfolding host_sync on_host
  host_sync-Synced none f f' e done = handed f f' (ok tt, f'.ctx) done (rw e refl)
  host_sync-Synced (some call) f f' e done =
      let r = call f'.ctx in
      Handed-Synced f (record f' { ctx = r.1 }) r.0 (handed f f' r done (rw e refl))

  commit_and_sync :
      (f : File h plat) (r : Result (Unit {0}) × File h plat)
      → Committed h plat fh f r
      → Synced f (bind_result r (λ u. host_sync h plat h.sync))
  commit_and_sync f (ok u, f') done = host_sync-Synced h.sync f f' refl done
  commit_and_sync f (err e, f') failed = inl failed

  -- With a host whose successful writes put their bytes at the offset and of which no write touches
  -- the bytes before the offset: a sync of a valid file that succeeds has put the file's own bytes and
  -- the pending ones into the host's file before the host's `sync`, if there is one, was called and
  -- succeeded. One that fails did so in the commit, which leaves what a failed commit leaves, or in the
  -- host's `sync`: then all bytes were in the host's file when it was called, although the call reports
  -- an error, and neither is any byte pending nor does a discard take anything back, as after a
  -- success.
  pub bjfile_sync_lem : (f : File h plat) → IsValid h plat fh f → Synced f (bjfile_sync h plat f)
  unfolding bjfile_sync actions
  bjfile_sync_lem f v = commit_and_sync f (bjfile_commit h plat f) (bjfile_commit_lem h plat fh f v)
