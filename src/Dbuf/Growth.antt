-- ===== src/Dbuf/Growth.antt =====
-- The buffer of include/dbuf.h keeps what it holds, and grows whenever memory allows.
use binjson_structures.Shared.{
  ℕ, zero, suc, ◌+◌, ◌-◌, ◌*◌, ◌/◌, ◌≤◌, ◌<◌, ◌≡◌, inl, inr, refl, arith, true, false, some, ltb,
  leb, ◌==◌, if◌then◌else◌, List, ◌++◌, length, length-append, Bool-cases, leb→le,
}
use binjson_structures.Shared.Result.{Result, ok, err, oom, Result-cases}
use binjson_structures.Dbuf.Capacity.{Platform, double_until, next_capacity, reallocate}
use binjson_structures.Dbuf.{Dbuf, dbuf_ensure, dbuf_put}

-- A capacity that is enough and within SIZE_MAX, or a request above half of SIZE_MAX refused.
abbrev pub Grown : ℕ → ℕ → Result ℕ → Type 0
Grown size_max need (ok nc) = (need ≤ nc) × (nc ≤ size_max)
Grown size_max need (err e) = (e ≡ oom) × (size_max / 2 < need)

module _ (plat : Platform) where
  -- The loop ends within its fuel.
  double_until_lem :
      (fuel nc need : ℕ)
      → 0 < nc
      → nc ≤ plat.size_max
      → 0 < fuel
      → need < nc + fuel
      → (r : Result ℕ) × (double_until plat fuel nc need ≡ some r) × Grown plat.size_max need r
  unfolding double_until
  double_until_lem zero nc need h fits f k = absurd (omega arith)
  double_until_lem (suc fuel) nc need h fits f k = elim (Bool-cases (ltb nc need)) [
    | inl short ↦ elim (Bool-cases (ltb (plat.size_max / 2) nc)) [
      | inl full ↦ (err oom, rw (short, full), (refl, ground arith))
      | inr room ↦
          rw (short, room)
            (double_until_lem fuel (nc * 2) need (omega arith) (ground arith) (ground arith)
              (ground arith))
    ]
    | inr done ↦ (ok nc, rw done, (ground arith, fits))
  ]

  first_capacity :
      (cap : ℕ)
      → 256 ≤ plat.size_max
      → cap ≤ plat.size_max
      → (0 < (if cap == 0 then 256 else cap)) × ((if cap == 0 then 256 else cap) ≤ plat.size_max)
  first_capacity cap h k = ground arith

  -- `realloc` may also refuse the capacity that the loop found.
  abbrev Served : ℕ → Result ℕ → Type 0
  Served need (ok nc) = (need ≤ nc) × (nc ≤ plat.size_max)
  Served need (err e) = e ≡ oom

  reallocate_lem :
      (need : ℕ) (r : Result ℕ)
      → Grown plat.size_max need r
      → Served need (reallocate plat (some r))
  unfolding reallocate
  reallocate_lem need (err e) (h, _) = h
  reallocate_lem need (ok nc) h = elim (Bool-cases (plat.can_alloc nc)) [
    | inl yes_alloc ↦ rw yes_alloc h
    | inr no_alloc ↦ rw no_alloc refl
  ]

  pub next_capacity_lem :
      (size need : ℕ)
      → 256 ≤ plat.size_max
      → size ≤ plat.size_max
      → Served need (next_capacity plat size need)
  unfolding next_capacity
  next_capacity_lem size need h k =
      let first : ℕ = if size == 0 then 256 else size in
      let (pos, fits) = first_capacity size h k in
      let (r, e, grown) =
        double_until_lem (need + 1) first need pos fits (omega arith) (omega arith) in
      rw e (reallocate_lem need r grown)

  reallocate_served :
      (need : ℕ) (r : Result ℕ)
      → ((n : ℕ) → plat.can_alloc n ≡ true)
      → need ≤ plat.size_max / 2
      → Grown plat.size_max need r
      → (nc : ℕ) × (reallocate plat (some r) ≡ ok nc) × (need ≤ nc) × (nc ≤ plat.size_max)
  unfolding reallocate
  reallocate_served need (err e) serves small (_, big) = absurd (omega arith)
  reallocate_served need (ok nc) serves small (lo, hi) = (nc, rw (serves nc), lo, hi)

  -- With an allocator that serves every size, a request up to half of SIZE_MAX is met.
  pub next_capacity_served :
      (size need : ℕ)
      → 256 ≤ plat.size_max
      → size ≤ plat.size_max
      → ((n : ℕ) → plat.can_alloc n ≡ true)
      → need ≤ plat.size_max / 2
      → (nc : ℕ) × (next_capacity plat size need ≡ ok nc) × (need ≤ nc) × (nc ≤ plat.size_max)
  unfolding next_capacity
  next_capacity_served size need h k serves small =
      let first : ℕ = if size == 0 then 256 else size in
      let (pos, fits) = first_capacity size h k in
      let (r, e, grown) =
        double_until_lem (need + 1) first need pos fits (omega arith) (omega arith) in
      rw e (reallocate_served need r serves small grown)

-- The length never passes the capacity, nor this SIZE_MAX.
pub record IsValid (plat : Platform) (b : Dbuf) : Type 0 where
  pub room : length b.bytes ≤ b.cap
  pub bounded : b.cap ≤ plat.size_max

module _ (plat : Platform) (wide : 256 ≤ plat.size_max) where
  -- What a put leaves: all the bytes behind the old ones, or the buffer as it was.
  abbrev pub Put : List ℕ → Dbuf → Result (Unit {0}) × Dbuf → Type 0
  Put p b (ok u, b') = (b'.bytes ≡ b.bytes ++ p) × IsValid plat b'
  Put p b (err e, b') = (e ≡ oom) × (b' ≡ b)

  -- Where SIZE_MAX is 256 at least, `dbuf_put` on a valid buffer either appends all of `p` and leaves a valid buffer, or reports
  -- `oom` and changes nothing.
  pub dbuf_put_lem : (p : List ℕ) (b : Dbuf) → IsValid plat b → Put p b (dbuf_put plat p b)
  unfolding dbuf_put dbuf_ensure
  dbuf_put_lem p b v = elim (Bool-cases (leb (length p) (b.cap - length b.bytes))) [
    | inl roomy ↦ rw roomy (refl, record { room = fits p b v roomy; bounded = v.bounded })
    | inr tight ↦ elim (Bool-cases (ltb (plat.size_max - length b.bytes) (length p))) [
      | inl huge ↦ rw (tight, huge) (refl, refl)
      | inr small ↦ elim (Result-cases (next_capacity plat b.cap (length b.bytes + length p))) [
        | inl (nc, e) ↦
            let served : (length b.bytes + length p ≤ nc) × (nc ≤ plat.size_max) =
              rw e at (grown p b v) in
            rw (tight, small, e)
              (refl, record { room = omega (arith, length-append b.bytes p); bounded = served.1 })
        | inr (c, e) ↦
            let refused : c ≡ oom = rw e at (grown p b v) in rw (tight, small, e) (refused, refl)
      ]
    ]
  ]
    where
      fits :
          (p : List ℕ) (b : Dbuf)
          → IsValid plat b
          → leb (length p) (b.cap - length b.bytes) ≡ true
          → length (b.bytes ++ p) ≤ b.cap
      fits p b v h = omega (arith, length-append b.bytes p, leb→le _ _ h, v.room)

      grown :
          (p : List ℕ) (b : Dbuf)
          → IsValid plat b
          → Served plat
              (length b.bytes + length p)
              (next_capacity plat b.cap (length b.bytes + length p))
      grown p b v = next_capacity_lem plat b.cap (length b.bytes + length p) wide v.bounded

  -- With an allocator that serves every size, a put on a valid buffer that leaves at most half of
  -- SIZE_MAX in it succeeds.
  pub dbuf_put_succeeds :
      (p : List ℕ) (b : Dbuf)
      → IsValid plat b
      → ((n : ℕ) → plat.can_alloc n ≡ true)
      → length b.bytes + length p ≤ plat.size_max / 2
      → (b' : Dbuf) × (dbuf_put plat p b ≡ (ok tt, b'))
  unfolding dbuf_put dbuf_ensure
  dbuf_put_succeeds p b v serves small =
      elim (Bool-cases (leb (length p) (b.cap - length b.bytes))) [
        | inl roomy ↦ (record b { bytes = b.bytes ++ p }, rw roomy)
        | inr tight ↦
            let possible : ltb (plat.size_max - length b.bytes) (length p) ≡ false = ground arith in
            let (nc, e, _, _) =
              next_capacity_served plat b.cap (length b.bytes + length p) wide v.bounded serves
                small in
            (record { bytes = b.bytes ++ p; cap = nc }, rw (tight, possible, e))
      ]
