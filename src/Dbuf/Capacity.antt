-- ===== src/Dbuf/Capacity.antt =====
-- The capacity of a buffer that grows by doubling.
use binjson_structures.Shared.{
  ℕ, zero, suc, ◌+◌, ◌*◌, ◌/◌, Bool, Option, none, some, ltb, leb, ◌==◌, if◌then◌else◌,
}
use binjson_structures.Shared.Result.{Result, ok, err, oom}

-- What the C library and the machine decide: SIZE_MAX, and the sizes that `realloc` serves.
pub record Platform : Type 0 where
  pub size_max : ℕ
  pub can_alloc : ℕ → Bool

module _ (plat : Platform) where
  -- `while (nc < need) { if (nc > SIZE_MAX / 2) return BJ_ERR_OOM; nc *= 2; }` on fuel; `none`
  -- means that the fuel ran out.
  unfoldable pub double_until : ℕ → ℕ → ℕ → Option (Result ℕ)
  double_until zero nc need = none
  double_until (suc fuel) nc need =
      let rest = double_until fuel (nc * 2) need in
      if ltb nc need
      then if ltb (plat.size_max / 2) nc then some (err oom) else rest
      else some (ok nc)

  -- `realloc` at the capacity that the loop found.
  unfoldable pub reallocate : Option (Result ℕ) → Result ℕ
  reallocate none = err oom
  reallocate (some (err e)) = err e
  reallocate (some (ok nc)) = if plat.can_alloc nc then ok nc else err oom

  -- The new capacity. A doubling adds one at least, so `need + 1` rounds are enough.
  unfoldable pub next_capacity : ℕ → ℕ → Result ℕ
  unfolding reallocate
  next_capacity cap need = reallocate (double_until (need + 1) (if cap == 0 then 256 else cap) need)

  -- `grow` of src/bjfile.c on the capacity.
  unfoldable pub grow : ℕ → ℕ → Result ℕ
  grow cap need = if leb need cap then ok cap else next_capacity cap need
