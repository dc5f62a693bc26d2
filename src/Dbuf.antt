-- ===== src/Dbuf.antt =====
-- include/dbuf.h: the growable byte buffer, and the capacity loop that src/bjfile.c's `grow` has
-- too. `malloc` and `realloc` are parameters: which sizes they serve.
pub mod Capacity
pub mod Growth
use binjson_structures.Shared.{ℕ, ◌+◌, ◌-◌, Bool, List, [], ◌++◌, length, ltb, leb, if◌then◌else◌}
use binjson_structures.Shared.Result.{ok, err, oom}
use binjson_structures.Shared.State.{Action, ◌>>=◌, ◌>>◌, pure, fail, lift, get, put, actions}
use Capacity.{Platform, next_capacity}

-- `len` is the length of `bytes`; the storage behind them, up to `cap`, holds nothing.
pub record Dbuf : Type 0 where
  pub bytes : List ℕ
  pub cap : ℕ

abbrev pub empty : Dbuf
empty = record { bytes = []; cap = 0 }

module _ (plat : Platform) where
  unfoldable pub dbuf_ensure : ℕ → Action Dbuf Unit
  unfolding actions
  dbuf_ensure extra b =
      if leb extra (b.cap - length b.bytes)
      then (ok tt, b)
      else if ltb (plat.size_max - length b.bytes) extra
      then (err oom, b)
      else (do
        nc ← lift (next_capacity plat b.cap (length b.bytes + extra))
        put (record b { cap = nc }))
          b

  unfoldable pub dbuf_put : List ℕ → Action Dbuf Unit
  unfolding actions dbuf_ensure
  dbuf_put p = do dbuf_ensure (length p); b ← get; put (record b { bytes = b.bytes ++ p })
