-- ===== src/BjFile/Io.antt =====
-- include/bjio.h: the host's callbacks, which are a parameter of the model. A callback changes the
-- host's own state `Ctx`.
use binjson_structures.Shared.{ℕ, List, Option, none, some}
use binjson_structures.Shared.Result.{Result, Err, state}

-- What `read` returns: the bytes that it read, or a negative count. `none` is a negative count
-- whose low 32 bits are zero.
pub data Read : Type 0 where
  bytes_read : List ℕ → Read
  failed : Option Err → Read

pub record Host : Type 1 where
  pub Ctx : Type 0
  pub size : Ctx → ℕ
  pub read : Ctx → ℕ → ℕ → Read × Ctx
  pub write : Ctx → ℕ → List ℕ → Result (Unit {0}) × Ctx
  -- Optional callbacks.
  pub truncate : Option (Ctx → ℕ → Result (Unit {0}) × Ctx)
  pub sync : Option (Ctx → Result (Unit {0}) × Ctx)

-- The narrowing of a negative count to an error code.
unfoldable pub io_read_err : Option Err → Err
io_read_err none = state
io_read_err (some e) = e
