-- ===== src/Wire.antt =====
-- What the sources take from binjson.h and the binjson library, which are not in the repository:
-- the type bytes and `bj_value_size`. They are parameters of the model.
use binjson_structures.Shared.{ℕ, List}
use binjson_structures.Shared.Result.{Result}

pub record Wire : Type 0 where
  pub type_null : ℕ
  pub type_false : ℕ
  pub type_true : ℕ
  pub type_int : ℕ
  pub type_float : ℕ
  pub type_string : ℕ
  pub type_binary : ℕ
  pub type_date : ℕ
  pub type_pointer : ℕ
  pub type_array : ℕ
  pub type_object : ℕ
  -- `bj_value_size (d, len, pos)`: the size of the value that starts at `pos`.
  pub value_size : List ℕ → ℕ → Result ℕ
