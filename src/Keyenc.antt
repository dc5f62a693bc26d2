-- ===== src/Keyenc.antt =====
-- src/keyenc.c: order-preserving keys. A part is appended to a buffer (include/dbuf.h), and a part
-- that fails may have appended its tag before.
pub mod Order
pub mod Parts
use binjson_structures.Shared.{
  ℕ, zero, suc, ◌+◌, ◌/◌, ◌%◌, ◌^◌, Bool, true, false, ◌||◌, List, [], ◌∷◌, ◌++◌, map, length, drop,
  get_or, ltb, ◌==◌, if◌then◌else◌,
}
use binjson_structures.Shared.Bits.{bit_xor}
use binjson_structures.Shared.Bytes.{be_bytes}
use binjson_structures.Shared.Result.{Result, ok, err, eof, state}
use binjson_structures.Shared.State.{Action, ◌>>=◌, ◌>>◌, fail, lift, check, actions}
use binjson_structures.Dbuf.{Dbuf, dbuf_put}
use binjson_structures.Dbuf.Capacity.{Platform}
use binjson_structures.Double.{is_nan, is_zero}
use binjson_structures.Wire.{Wire}
use binjson_structures.Cursor.{Cur, read_number, take_string, rdu64, readers}

-- The first byte of a scalar's big-endian bytes tells its sign: flip that bit of a non-negative
-- number, and all bits of a negative one.
unfoldable pub total_order : List ℕ → List ℕ
total_order [] = []
total_order (b ∷ bs) =
    if ltb b 0x80 then bit_xor b 0x80 ∷ bs else map (λ x. bit_xor x 0xff) (b ∷ bs)

unfoldable pub number_enc : ℕ → List ℕ
unfolding total_order be_bytes
number_enc v = let bits = if is_zero v then 0 else v in 0x00 ∷ total_order (be_bytes 8 bits)

unfoldable pub flip_sign : List ℕ → List ℕ
flip_sign [] = []
flip_sign (b ∷ bs) = bit_xor b 0x80 ∷ bs

unfoldable pub date_enc : ℕ → List ℕ
unfolding flip_sign be_bytes
date_enc millis = 0x03 ∷ flip_sign (be_bytes 8 millis)

unfoldable pub has_nul : List ℕ → Bool
has_nul [] = false
has_nul (b ∷ bs) = b == 0 || has_nul bs

module _ (plat : Platform) where
  -- A double is its pattern.
  unfoldable pub qk_put_number : ℕ → Action Dbuf Unit
  qk_put_number v = if is_nan v then fail state else dbuf_put plat (number_enc v)

  unfoldable pub qk_put_string : List ℕ → Action Dbuf Unit
  qk_put_string utf8 =
      if has_nul utf8
      then fail state
      else do dbuf_put plat (0x01 ∷ []); dbuf_put plat utf8; dbuf_put plat (0x00 ∷ [])

  -- An int64_t is its pattern.
  unfoldable pub qk_put_date : ℕ → Action Dbuf Unit
  qk_put_date millis = dbuf_put plat (date_enc millis)

  unfoldable pub qk_put_id : List ℕ → Action Dbuf Unit
  qk_put_id id = do dbuf_put plat (0x02 ∷ []); dbuf_put plat id

  unfoldable pub qk_put_upper_bound : Action Dbuf Unit
  qk_put_upper_bound = dbuf_put plat (0xff ∷ [])

  module _ (w : Wire) where
    unfoldable pub qk_put_value : List ℕ → Action Dbuf Unit
    qk_put_value [] = fail eof
    qk_put_value (type ∷ payload) =
        let value = type ∷ payload in
        let start : Cur = record { d = value; pos = 0 } in
        if type == w.type_int || type == w.type_float
        then (do d ← lift (read_number w start).0; qk_put_number d)
        else if type == w.type_date
        then if length value == 9 then qk_put_date (rdu64 payload) else fail state
        else if type == w.type_string
        then (do s ← lift (take_string w start).0; qk_put_string s)
        else fail state
