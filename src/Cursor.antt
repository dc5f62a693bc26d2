-- ===== src/Cursor.antt =====
-- include/bjcursor.h: the read-side cursor. A reader is an action on the cursor, which may fail;
-- what it did to the cursor before failing stays done.
pub mod Bounds
pub mod RoundTrip
use binjson_structures.Shared.{
  ℕ, zero, suc, ◌+◌, ◌-◌, Bool, true, false, not, ◌&&◌, ◌||◌, Option, none, some, List, [], ◌∷◌,
  length, take, drop, get_or, ltb, leb, ◌==◌, if◌then◌else◌,
}
use binjson_structures.Shared.Bytes.{le_word}
use binjson_structures.Shared.Result.{Result, ok, err, eof, state, unknown_type}
use binjson_structures.Shared.State.{Action, ◌>>=◌, ◌>>◌, pure, fail, lift, get, check, actions}
use binjson_structures.Double.{of_int64, is_safe_int, is_negative, to_u64}
use binjson_structures.Wire.{Wire}

-- `len` is the length of `d`.
pub record Cur : Type 0 where
  pub d : List ℕ
  pub pos : ℕ

unfoldable pub rdu32 : List ℕ → ℕ
unfolding le_word
rdu32 p = le_word 4 p

unfoldable pub rdu64 : List ℕ → ℕ
unfolding le_word
rdu64 p = le_word 8 p

unfoldable pub cur_need : ℕ → Action Cur Unit
cur_need n c = if leb n (length c.d - c.pos) then (ok tt, c) else (err eof, c)

unfoldable pub advance : ℕ → Action Cur Unit
advance n c = (ok tt, record c { pos = c.pos + n })

-- The bytes at the cursor, which stays.
unfoldable pub rest : Action Cur (List ℕ)
rest c = (ok (drop c.pos c.d), c)

unfoldable pub take_type : Action Cur ℕ
take_type = do cur_need 1; p ← rest; advance 1; pure (get_or p 0 0)

unfoldable pub take_u32 : Action Cur ℕ
take_u32 = do cur_need 4; p ← rest; advance 4; pure (rdu32 p)

-- The 8 bytes of a scalar behind its type byte.
unfoldable pub take_u64 : Action Cur ℕ
take_u64 = do cur_need 8; p ← rest; advance 8; pure (rdu64 p)

-- `len` bytes, as a span of the record.
unfoldable pub take_span : ℕ → Action Cur (List ℕ)
take_span len = do cur_need len; p ← rest; advance len; pure (take len p)

-- `len == strlen(s) && memcmp(p, s, strlen(s)) == 0`
unfoldable pub name_eq : List ℕ → List ℕ → Bool
name_eq [] [] = true
name_eq [] (y ∷ ys) = false
name_eq (x ∷ xs) [] = false
name_eq (x ∷ xs) (y ∷ ys) = x == y && name_eq xs ys

-- A field's name.
unfoldable pub take_key : Action Cur (List ℕ)
take_key = do len ← take_u32; take_span len

module _ (w : Wire) where
  -- A double, as its pattern.
  unfoldable pub read_number : Action Cur ℕ
  read_number = do
    t ← take_type
    if t == w.type_int
        then (do v ← take_u64; pure (of_int64 v))
        else if t == w.type_float
        then take_u64
        else fail unknown_type

  unfoldable pub read_bool : Action Cur Bool
  read_bool = do
    t ← take_type
    if t == w.type_true
        then pure true
        else if t == w.type_false
        then pure false
        else fail unknown_type

  unfoldable pub read_pointer : Action Cur ℕ
  read_pointer = do t ← take_type; check (t == w.type_pointer) unknown_type; take_u64

  unfoldable pub read_ptr_or_null : Action Cur (Option ℕ)
  read_ptr_or_null = do
    cur_need 1
    p ← rest
    if get_or p 0 0 == w.type_null
        then (do advance 1; pure none)
        else (do v ← read_pointer; pure (some v))

  -- The int64_t milliseconds, as their pattern.
  unfoldable pub read_date : Action Cur ℕ
  read_date = do t ← take_type; check (t == w.type_date) unknown_type; take_u64

  unfoldable pub read_u64 : Action Cur ℕ
  read_u64 = do d ← read_number; check (is_safe_int d && not (is_negative d)) state; pure (to_u64 d)

  unfoldable pub read_int31 : Action Cur ℕ
  read_int31 = do u ← read_u64; check (leb u 0x7fffffff) state; pure u

  unfoldable pub take_string : Action Cur (List ℕ)
  take_string = do
    t ← take_type
    check (t == w.type_string) unknown_type
    len ← take_u32
    take_span len

  -- The count is bounded by the bytes that are left.
  unfoldable pub object_begin : Action Cur ℕ
  object_begin = do
    t ← take_type
    check (t == w.type_object) unknown_type
    size ← take_u32
    count ← take_u32
    cur_need count
    pure count

  unfoldable pub array_begin : Action Cur ℕ
  array_begin = do
    t ← take_type
    check (t == w.type_array) unknown_type
    size ← take_u32
    count ← take_u32
    cur_need count
    pure count

  unfoldable pub skip_value : Action Cur Unit
  skip_value = do c ← get; sz ← lift (w.value_size c.d c.pos); cur_need sz; advance sz

  -- The fields that are left to look at; the result is the field's whole value.
  unfoldable pub find_field : ℕ → List ℕ → Action Cur (Option (List ℕ))
  find_field zero name = pure none
  find_field (suc n) name = do
    key ← take_key
    before ← get
    skip_value
    after ← get
    let value = take (after.pos - before.pos) (drop before.pos before.d)
    let later = find_field n name
    if name_eq key name then pure (some value) else later

  unfoldable pub obj_get_field : List ℕ → List ℕ → Result (Option (List ℕ))
  obj_get_field obj name =
      ((do count ← object_begin; find_field count name) (record { d = obj; pos = 0 })).0

-- A proof that computes with the readers names this on its `unfolding` line.
unfoldable pub readers : Unit {0}
unfolding actions rdu32 rdu64 cur_need advance rest take_type take_u32 take_u64 take_span name_eq
    read_number read_bool read_pointer read_ptr_or_null read_date read_u64 read_int31 take_string
    object_begin array_begin skip_value take_key find_field obj_get_field
readers = tt
