-- ===== src/Tests/Keys.antt =====
-- Keys and buffers at concrete inputs.
use binjson_structures.Shared.{ℕ, ◌-◌, ◌^◌, ◌≡◌, refl, arith, inr, [], ◌∷◌, ◌++◌}
use binjson_structures.Shared.Bytes.{LexLt, le_bytes}
use binjson_structures.Shared.Result.{ok}
use binjson_structures.Shared.State.{actions}
use binjson_structures.Dbuf.{Dbuf, dbuf_put}
use binjson_structures.Dbuf.Growth.{IsValid, Put, dbuf_put_lem, dbuf_put_succeeds}
use binjson_structures.Cursor.{Cur, read_u64, find_field}
use binjson_structures.Cursor.Bounds.{Stays, find_field_inside}
use binjson_structures.Cursor.RoundTrip.{read_u64-int}
use binjson_structures.Keyenc.{
  number_enc, date_enc, has_nul, qk_put_number, qk_put_string, qk_put_date,
}
use binjson_structures.Keyenc.Parts.{qk_put_number-order, qk_put_date-order, qk_put_string-order}
use binjson_structures.Tests.Host.{plat, wire}

abbrev room : Dbuf
room = record { bytes = []; cap = 256 }

room-IsValid : IsValid plat room
room-IsValid = record { room = omega arith; bounded = omega arith }

dbuf_put_lem_example : Put plat (omega arith) (1 ∷ []) room (dbuf_put plat (1 ∷ []) room)
dbuf_put_lem_example = dbuf_put_lem plat (omega arith) (1 ∷ []) room room-IsValid

dbuf_put_succeeds_example : (b' : Dbuf) × (dbuf_put plat (1 ∷ []) room ≡ (ok tt, b'))
dbuf_put_succeeds_example =
    dbuf_put_succeeds plat (omega arith) (1 ∷ []) room room-IsValid (λ n. refl) (omega arith)

-- -1 sorts before 2.
abbrev minus_one : ℕ
minus_one = 0xBFF0000000000000

abbrev two : ℕ
two = 0x4000000000000000

qk_put_number-order_example : LexLt (number_enc minus_one ++ (5 ∷ [])) (number_enc two ++ [])
qk_put_number-order_example =
    qk_put_number-order plat (omega arith) minus_one two room room
      (record room { bytes = number_enc minus_one }) (record room { bytes = number_enc two })
      (5 ∷ []) [] room-IsValid room-IsValid refl (omega arith) (omega arith) tt
      (unfold qk_put_number dbuf_put number_enc actions in refl)
      (unfold qk_put_number dbuf_put number_enc actions in refl)

-- The milliseconds -1 and 2.
qk_put_date-order_example : LexLt (date_enc (2 ^ 64 - 1) ++ []) (date_enc 2 ++ [])
qk_put_date-order_example =
    qk_put_date-order plat (omega arith) (2 ^ 64 - 1) 2 room room
      (record room { bytes = date_enc (2 ^ 64 - 1) }) (record room { bytes = date_enc 2 }) [] []
      room-IsValid room-IsValid refl (omega arith) (omega arith) tt
      (unfold qk_put_date dbuf_put date_enc actions in refl)
      (unfold qk_put_date dbuf_put date_enc actions in refl)

-- "a" and "ab"
qk_put_string-order_example : LexLt (0x01 ∷ 0x61 ∷ 0x00 ∷ 7 ∷ []) (0x01 ∷ 0x61 ∷ 0x62 ∷ 0x00 ∷ [])
qk_put_string-order_example =
    qk_put_string-order plat (omega arith) (0x61 ∷ []) (0x61 ∷ 0x62 ∷ []) room room
      (record room { bytes = 0x01 ∷ 0x61 ∷ 0x00 ∷ [] })
      (record room { bytes = 0x01 ∷ 0x61 ∷ 0x62 ∷ 0x00 ∷ [] }) (7 ∷ []) [] room-IsValid room-IsValid
      refl (inr (refl, tt)) (unfold qk_put_string dbuf_put has_nul actions in refl)
      (unfold qk_put_string dbuf_put has_nul actions in refl)

read_u64-int_example :
    read_u64 wire (record { d = 3 ∷ (le_bytes 8 5 ++ (9 ∷ [])); pos = 0 })
    ≡ (ok 5, record { d = 3 ∷ (le_bytes 8 5 ++ (9 ∷ [])); pos = 9 })
read_u64-int_example = read_u64-int wire 5 [] (9 ∷ []) (omega arith)

abbrev here : Cur
here = record { d = 1 ∷ 0 ∷ 0 ∷ 0 ∷ 0x61 ∷ 2 ∷ 0 ∷ []; pos = 0 }

find_field_inside_example : Stays here (find_field wire 1 (0x61 ∷ []) here).1
find_field_inside_example = find_field_inside wire 1 (0x61 ∷ []) here (omega arith)
