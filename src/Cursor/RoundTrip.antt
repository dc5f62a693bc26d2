-- ===== src/Cursor/RoundTrip.antt =====
-- The readers of include/bjcursor.h on the bytes that the wire format gives a value.
use binjson_structures.Shared.{
  ℕ, suc, ◌+◌, ◌-◌, ◌^◌, ◌≤◌, ◌<◌, ◌≡◌, refl, arith, true, List, [], ◌∷◌, ◌++◌, length,
  length-append, drop, leb, le→leb, ==-refl,
}
use binjson_structures.Shared.Bytes.{le_bytes, length-le_bytes, le_word-le_bytes}
use binjson_structures.Shared.Result.{ok}
use binjson_structures.Shared.State.{actions}
use binjson_structures.Double.{of_int64}
use binjson_structures.Double.Convert.{of_int64-Holds}
use binjson_structures.Wire.{Wire}
use binjson_structures.Cursor.{Cur, readers, take_u64, read_number, read_u64, take_type}

drop-append : (xs ys : List ℕ) → drop (length xs) (xs ++ ys) ≡ ys
drop-append [] ys = refl
drop-append (x ∷ xs) ys = drop-append xs ys

drop-suc : (xs : List ℕ) (y : ℕ) (ys : List ℕ) → drop (length xs + 1) (xs ++ (y ∷ ys)) ≡ ys
drop-suc [] y ys = refl
drop-suc (x ∷ xs) y ys = rw step (drop-suc xs y ys)
  where
    step : suc (length xs) + 1 ≡ suc (length xs + 1)
    step = omega arith

-- What a reader sees at the cursor: `v`, then more.
record At (v more : List ℕ) (c : Cur) : Type 0 where
  left : drop c.pos c.d ≡ v ++ more
  total : c.pos + length v ≤ length c.d

enough : {v more : List ℕ} {c : Cur} → At v more c → leb (length v) (length c.d - c.pos) ≡ true
enough a = (let t = a.total in le→leb _ _ (omega arith))

take_type_lem :
    (b : ℕ) (more : List ℕ) (c : Cur)
    → At (b ∷ []) more c
    → take_type c ≡ (ok b, record c { pos = c.pos + 1 })
unfolding readers
take_type_lem b more c a = rw (enough a, a.left)

take_u64_lem :
    (v : ℕ) (more : List ℕ) (c : Cur)
    → v < 2 ^ 64
    → At (le_bytes 8 v) more c
    → take_u64 c ≡ (ok v, record c { pos = c.pos + 8 })
unfolding readers
take_u64_lem v more c h a =
    let room : leb 8 (length c.d - c.pos) ≡ true = rw (length-le_bytes 8 v) at (enough a) in
    rw (room, a.left, le_word-le_bytes 8 v more h)

module _ (w : Wire) where
  read_number_int :
      (v : ℕ) (c c' : Cur)
      → take_type c ≡ (ok w.type_int, c')
      → (more : List ℕ) → v < 2 ^ 64
      → At (le_bytes 8 v) more c'
      → read_number w c ≡ (ok (of_int64 v), record c' { pos = c'.pos + 8 })
  unfolding read_number actions
  read_number_int v c c' e more h a = rw (e, ==-refl w.type_int, take_u64_lem v more c' h a)

  -- An integer of the wire format below 2^53 reads back as itself, wherever it stands in a record, and
  -- leaves the cursor behind it.
  pub read_u64-int :
      (v : ℕ) (front back : List ℕ)
      → v < 2 ^ 53
      → read_u64 w
          (record { d = front ++ (w.type_int ∷ (le_bytes 8 v ++ back)); pos = length front })
        ≡ (
          ok v,
          record { d = front ++ (w.type_int ∷ (le_bytes 8 v ++ back)); pos = length front + 1 + 8 },
        )
  unfolding read_u64 actions
  read_u64-int v front back h =
      let d : List ℕ = front ++ (w.type_int ∷ (le_bytes 8 v ++ back)) in
      let c : Cur = record { d = d; pos = length front } in
      let c' : Cur = record { d = d; pos = length front + 1 } in
      let (safe, plus, value) = of_int64-Holds v h in
      rw (
        read_number_int v c c'
            (take_type_lem w.type_int (le_bytes 8 v ++ back) c (first v front back)) back
            (omega arith) (second v front back),
        safe,
        plus,
        value,
      )
    where
      sizes :
          (v : ℕ) (front back : List ℕ)
          → length (front ++ (w.type_int ∷ (le_bytes 8 v ++ back))) ≡ length front + 9 + length back
      sizes v front back = omega (
        arith,
        length-append front (w.type_int ∷ (le_bytes 8 v ++ back)),
        length-append (le_bytes 8 v) back,
        length-le_bytes 8 v,
      )

      first :
          (v : ℕ) (front back : List ℕ)
          → At
              (w.type_int ∷ [])
              (le_bytes 8 v ++ back)
              (record { d = front ++ (w.type_int ∷ (le_bytes 8 v ++ back)); pos = length front })
      first v front back = record {
        left = drop-append front _;
        total = omega (arith, sizes v front back);
      }

      second :
          (v : ℕ) (front back : List ℕ)
          → At (le_bytes 8 v) back (record {
            d = front ++ (w.type_int ∷ (le_bytes 8 v ++ back));
            pos = length front + 1;
          })
      second v front back = record {
        left = drop-suc front w.type_int (le_bytes 8 v ++ back);
        total = omega (arith, sizes v front back, length-le_bytes 8 v);
      }
