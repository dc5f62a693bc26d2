-- ===== src/Cursor/Bounds.antt =====
-- No reader of include/bjcursor.h moves the cursor back or past the end of its record, whether it
-- succeeds or fails.
use binjson_structures.Shared.{
  ℕ, zero, suc, ◌-◌, ◌≤◌, ◌≡◌, refl, ◌∙◌, arith, Bool, true, false, List, length, leb, ◌==◌,
  if◌then◌else◌, Bool-cases, leb→le, take, drop, some, get_or, inl, inr,
}
use binjson_structures.Shared.Result.{Result, ok, err, Err}
use binjson_structures.Shared.State.{
  Action, ◌>>=◌, ◌>>◌, pure, fail, lift, get, check, bind_result, actions,
}
use binjson_structures.Wire.{Wire}
use binjson_structures.Cursor.{
  Cur, cur_need, advance, rest, take_type, take_u32, take_u64, take_span, read_number, read_bool,
  read_pointer, read_ptr_or_null, read_date, read_u64, read_int31, take_string, object_begin,
  array_begin, skip_value, take_key, find_field, name_eq, rdu32, rdu64,
}

pub record Stays (c c' : Cur) : Type 0 where
  pub same : c'.d ≡ c.d
  pub forward : c.pos ≤ c'.pos
  pub inside : c'.pos ≤ length c'.d

Stays-refl : (c : Cur) → c.pos ≤ length c.d → Stays c c
Stays-refl c h = record { same = refl; forward = omega arith; inside = h }

Stays-trans : {a b c : Cur} → Stays a b → Stays b c → Stays a c
Stays-trans f g = record { same = g.same ∙ f.same; forward = omega arith; inside = g.inside }

-- From every position inside the record.
pub record Bounded {A : Type 0} (m : Action Cur A) : Type 0 where
  pub at : (c : Cur) → c.pos ≤ length c.d → Stays c (m c).1

bind-after :
    {A B : Type 0} (c : Cur) (r : Result A × Cur) (k : A → Action Cur B)
    → Stays c r.1
    → ((a : A) → Bounded (k a))
    → Stays c (bind_result r k).1
bind-after c (ok a, c') k s f = Stays-trans s ((f a).at c' s.inside)
bind-after c (err e, c') k s f = s

Bounded-bind :
    {A B : Type 0} {m : Action Cur A} {k : A → Action Cur B}
    → Bounded m
    → ((a : A) → Bounded (k a))
    → Bounded (m >>= k)
unfolding ◌>>=◌
Bounded-bind {m} {k} h f = record { at = λ c p. bind-after c (m c) k (h.at c p) f }

Bounded-then :
    {B : Type 0} {m : Action Cur (Unit {0})} {k : Action Cur B}
    → Bounded m
    → Bounded k
    → Bounded (m >> k)
unfolding ◌>>◌
Bounded-then {m} {k} h f = record { at = λ c p. bind-after c (m c) (λ _. k) (h.at c p) (λ _. f) }

Bounded-pure : {A : Type 0} (a : A) → Bounded {A = A} (pure a)
unfolding pure
Bounded-pure a = record { at = Stays-refl }

Bounded-fail : {A : Type 0} (e : Err) → Bounded {A = A} (fail e)
unfolding fail
Bounded-fail e = record { at = Stays-refl }

Bounded-get : Bounded {A = Cur} get
unfolding get
Bounded-get = record { at = Stays-refl }

Bounded-lift : {A : Type 0} (r : Result A) → Bounded {A = A} (lift r)
unfolding lift
Bounded-lift r = record { at = Stays-refl }

Bounded-check : (b : Bool) (e : Err) → Bounded (check b e)
unfolding check
Bounded-check true e = record { at = Stays-refl }
Bounded-check false e = record { at = Stays-refl }

Bounded-if :
    {A : Type 0} (b : Bool) {m n : Action Cur A}
    → Bounded m
    → Bounded n
    → Bounded (if b then m else n)
Bounded-if true h k = h
Bounded-if false h k = k

-- A move within the bytes that a check has found to be there.
Bounded-span :
    {A : Type 0} (n : ℕ) (f : List ℕ → A) → Bounded (do cur_need n; p ← rest; advance n; pure (f p))
unfolding actions cur_need rest advance
Bounded-span n f = record {
  at = λ c p. elim (Bool-cases (leb n (length c.d - c.pos))) [
    | inl room ↦
        rw room
          (record { same = refl; forward = omega arith; inside = omega (arith, leb→le _ _ room) })
    | inr none_left ↦ rw none_left (Stays-refl c p)
  ];
}

Bounded-cur_need : (n : ℕ) → Bounded (cur_need n)
unfolding cur_need
Bounded-cur_need n = record {
  at = λ c p. elim (Bool-cases (leb n (length c.d - c.pos))) [
    | inl room ↦ rw room (Stays-refl c p)
    | inr none_left ↦ rw none_left (Stays-refl c p)
  ];
}

take_type-Bounded : Bounded take_type
unfolding take_type
take_type-Bounded = Bounded-span 1 (λ p. get_or p 0 0)

take_u32-Bounded : Bounded take_u32
unfolding take_u32
take_u32-Bounded = Bounded-span 4 rdu32

take_u64-Bounded : Bounded take_u64
unfolding take_u64
take_u64-Bounded = Bounded-span 8 rdu64

take_span-Bounded : (n : ℕ) → Bounded (take_span n)
unfolding take_span
take_span-Bounded n = Bounded-span n (take n)

ruleset rules = (
  Bounded-bind, Bounded-then, Bounded-pure, Bounded-fail, Bounded-get, Bounded-lift, Bounded-check,
  Bounded-if, take_type-Bounded, take_u32-Bounded, take_u64-Bounded, take_span-Bounded,
  Bounded-cur_need,
)

module _ (w : Wire) where
  pub read_number-Bounded : Bounded (read_number w)
  unfolding read_number
  read_number-Bounded = search rules depth 7

  pub read_u64-Bounded : Bounded (read_u64 w)
  unfolding read_u64
  read_u64-Bounded = search (rules, read_number-Bounded) depth 7

  pub read_int31-Bounded : Bounded (read_int31 w)
  unfolding read_int31
  read_int31-Bounded = search (rules, read_u64-Bounded) depth 7

  pub read_bool-Bounded : Bounded (read_bool w)
  unfolding read_bool
  read_bool-Bounded = search rules depth 7

  pub read_pointer-Bounded : Bounded (read_pointer w)
  unfolding read_pointer
  read_pointer-Bounded = search rules depth 7

  pub read_date-Bounded : Bounded (read_date w)
  unfolding read_date
  read_date-Bounded = search rules depth 7

  pub take_string-Bounded : Bounded (take_string w)
  unfolding take_string
  take_string-Bounded = search rules depth 8

  pub object_begin-Bounded : Bounded (object_begin w)
  unfolding object_begin
  object_begin-Bounded = search rules depth 9

  pub array_begin-Bounded : Bounded (array_begin w)
  unfolding array_begin
  array_begin-Bounded = search rules depth 9

  pub take_key-Bounded : Bounded take_key
  unfolding take_key
  take_key-Bounded = search rules depth 7

  pub skip_value-Bounded : Bounded (skip_value w)
  unfolding skip_value actions cur_need advance rest
  skip_value-Bounded = record { at = λ c p. skipped c p (w.value_size c.d c.pos) }
    where
      skipped :
          (c : Cur)
          → c.pos ≤ length c.d
          → (r : Result ℕ) → Stays c ((do sz ← lift r; cur_need sz; advance sz) c).1
      skipped c p (ok sz) = (Bounded-span sz (λ _. tt)).at c p
      skipped c p (err e) = Stays-refl c p

  pub find_field-Bounded : (n : ℕ) (name : List ℕ) → Bounded (find_field w n name)
  unfolding find_field
  find_field-Bounded zero name = search rules
  find_field-Bounded (suc n) name = Bounded-bind take_key-Bounded λ key.
      Bounded-bind Bounded-get λ before. Bounded-then skip_value-Bounded (
        Bounded-bind Bounded-get
          λ after. Bounded-if (name_eq key name) (Bounded-pure _) (find_field-Bounded n name))

  pub read_ptr-Bounded : Bounded (read_ptr_or_null w)
  unfolding read_ptr_or_null actions cur_need rest advance
  read_ptr-Bounded = record {
    at = λ c p. elim (Bool-cases (leb 1 (length c.d - c.pos))) [
      | inr none_left ↦ rw none_left (Stays-refl c p)
      | inl room ↦ elim (Bool-cases (get_or (drop c.pos c.d) 0 0 == w.type_null)) [
        | inl null ↦
            rw (room, null)
              (record {
                same = refl;
                forward = omega arith;
                inside = omega (arith, leb→le _ _ room);
              })
        | inr other ↦ rw (room, other) (pointer c (read_pointer-Bounded.at c p))
      ]
    ];
  }
    where
      pointer :
          (c : Cur)
          → Stays c (read_pointer w c).1
          → Stays c (bind_result (read_pointer w c) (λ v c'. (ok (some v), c'))).1
      pointer c s =
          bind-after c (read_pointer w c) (λ v c'. (ok (some v), c')) s
            (λ v. record { at = Stays-refl })

  -- Whatever the bytes of a record and the sizes that `bj_value_size` claims are, a search for a field
  -- that starts inside the record leaves the record alone, and its cursor moves neither back nor past
  -- the record's end, also where it fails.
  pub find_field_inside :
      (n : ℕ) (name : List ℕ) (c : Cur) → c.pos ≤ length c.d → Stays c (find_field w n name c).1
  find_field_inside n name c h = (find_field-Bounded n name).at c h
