-- ===== src/Keyenc/Parts.antt =====
-- The parts of src/keyenc.c as they reach a buffer: what each call appends, and the order of two
-- buffers that differ in one part.
use mathlib.Core.Path.{subst}
use binjson_structures.Shared.{
  ℕ, ◌^◌, ◌≤◌, ◌<◌, ◌≡◌, refl, ap, ◌∙◌, false, List, [], ◌∷◌, ◌++◌, append_assoc, Bool-cases, inl,
  inr,
}
use binjson_structures.Shared.Bytes.{LexLt, LexLt-append}
use binjson_structures.Shared.Result.{Result, ok, err}
use binjson_structures.Shared.State.{fail, actions, bind_result}
use binjson_structures.Dbuf.{Dbuf, dbuf_put}
use binjson_structures.Dbuf.Capacity.{Platform}
use binjson_structures.Dbuf.Growth.{IsValid, Put, dbuf_put_lem}
use binjson_structures.Double.{is_nan, DoubleLt}
use binjson_structures.Keyenc.{
  number_enc, date_enc, has_nul, qk_put_number, qk_put_string, qk_put_date, qk_put_id,
}
use binjson_structures.Keyenc.Order.{SignedLt, date_enc-LexLt, number_enc-LexLt, terminated-LexLt}

module _ (plat : Platform) (wide : 256 ≤ plat.size_max) where
  -- A successful call has appended exactly `part`.
  abbrev pub Appended : Dbuf → List ℕ → Dbuf → Type 0
  Appended b part b' = (b'.bytes ≡ b.bytes ++ part) × IsValid plat b'

  put-appended :
      (b b' : Dbuf) (part : List ℕ) (r : Result (Unit {0}) × Dbuf)
      → Put plat wide part b r
      → r ≡ (ok tt, b')
      → Appended b part b'
  put-appended b b' part (ok u, b'') h e = subst (Appended b part) (ap (λ r. r.1) e) h
  put-appended b b' part (err c, b'') h e = cc (ap (λ r. r.0) e)

  appended :
      (part : List ℕ) (b b' : Dbuf)
      → IsValid plat b
      → dbuf_put plat part b ≡ (ok tt, b')
      → Appended b part b'
  appended part b b' v e = put-appended b b' part _ (dbuf_put_lem plat wide part b v) e

  -- Two parts in a row.
  appended_then :
      (p q : List ℕ) (b b' : Dbuf) (r : Result (Unit {0}) × Dbuf)
      → Put plat wide p b r
      → bind_result r (λ _. dbuf_put plat q) ≡ (ok tt, b')
      → Appended b (p ++ q) b'
  appended_then p q b b' (ok u, m) (eq, v) e =
      let (later, valid) = appended q m b' v e in (later ∙ rw eq (append_assoc b.bytes p q), valid)
  appended_then p q b b' (err c, m) h e = cc (ap (λ r. r.0) e)

  pub number_appended :
      (a : ℕ) (b b' : Dbuf)
      → IsValid plat b
      → qk_put_number plat a b ≡ (ok tt, b')
      → Appended b (number_enc a) b'
  unfolding qk_put_number fail
  number_appended a b b' v e = elim (Bool-cases (is_nan a)) [
    | inl nan ↦ cc (ap (λ r. r.0) (rw nan at e))
    | inr real ↦ appended (number_enc a) b b' v (rw real at e)
  ]

  pub date_appended :
      (a : ℕ) (b b' : Dbuf)
      → IsValid plat b
      → qk_put_date plat a b ≡ (ok tt, b')
      → Appended b (date_enc a) b'
  unfolding qk_put_date
  date_appended a b b' v e = appended (date_enc a) b b' v e

  pub id_appended :
      (id : List ℕ) (b b' : Dbuf)
      → IsValid plat b
      → qk_put_id plat id b ≡ (ok tt, b')
      → Appended b (0x02 ∷ id) b'
  unfolding qk_put_id actions
  id_appended id b b' v e =
      appended_then (0x02 ∷ []) id b b' _ (dbuf_put_lem plat wide (0x02 ∷ []) b v) e

  string_tail :
      (s : List ℕ) (b b' : Dbuf) (r : Result (Unit {0}) × Dbuf)
      → Put plat wide (0x01 ∷ []) b r
      → bind_result r (λ _. (λ m. bind_result (dbuf_put plat s m) (λ _. dbuf_put plat (0x00 ∷ []))))
        ≡ (ok tt, b')
      → Appended b (0x01 ∷ (s ++ (0x00 ∷ []))) b'
  string_tail s b b' (ok u, m) (eq, v) e =
      let (later, valid) = appended_then s (0x00 ∷ []) m b' _ (dbuf_put_lem plat wide s m v) e in
      (later ∙ rw eq (append_assoc b.bytes (0x01 ∷ []) (s ++ (0x00 ∷ []))), valid)
  string_tail s b b' (err c, m) h e = cc (ap (λ r. r.0) e)

  -- A string part holds no zero byte but its terminator.
  pub string_appended :
      (s : List ℕ) (b b' : Dbuf)
      → IsValid plat b
      → qk_put_string plat s b ≡ (ok tt, b')
      → (has_nul s ≡ false) × Appended b (0x01 ∷ (s ++ (0x00 ∷ []))) b'
  unfolding qk_put_string actions
  string_appended s b b' v e = elim (Bool-cases (has_nul s)) [
    | inl nul ↦ cc (ap (λ r. r.0) (rw nul at e))
    | inr clean ↦
        (clean, string_tail s b b' _ (dbuf_put_lem plat wide (0x01 ∷ []) b v) (rw clean at e))
  ]

  -- Number parts that two successful calls append to valid buffers with the same bytes order the
  -- buffers byte by byte as the two doubles are ordered, whatever is appended later.
  pub qk_put_number-order :
      (x y : ℕ) (b c b' c' : Dbuf) (s t : List ℕ)
      → IsValid plat b
      → IsValid plat c
      → b.bytes ≡ c.bytes
      → x < 2 ^ 64
      → y < 2 ^ 64
      → DoubleLt x y
      → qk_put_number plat x b ≡ (ok tt, b')
      → qk_put_number plat y c ≡ (ok tt, c')
      → LexLt (b'.bytes ++ s) (c'.bytes ++ t)
  qk_put_number-order x y b c b' c' s t vb vc same hx hy lt e f =
      rw
        (
          (number_appended x b b' vb e).0,
          (number_appended y c c' vc f).0,
          same,
          append_assoc c.bytes (number_enc x) s,
          append_assoc c.bytes (number_enc y) t,
        )
        (LexLt-append c.bytes _ _ (number_enc-LexLt x y s t hx hy lt))

  -- Date parts that two successful calls append to valid buffers with the same bytes order the
  -- buffers byte by byte as the two int64_t are ordered, whatever is appended later.
  pub qk_put_date-order :
      (x y : ℕ) (b c b' c' : Dbuf) (s t : List ℕ)
      → IsValid plat b
      → IsValid plat c
      → b.bytes ≡ c.bytes
      → x < 2 ^ 64
      → y < 2 ^ 64
      → SignedLt x y
      → qk_put_date plat x b ≡ (ok tt, b')
      → qk_put_date plat y c ≡ (ok tt, c')
      → LexLt (b'.bytes ++ s) (c'.bytes ++ t)
  qk_put_date-order x y b c b' c' s t vb vc same hx hy lt e f =
      rw
        (
          (date_appended x b b' vb e).0,
          (date_appended y c c' vc f).0,
          same,
          append_assoc c.bytes (date_enc x) s,
          append_assoc c.bytes (date_enc y) t,
        )
        (LexLt-append c.bytes _ _ (date_enc-LexLt x y s t hx hy lt))

  -- String parts that two successful calls append to valid buffers with the same bytes order the
  -- buffers byte by byte as the two strings are ordered, whatever is appended later.
  pub qk_put_string-order :
      (x y : List ℕ) (b c b' c' : Dbuf) (s t : List ℕ)
      → IsValid plat b
      → IsValid plat c
      → b.bytes ≡ c.bytes
      → LexLt x y
      → qk_put_string plat x b ≡ (ok tt, b')
      → qk_put_string plat y c ≡ (ok tt, c')
      → LexLt (b'.bytes ++ s) (c'.bytes ++ t)
  qk_put_string-order x y b c b' c' s t vb vc same lt e f =
      let (clean, written) = string_appended y c c' vc f in
      let first : b'.bytes ≡ b.bytes ++ (0x01 ∷ (x ++ (0x00 ∷ []))) =
        (string_appended x b b' vb e).1.0 in
      rw
        (
          first,
          written.0,
          same,
          append_assoc c.bytes (0x01 ∷ (x ++ (0x00 ∷ []))) s,
          append_assoc c.bytes (0x01 ∷ (y ++ (0x00 ∷ []))) t,
          append_assoc x (0x00 ∷ []) s,
          append_assoc y (0x00 ∷ []) t,
        )
        (LexLt-append c.bytes _ _ (inr (refl, terminated-LexLt x y s t clean lt)))
