-- ===== src/Shared/Result.antt =====
-- The `BJ_OK` and `BJ_ERR_*` codes of the C functions as a result.
use binjson_structures.Shared.{◌≡◌, refl, ap, ◌⊎◌, inl, inr, ℕ}

-- The error codes that the sources name; `host` is any other nonzero code of a callback.
pub data Err : Type 0 where
  oom eof state range verify unknown_type depth : Err
  host : ℕ → Err

pub data Result {ℓ} (A : Type ℓ) : Type ℓ where
  ok : A → Result A
  err : Err → Result A

pub Result-cases {ℓ} :
    {A : Type ℓ} (r : Result A) → ((a : A) × (r ≡ ok a)) ⊎ ((e : Err) × (r ≡ err e))
Result-cases (ok a) = inl (a, refl)
Result-cases (err e) = inr (e, refl)

abbrev value_or {ℓ} : {A : Type ℓ} → A → Result A → A
value_or d (ok a) = a
value_or d (err e) = d

pub ok-injective {ℓ} : {A : Type ℓ} (a b : A) → ok a ≡ ok b → a ≡ b
ok-injective a b h = ap (value_or a) h
