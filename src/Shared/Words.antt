-- ===== src/Shared/Words.antt =====
-- Machine words as native numbers, and their bytes.
use binjson_structures.Shared.{ℕ, ◌+◌, ◌-◌, ◌%◌, ◌^◌, ◌<◌}
use binjson_structures.Shared.{List, [], ◌∷◌}

abbrev pub IsByte : ℕ → Type 0
IsByte b = b < 256

abbrev pub add64 : ℕ → ℕ → ℕ
add64 a b = (a + b) % 2 ^ 64

-- a - b on uint64_t, which wraps.
abbrev pub sub64 : ℕ → ℕ → ℕ
sub64 a b = (a + 2 ^ 64 - b) % 2 ^ 64

abbrev pub All {ℓ κ} : {A : Type ℓ} → (A → Type κ) → List A → Type κ
All P [] = Unit
All P (x ∷ xs) = P x × All P xs
