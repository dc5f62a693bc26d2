-- ===== src/Shared/State.antt =====
-- Functions that change a state and may fail: the state stands also behind an error.
use binjson_structures.Shared.{Bool, true, false}
use binjson_structures.Shared.Result.{Result, ok, err, Err}

abbrev pub Action : Type 0 → Type 0 → Type 0
Action S A = S → Result A × S

abbrev pub bind_result : {S A B : Type 0} → Result A × S → (A → Action S B) → Result B × S
bind_result (ok a, s) f = f a s
bind_result (err e, s) f = (err e, s)

infixl 5 ◌>>=◌ ◌>>◌
unfoldable pub ◌>>=◌ : {S A B : Type 0} → Action S A → (A → Action S B) → Action S B
◌>>=◌ m f s = bind_result (m s) f

unfoldable pub ◌>>◌ : {S B : Type 0} → Action S (Unit {0}) → Action S B → Action S B
◌>>◌ m k s = bind_result (m s) (λ _. k)

unfoldable pub pure : {S A : Type 0} → A → Action S A
pure a s = (ok a, s)

unfoldable pub fail : {S A : Type 0} → Err → Action S A
fail e s = (err e, s)

unfoldable pub get : {S : Type 0} → Action S S
get s = (ok s, s)

unfoldable pub put : {S : Type 0} → S → Action S (Unit {0})
put s _ = (ok tt, s)

unfoldable pub lift : {S A : Type 0} → Result A → Action S A
lift r s = (r, s)

unfoldable pub check : {S : Type 0} → Bool → Err → Action S (Unit {0})
check true e s = (ok tt, s)
check false e s = (err e, s)

-- A proof that computes with actions names this on its `unfolding` line.
unfoldable pub actions : Unit {0}
unfolding ◌>>=◌ ◌>>◌ pure fail get put lift check
actions = tt
