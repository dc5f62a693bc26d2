-- ===== src/Stemmer/Length.antt =====
-- The stemmer of src/stemmer.c works in place: its output never outgrows the word.
use native.Mathlib.Nat.{le_trans}
use binjson_structures.Shared.{
  ℕ, suc, ◌+◌, ◌-◌, ◌≤◌, ◌≡◌, refl, ap, arith, true, ◌&&◌, Option, none, some, List, [], ◌∷◌, map,
  length, get_or, ltb, leb, ◌==◌, Bool-cases, inl, inr, length-take, length-append,
}
use binjson_structures.Shared.Words.{All}
use binjson_structures.Stemmer.{
  without, find_from, find_suffix, apply_rep, lower, step_1a, repair, past_suffix, step_1b, step_1c,
  step_rules, step_4, step_5a, step_5b, steps, set_first, stemmer_stem, ends_with,
}
use binjson_structures.Stemmer.Rules.{SufRep, bytes, step2list, step3list, step4list}

without_lem : (k : ℕ) (s : List ℕ) → length (without k s) ≡ length s - k
without_lem k s = omega (arith, length-take (length s - k) s)

-- A rule whose replacement is no longer than its suffix.
abbrev IsShorter : SufRep → Type 0
IsShorter r = leb (length (bytes r.rep)) (length (bytes r.suf)) ≡ true

-- A rule that was found in `s`.
abbrev Fits : List ℕ → Option SufRep → Type 0
Fits s none = Unit {0}
Fits s (some r) = IsShorter r × (length (bytes r.suf) ≤ length s)

find_from-Fits :
    (s : List ℕ) (rs : List SufRep) (best : Option SufRep) (n : ℕ)
    → All IsShorter rs
    → Fits s best
    → Fits s (find_from s rs best n)
unfolding find_from
find_from-Fits s [] best n all fits = fits
find_from-Fits s (r ∷ rs) best n (one, all) fits =
    elim (Bool-cases (
      leb (length (bytes r.suf)) (length s - 1)
      && (ltb n (length (bytes r.suf)) && ends_with s (bytes r.suf)))) [
        | inl hit ↦
            rw hit (find_from-Fits s rs (some r) (length (bytes r.suf)) all (one, ground arith))
        | inr miss ↦ rw miss (find_from-Fits s rs best n all fits)
      ]

step_1a_lem : (s : List ℕ) → length (step_1a s) ≤ length s
unfolding step_1a
step_1a_lem s = ground (arith, without_lem 1 s, without_lem 2 s)

repair_lem : (s : List ℕ) → length (repair s) ≤ length s + 1
unfolding repair
repair_lem s = ground (arith, without_lem 1 s, length-append s (101 ∷ []))

step_1b_lem : (s : List ℕ) → length (step_1b s) ≤ length s
unfolding step_1b past_suffix
step_1b_lem s = ground (
  arith,
  without_lem 1 s,
  without_lem 2 s,
  without_lem 3 s,
  repair_lem (without 2 s),
  repair_lem (without 3 s),
)

step_1c_lem : (s : List ℕ) → length (step_1c s) ≤ length s
unfolding step_1c
step_1c_lem s = ground (arith, without_lem 1 s, length-append (without 1 s) (105 ∷ []))

step_rules_lem : (r : Option SufRep) (s : List ℕ) → Fits s r → length (step_rules r s) ≤ length s
unfolding step_rules apply_rep
step_rules_lem none s fits = omega arith
step_rules_lem (some r) s (short, inside) =
    let k = length (bytes r.suf) in
    ground (arith, without_lem k s, length-append (without k s) (bytes r.rep))

step_4_lem : (r : Option SufRep) (s : List ℕ) → length (step_4 r s) ≤ length s
unfolding step_4
step_4_lem none s = ground (arith, without_lem 3 s)
step_4_lem (some r) s = ground (arith, without_lem (length (bytes r.suf)) s)

step_5a_lem : (s : List ℕ) → length (step_5a s) ≤ length s
unfolding step_5a
step_5a_lem s = ground (arith, without_lem 1 s)

step_5b_lem : (s : List ℕ) → length (step_5b s) ≤ length s
unfolding step_5b
step_5b_lem s = ground (arith, without_lem 1 s)

find_suffix-Fits : (s : List ℕ) (rs : List SufRep) → All IsShorter rs → Fits s (find_suffix s rs)
unfolding find_suffix
find_suffix-Fits s rs all = find_from-Fits s rs none 0 all tt

step2list-IsShorter : All IsShorter step2list
step2list-IsShorter = (
  refl,
  (
    refl,
    (
      refl,
      (
        refl,
        (
          refl,
          (
            refl,
            (
              refl,
              (
                refl,
                (
                  refl,
                  (
                    refl,
                    (
                      refl,
                      (
                        refl,
                        (refl, (refl, (refl, (refl, (refl, (refl, (refl, (refl, (refl, tt))))))))),
                      ),
                    ),
                  ),
                ),
              ),
            ),
          ),
        ),
      ),
    ),
  ),
)

step3list-IsShorter : All IsShorter step3list
step3list-IsShorter = (refl, (refl, (refl, (refl, (refl, (refl, (refl, tt)))))))

rules_lem :
    (s : List ℕ) (rs : List SufRep)
    → All IsShorter rs
    → length (step_rules (find_suffix s rs) s) ≤ length s
rules_lem s rs all = step_rules_lem (find_suffix s rs) s (find_suffix-Fits s rs all)

step_1_lem : (s : List ℕ) → length (step_1c (step_1b (step_1a s))) ≤ length s
step_1_lem s =
    let a = step_1a s in
    let b = step_1b a in omega (arith, step_1c_lem b, step_1b_lem a, step_1a_lem s)

steps_lem : (s : List ℕ) → length (steps s) ≤ length s
unfolding steps
steps_lem s =
    let s1 = step_1c (step_1b (step_1a s)) in
    let s2 = step_rules (find_suffix s1 step2list) s1 in
    let s3 = step_rules (find_suffix s2 step3list) s2 in
    let s4 = step_4 (find_suffix s3 step4list) s3 in
    let s5 = step_5a s4 in
    le_trans (step_5b_lem s5) (
      le_trans (step_5a_lem s4) (
        le_trans (step_4_lem (find_suffix s3 step4list) s3) (
          le_trans (rules_lem s2 step3list step3list-IsShorter)
            (le_trans (rules_lem s1 step2list step2list-IsShorter) (step_1_lem s)))))

length-set_first : (c : ℕ) (s : List ℕ) → length (set_first c s) ≡ length s
length-set_first c [] = refl
length-set_first c (x ∷ s) = refl

length-map : (f : ℕ → ℕ) (s : List ℕ) → length (map f s) ≡ length s
length-map f [] = refl
length-map f (x ∷ s) = ap suc (length-map f s)

-- A stem is never longer than its word.
pub length-stemmer_stem : (word : List ℕ) → length (stemmer_stem word) ≤ length word
unfolding stemmer_stem
length-stemmer_stem word =
    let s = map lower word in
    let capital = set_first 89 s in
    elim (Bool-cases (ltb (length s) 3)) [
      | inl short ↦ rw short (omega (arith, length-map lower word))
      | inr long ↦ elim (Bool-cases (get_or s 0 0 == 121)) [
        | inl y_first ↦
            rw (long, y_first, length-set_first 121 (steps capital))
              (omega (arith, length-map lower word, steps_lem capital, length-set_first 89 s))
        | inr other ↦ rw (long, other) (omega (arith, length-map lower word, steps_lem s))
      ]
    ]
