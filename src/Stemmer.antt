-- ===== src/Stemmer.antt =====
-- src/stemmer.c: the Porter stemmer on bytes. The buffer is read from its end: most tests and all
-- changes concern the last bytes.
pub mod Rules
pub mod Length
use binjson_structures.Shared.{
  ℕ, zero, suc, ◌+◌, ◌-◌, Bool, true, false, not, ◌&&◌, ◌||◌, Option, none, some, List, [], ◌∷◌,
  ◌++◌, map, length, take, drop, get_or, ltb, leb, ◌==◌, if◌then◌else◌,
}
use binjson_structures.Cursor.{name_eq}
use binjson_structures.Stemmer.Rules.{SufRep, step2list, step3list, step4list, bytes}

abbrev pub is_aeiou : ℕ → Bool
is_aeiou c = c == 97 || (c == 101 || (c == 105 || (c == 111 || c == 117)))

abbrev pub is_aeiouy : ℕ → Bool
is_aeiouy c = is_aeiou c || c == 121

abbrev pub is_aeiouwxy : ℕ → Bool
is_aeiouwxy c = is_aeiouy c || (c == 119 || c == 120)

-- What the loop of `cvstats` carries: the kind of the run at hand (true for vowels, none before the
-- first letter), the measure, and whether a vowel was seen.
pub record Runs : Type 0 where
  pub prev : Option Bool
  pub m : ℕ
  pub has_vowel : Bool

-- Whether the letter is in a vowel run.
unfoldable pub run_of : Option Bool → ℕ → Bool
run_of none c = is_aeiou c
run_of (some false) c = is_aeiouy c
run_of (some true) c = is_aeiou c

-- Whether a vowel run ends.
unfoldable pub falls : Option Bool → Bool → ℕ
falls (some true) false = 1
falls (some true) true = 0
falls (some false) t = 0
falls none t = 0

unfoldable pub runs : Runs → List ℕ → Runs
unfolding run_of falls
runs r [] = r
runs r (c ∷ cs) =
    let t = run_of r.prev c in
    runs (record { prev = some t; m = r.m + falls r.prev t; has_vowel = t || r.has_vowel }) cs

unfoldable pub cvstats : List ℕ → Runs
unfolding runs
cvstats s = runs (record { prev = none; m = 0; has_vowel = false }) s

abbrev pub gt0 : List ℕ → Bool
gt0 s = leb 1 (cvstats s).m

abbrev pub gt1 : List ℕ → Bool
gt1 s = leb 2 (cvstats s).m

abbrev pub eq1 : List ℕ → Bool
eq1 s = (cvstats s).m == 1

abbrev pub has_vowel : List ℕ → Bool
has_vowel s = (cvstats s).has_vowel

-- `s[len - k]`
abbrev pub last : ℕ → List ℕ → ℕ
last k s = get_or s (length s - k) 0

-- The bytes before the last `k`.
abbrev pub without : ℕ → List ℕ → List ℕ
without k s = take (length s - k) s

unfoldable pub none_aeiouy : List ℕ → Bool
none_aeiouy [] = true
none_aeiouy (c ∷ cs) = not (is_aeiouy c) && none_aeiouy cs

unfoldable pub consonant_like : List ℕ → Bool
unfolding none_aeiouy
consonant_like s =
    if ltb (length s) 3
    then false
    else if is_aeiouwxy (last 1 s)
    then false
    else if not (is_aeiouy (last 2 s))
    then false
    else if is_aeiou (get_or s 0 0)
    then false
    else none_aeiouy (drop 1 (without 2 s))

unfoldable pub ends_with : List ℕ → List ℕ → Bool
unfolding name_eq
ends_with s suf = leb (length suf) (length s) && name_eq (drop (length s - length suf) s) suf

unfoldable pub sfx_sses_or_ies : List ℕ → Bool
sfx_sses_or_ies s =
    if not (leb 2 (length s) && (last 2 s == 101 && last 1 s == 115))
    then false
    else if leb 4 (length s) && last 3 s == 105
    then true
    else leb 5 (length s) && (last 3 s == 115 && last 4 s == 115)

unfoldable pub sfx_s : List ℕ → Bool
sfx_s s = leb 3 (length s) && (last 1 s == 115 && not (last 2 s == 115))

unfoldable pub sfx_at_bl_iz : List ℕ → Bool
unfolding ends_with
sfx_at_bl_iz s = ends_with s (bytes "at") || (ends_with s (bytes "bl") || ends_with s (bytes "iz"))

unfoldable pub sfx_double : List ℕ → Bool
sfx_double s =
    if ltb (length s) 2 || not (last 1 s == last 2 s)
    then false
    else not (is_aeiouy (last 1 s) || (last 1 s == 108 || (last 1 s == 115 || last 1 s == 122)))

-- The longest listed suffix so far, kept on a tie.
unfoldable pub find_from : List ℕ → List SufRep → Option SufRep → ℕ → Option SufRep
unfolding ends_with
find_from s [] best best_len = best
find_from s (r ∷ rs) best best_len =
    let sl = length (bytes r.suf) in
    let hit = leb sl (length s - 1) && (ltb best_len sl && ends_with s (bytes r.suf)) in
    find_from s rs (if hit then some r else best) (if hit then sl else best_len)

unfoldable pub find_suffix : List ℕ → List SufRep → Option SufRep
unfolding find_from
find_suffix s rules = find_from s rules none 0

unfoldable pub apply_rep : List ℕ → SufRep → List ℕ
apply_rep s r = without (length (bytes r.suf)) s ++ bytes r.rep

unfoldable pub lower : ℕ → ℕ
lower c = if leb 65 c && leb c 90 then c + 32 else c

unfoldable pub step_1a : List ℕ → List ℕ
unfolding sfx_sses_or_ies sfx_s
step_1a s = if sfx_sses_or_ies s then without 2 s else if sfx_s s then without 1 s else s

-- After "ed" or "ing" was cut off.
unfoldable pub repair : List ℕ → List ℕ
unfolding sfx_at_bl_iz sfx_double consonant_like
repair s =
    if sfx_at_bl_iz s
    then s ++ (101 ∷ [])
    else if sfx_double s
    then without 1 s
    else if consonant_like s
    then s ++ (101 ∷ [])
    else s

unfoldable pub past_suffix : List ℕ → ℕ
unfolding ends_with
past_suffix s = if ends_with s (bytes "ed") then 2 else if ends_with s (bytes "ing") then 3 else 0

unfoldable pub step_1b : List ℕ → List ℕ
unfolding ends_with cvstats past_suffix repair
step_1b s =
    let suf = past_suffix s in
    if leb 4 (length s) && ends_with s (bytes "eed")
    then if gt0 (without 3 s) then without 1 s else s
    else if not (suf == 0) && (leb (suf + 1) (length s) && has_vowel (without suf s))
    then repair (without suf s)
    else s

unfoldable pub step_1c : List ℕ → List ℕ
unfolding cvstats
step_1c s =
    if leb 2 (length s) && (last 1 s == 121 && has_vowel (without 1 s))
    then without 1 s ++ (105 ∷ [])
    else s

-- Steps 2 and 3.
unfoldable pub step_rules : Option SufRep → List ℕ → List ℕ
unfolding cvstats apply_rep
step_rules none s = s
step_rules (some r) s = if gt0 (without (length (bytes r.suf)) s) then apply_rep s r else s

unfoldable pub step_4 : Option SufRep → List ℕ → List ℕ
unfolding cvstats ends_with
step_4 (some r) s =
    if gt1 (without (length (bytes r.suf)) s) then without (length (bytes r.suf)) s else s
step_4 none s =
    if leb 5 (length s) && (ends_with s (bytes "ion") && (last 4 s == 115 || last 4 s == 116))
    then if gt1 (without 3 s) then without 3 s else s
    else s

unfoldable pub step_5a : List ℕ → List ℕ
unfolding cvstats consonant_like
step_5a s =
    let p = without 1 s in
    if leb 2 (length s) && (last 1 s == 101 && (gt1 p || (eq1 p && not (consonant_like p))))
    then p
    else s

unfoldable pub step_5b : List ℕ → List ℕ
unfolding cvstats
step_5b s =
    if leb 2 (length s) && (last 1 s == 108 && (last 2 s == 108 && gt1 s)) then without 1 s else s

unfoldable pub steps : List ℕ → List ℕ
unfolding step_1a step_1b step_1c step_rules step_4 step_5a step_5b find_suffix
steps s0 =
    let s1 = step_1c (step_1b (step_1a s0)) in
    let s2 = step_rules (find_suffix s1 step2list) s1 in
    let s3 = step_rules (find_suffix s2 step3list) s2 in
    step_5b (step_5a (step_4 (find_suffix s3 step4list) s3))

abbrev pub set_first : ℕ → List ℕ → List ℕ
set_first c [] = []
set_first c (x ∷ xs) = c ∷ xs

unfoldable pub stemmer_stem : List ℕ → List ℕ
unfolding lower steps
stemmer_stem word =
    let s = map lower word in
    if ltb (length s) 3
    then s
    else if get_or s 0 0 == 121
    then set_first 121 (steps (set_first 89 s))
    else steps s
