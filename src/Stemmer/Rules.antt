-- ===== src/Stemmer/Rules.antt =====
-- The suffix tables of src/stemmer.c.
use Prim.Native.String.{String}
use binjson_structures.Shared.{ℕ, List, [], ◌∷◌}
use binjson_structures.Entrylog.Record.{codes}

-- The bytes of a name.
abbrev pub bytes : String → List ℕ
bytes s = codes s

-- `sufrep`
pub record SufRep : Type 0 where
  pub suf : String
  pub rep : String

abbrev to : String → String → SufRep
to suf rep = record { suf = suf; rep = rep }

abbrev pub step2list : List SufRep
step2list =
    to "ational" "ate"
    ∷ to "tional" "tion"
    ∷ to "enci" "ence"
    ∷ to "anci" "ance"
    ∷ to "izer" "ize"
    ∷ to "bli" "ble"
    ∷ to "alli" "al"
    ∷ to "entli" "ent"
    ∷ to "eli" "e"
    ∷ to "ousli" "ous"
    ∷ to "ization" "ize"
    ∷ to "ation" "ate"
    ∷ to "ator" "ate"
    ∷ to "alism" "al"
    ∷ to "iveness" "ive"
    ∷ to "fulness" "ful"
    ∷ to "ousness" "ous"
    ∷ to "aliti" "al"
    ∷ to "iviti" "ive"
    ∷ to "biliti" "ble"
    ∷ to "logi" "log"
    ∷ []

abbrev pub step3list : List SufRep
step3list =
    to "icate" "ic"
    ∷ to "ative" ""
    ∷ to "alize" "al"
    ∷ to "iciti" "ic"
    ∷ to "ical" "ic"
    ∷ to "ful" ""
    ∷ to "ness" ""
    ∷ []

abbrev pub step4list : List SufRep
step4list =
    to "al" ""
    ∷ to "ance" ""
    ∷ to "ence" ""
    ∷ to "er" ""
    ∷ to "ic" ""
    ∷ to "able" ""
    ∷ to "ible" ""
    ∷ to "ant" ""
    ∷ to "ement" ""
    ∷ to "ment" ""
    ∷ to "ent" ""
    ∷ to "ou" ""
    ∷ to "ism" ""
    ∷ to "ate" ""
    ∷ to "iti" ""
    ∷ to "ous" ""
    ∷ to "ive" ""
    ∷ to "ize" ""
    ∷ []
