-- ===== src/Tests/Words.antt =====
-- src/stemmer.c on English words.
use binjson_structures.Shared.{◌≤◌, ◌≡◌, refl, length}
use binjson_structures.Cursor.{name_eq}
use binjson_structures.Stemmer.{
  run_of, falls, runs, cvstats, none_aeiouy, consonant_like, ends_with, sfx_sses_or_ies, sfx_s,
  sfx_at_bl_iz, sfx_double, find_from, find_suffix, apply_rep, lower, step_1a, repair, past_suffix,
  step_1b, step_1c, step_rules, step_4, step_5a, step_5b, steps, stemmer_stem,
}
use binjson_structures.Stemmer.Rules.{bytes}
use binjson_structures.Stemmer.Length.{length-stemmer_stem}

relational : stemmer_stem (bytes "relational") ≡ bytes "relat"
relational =
    unfold run_of falls runs cvstats none_aeiouy consonant_like ends_with sfx_sses_or_ies sfx_s
      sfx_at_bl_iz sfx_double find_from find_suffix apply_rep lower step_1a repair past_suffix
      step_1b step_1c step_rules step_4 step_5a step_5b steps stemmer_stem name_eq in
    refl

hopping : stemmer_stem (bytes "Hopping") ≡ bytes "hop"
hopping =
    unfold run_of falls runs cvstats none_aeiouy consonant_like ends_with sfx_sses_or_ies sfx_s
      sfx_at_bl_iz sfx_double find_from find_suffix apply_rep lower step_1a repair past_suffix
      step_1b step_1c step_rules step_4 step_5a step_5b steps stemmer_stem name_eq in
    refl

yes : stemmer_stem (bytes "yellows") ≡ bytes "yellow"
yes =
    unfold run_of falls runs cvstats none_aeiouy consonant_like ends_with sfx_sses_or_ies sfx_s
      sfx_at_bl_iz sfx_double find_from find_suffix apply_rep lower step_1a repair past_suffix
      step_1b step_1c step_rules step_4 step_5a step_5b steps stemmer_stem name_eq in
    refl

length-stemmer_stem_example : length (stemmer_stem (bytes "caresses")) ≤ 8
length-stemmer_stem_example = length-stemmer_stem (bytes "caresses")
