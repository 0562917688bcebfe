-- ===== src/Extractors/Compilation.antt =====
-- When CompileExtractors() of pkg/operators/extractors/compile.go succeeds, and what it gives.

use webapp_sec_tools.Prelude.{
  String, Bool, true, false, not, ◌&&◌, ◌||◌, Option, none, some, List, [], ◌∷◌, ◌++◌, ◌≡◌, refl,
  arith, if◌then◌else◌, inl, inr, ◌⊎◌,
}
use webapp_sec_tools.Prelude.Strings.{to_lower, trim_space}
use webapp_sec_tools.Operators.Types.{
  Extractor, ExtractorType, no_extractor, regex_extractor, kval_extractor, xpath_extractor,
  json_extractor, dsl_extractor,
}
use webapp_sec_tools.Extractors.Types.{extractor_string, to_extractor_types, find_type}
use webapp_sec_tools.Extractors.Compile.{
  Outcome, done, failed, ExtractorError, append_all, is_kval, compile_regex, compile_json,
  compile_dsl, lower_keys, compile_extractors,
}

abbrev pub is_done {ℓ} : {A : Type ℓ} → Outcome A → Bool
is_done (done a) = true
is_done (failed why) = false

abbrev pub all_done {ℓ} : {A : Type ℓ} → (String → Outcome A) → List String → Bool
all_done compile [] = true
all_done compile (s ∷ ss) = is_done (compile s) && all_done compile ss

abbrev pub is_named : ExtractorType → Bool
is_named no_extractor = false
is_named _ = true

Outcome-cases {ℓ} :
    {A : Type ℓ} (o : Outcome A)
    → ((a : A) × (o ≡ done a)) ⊎ ((e : ExtractorError) × (o ≡ failed e))
Outcome-cases (done a) = inl (a, refl)
Outcome-cases (failed e) = inr (e, refl)

append_all-is_done {ℓ} :
    {A : Type ℓ} (compile : String → Outcome A) (ss : List String) (compiled : List A)
    → is_done (append_all compile ss compiled) ≡ all_done compile ss
unfolding append_all
append_all-is_done compile [] compiled = refl
append_all-is_done compile (s ∷ ss) compiled = elim (Outcome-cases (compile s)) [
  | inl (a, e) ↦ rw (append_all, e) (append_all-is_done compile ss (compiled ++ a ∷ []))
  | inr (why, e) ↦ rw (append_all, e) refl
]

-- The names of the types are read back.
to_extractor_types-string :
    (t : ExtractorType)
    → to_extractor_types (extractor_string t) ≡ (if is_named t then some t else none)
unfolding to_extractor_types extractor_string find_type trim_space to_lower
to_extractor_types-string no_extractor = refl
to_extractor_types-string regex_extractor = refl
to_extractor_types-string kval_extractor = refl
to_extractor_types-string xpath_extractor = refl
to_extractor_types-string json_extractor = refl
to_extractor_types-string dsl_extractor = refl

module _ {Regex Dsl Query Json : Type 0} (regex_compile : String → Option Regex)
    (json_parse : String → Option Query) (json_compile : Query → Option Json)
    (dsl_compile : String → Option Dsl) where
  -- CompileExtractors() succeeds just where the type is set, all regular expressions, jq queries and DSL
  -- expressions compile, and `case-insensitive` stands with the type kval only.
  pub compile_extractors-is_done :
      (e : Extractor Regex Dsl Json)
      → is_done (compile_extractors regex_compile json_parse json_compile dsl_compile e) ≡ (
          is_named e.type
          && all_done (compile_regex regex_compile) e.regex
          && all_done (compile_json json_parse json_compile) e.json
          && all_done (compile_dsl dsl_compile) e.dsl
          && (not e.case_insensitive || is_kval e.type))
  unfolding compile_extractors lower_keys
  compile_extractors-is_done e = ground (
    arith,
    to_extractor_types-string e.type,
    append_all-is_done (compile_regex regex_compile) e.regex e.regex_compiled,
    append_all-is_done (compile_json json_parse json_compile) e.json e.json_compiled,
    append_all-is_done (compile_dsl dsl_compile) e.dsl e.dsl_compiled,
  )
