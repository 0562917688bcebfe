-- ===== src/Extractors/Compile.antt =====
-- CompileExtractors() of pkg/operators/extractors/compile.go, and Compile() and HasDSL() of
-- pkg/operators/operators.go. The compilers of regular expressions, jq queries and DSL expressions are
-- parameters.
use webapp_sec_tools.Prelude.{
  String, Bool, true, false, not, Option, none, some, List, [], ◌∷◌, ◌++◌, str_eq, map,
  if◌then◌else◌,
}
use webapp_sec_tools.Prelude.Strings.{to_lower}
use webapp_sec_tools.Matchers.Types.{ConditionType, no_condition, or_condition, condition_types}
use webapp_sec_tools.Matchers.Compile.{CompileError, Compiled, accepted, refused}
use webapp_sec_tools.Matchers.CompileMatchers.{compile_matchers}
use webapp_sec_tools.Operators.Types.{Extractor, Operators, ExtractorType, kval_extractor}
use webapp_sec_tools.Extractors.Types.{extractor_string, to_extractor_types}

-- The errors of CompileExtractors().
pub data ExtractorError : Type 0 where
  unknown_extractor : ExtractorError
  extractor_regex unparsed_json uncompiled_json extractor_dsl : String → ExtractorError
  case_insensitive_extractor : ExtractorError

pub data Outcome {ℓ} (A : Type ℓ) : Type ℓ where
  done : A → Outcome A
  failed : ExtractorError → Outcome A

-- A loop that appends what each text compiles to, up to the first that fails.
unfoldable pub append_all {ℓ} :
    {A : Type ℓ} → (String → Outcome A) → List String → List A → Outcome (List A)
append_all compile [] compiled = done compiled
append_all compile (s ∷ ss) compiled = elim (compile s) [
  | failed why ↦ failed why
  | done a ↦ append_all compile ss (compiled ++ a ∷ [])
]

abbrev pub is_kval : ExtractorType → Bool
is_kval kval_extractor = true
is_kval _ = false

unfoldable pub compile_regex : {Regex : Type 0} → (String → Option Regex) → String → Outcome Regex
compile_regex regex_compile s = elim (regex_compile s) [
  | none ↦ failed (extractor_regex s)
  | some r ↦ done r
]

unfoldable pub compile_json :
    {Query Json : Type 0} → (String → Option Query) → (Query → Option Json) → String → Outcome Json
compile_json json_parse json_compile s = elim (json_parse s) [
  | none ↦ failed (unparsed_json s)
  | some query ↦ elim (json_compile query) [ none ↦ failed (uncompiled_json s) | some c ↦ done c ]
]

unfoldable pub compile_dsl : {Dsl : Type 0} → (String → Option Dsl) → String → Outcome Dsl
compile_dsl dsl_compile s = elim (dsl_compile s) [
  | none ↦ failed (extractor_dsl s)
  | some c ↦ done c
]

-- The check of the flag, and the second loop over the keys.
unfoldable pub lower_keys :
    {Regex Dsl Json : Type 0} → Extractor Regex Dsl Json → Outcome (Extractor Regex Dsl Json)
lower_keys e =
    if e.case_insensitive
    then (if not (is_kval e.type)
        then failed case_insensitive_extractor
        else done (record e { kval = map to_lower e.kval }))
    else done e

module _ {Regex Dsl Query Json : Type 0} (regex_compile : String → Option Regex)
    (json_parse : String → Option Query) (json_compile : Query → Option Json)
    (dsl_compile : String → Option Dsl) where
  -- CompileExtractors()
  unfoldable pub compile_extractors : Extractor Regex Dsl Json → Outcome (Extractor Regex Dsl Json)
  compile_extractors e = elim (to_extractor_types (extractor_string e.type)) [
    | none ↦ failed unknown_extractor
    | some type ↦ elim (append_all (compile_regex regex_compile) e.regex e.regex_compiled) [
      | failed why ↦ failed why
      | done regexes ↦
          elim (append_all (compile_json json_parse json_compile) e.json e.json_compiled) [
            | failed why ↦ failed why
            | done queries ↦ elim (append_all (compile_dsl dsl_compile) e.dsl e.dsl_compiled) [
              | failed why ↦ failed why
              | done expressions ↦ lower_keys (record e {
                type = type;
                regex_compiled = regexes;
                kval = map to_lower e.kval;
                json_compiled = queries;
                dsl_compiled = expressions;
              })
            ]
          ]
    ]
  ]

  unfoldable pub compile_extractor_list :
      List (Extractor Regex Dsl Json) → Outcome (List (Extractor Regex Dsl Json))
  unfolding compile_extractors
  compile_extractor_list [] = done []
  compile_extractor_list (e ∷ es) =
      let rest = compile_extractor_list es in
      elim (compile_extractors e) [
        | failed why ↦ failed why
        | done e' ↦ elim rest [ failed why ↦ failed why | done es' ↦ done (e' ∷ es') ]
      ]

-- What Compile() of the operators gives.
pub data CompiledOperators {ℓ} (A : Type ℓ) : Type ℓ where
  ready : A → CompiledOperators A
  bad_matcher : CompileError → CompiledOperators A
  bad_extractor : ExtractorError → CompiledOperators A

unfoldable pub compile_matcher_list {ℓ} :
    {M : Type ℓ} → (M → Compiled M) → List M → Compiled (List M)
compile_matcher_list compile [] = accepted []
compile_matcher_list compile (m ∷ ms) =
    let rest = compile_matcher_list compile ms in
    elim (compile m) [
      | refused why ↦ refused why
      | accepted m' ↦ elim rest [ refused why ↦ refused why | accepted ms' ↦ accepted (m' ∷ ms') ]
    ]

-- ConditionTypes[s]: the zero value for a text that is no key of the map.
abbrev pub operators_condition : String → ConditionType
operators_condition s =
    if not (str_eq s "")
    then elim (condition_types s) [ none ↦ no_condition | some c ↦ c ]
    else or_condition

module _ {Regex Dsl Query Json : Type 0} (regex_compile : String → Option Regex)
    (dsl_compile : String → Option Dsl) (xpath_ok : String → Bool) (decode : String → Option String)
    (json_parse : String → Option Query) (json_compile : Query → Option Json) where
  -- Compile()
  unfoldable pub compile_operators :
      Operators Regex Dsl Json → CompiledOperators (Operators Regex Dsl Json)
  unfolding condition_types compile_matcher_list compile_matchers compile_extractor_list
  compile_operators ops =
      elim (compile_matcher_list (compile_matchers regex_compile dsl_compile xpath_ok decode)
        ops.matchers) [
          | refused why ↦ bad_matcher why
          | accepted ms ↦
              elim (compile_extractor_list regex_compile json_parse json_compile dsl_compile
                ops.extractors) [
                  | failed why ↦ bad_extractor why
                  | done es ↦ ready (record ops {
                    matchers = ms;
                    extractors = es;
                    condition = operators_condition ops.condition_name;
                  })
                ]
        ]
