-- ===== src/Operators/Tests.antt =====
-- Runs of the operators of pkg/operators and of the block list of matchers.
use webapp_sec_tools.Prelude.{
  not, ◌&&◌, none, String, Bool, true, false, Option, some, List, [], ◌∷◌, ◌≡◌, refl, arith, length,
  get_elem?, ◌≤◌, ◌||◌,
}
use webapp_sec_tools.Prelude.Int.{pos}
use webapp_sec_tools.Prelude.GoMap.{GoMap, lookup}
use webapp_sec_tools.Prelude.GoSet.{has, add}
use webapp_sec_tools.Prelude.Value.{Value, text}
use webapp_sec_tools.Matchers.Types.{or_condition, Matcher}
use webapp_sec_tools.Matchers.Tests.{words_m}
use webapp_sec_tools.Operators.ExcludeMatchers.{
  excludes, new_exclude_matchers, excludes-new, any_covers,
}
use webapp_sec_tools.Operators.Types.{Extractor, regex_extractor, Operators, Result}
use webapp_sec_tools.Operators.Execute.{extracted, matcher_env, execute, empty_result}
use webapp_sec_tools.Operators.Outcome.{reports, present, execute-reports}
use webapp_sec_tools.Operators.Merge.{merge, make_dynamic_values_callback, max_values}
use webapp_sec_tools.Operators.MergeOutput.{merge-output_extracts, no_repeat}
use webapp_sec_tools.Operators.Extracts.{extracted-output}
use webapp_sec_tools.Operators.Rounds.{make_dynamic_values_callback-rounds}

excludes-new_example :
    excludes (new_exclude_matchers ("t1" ∷ "*:m" ∷ [])) "t2" "m"
    ≡ any_covers ("t1" ∷ "*:m" ∷ []) "t2" "m"
excludes-new_example = excludes-new ("t1" ∷ "*:m" ∷ []) "t2" "m"

abbrev pub token : Extractor String String String
token = record {
  name = "token";
  type = regex_extractor;
  regex = [];
  regex_group = pos 0;
  regex_compiled = [];
  kval = [];
  json = [];
  xpath = [];
  attribute = "";
  json_compiled = [];
  dsl = [];
  dsl_compiled = [];
  part = "body";
  internal = true;
  case_insensitive = false;
}

abbrev pub ops : Operators String String String
ops = record {
  matchers = words_m ∷ [];
  extractors = token ∷ [];
  condition_name = "or";
  condition = or_condition;
  template_id = "t1";
  exclude_matchers = some (new_exclude_matchers ("*:m" ∷ []));
}

abbrev pub matches_always : GoMap Value → Matcher String String → Bool × List String
matches_always env m = (true, "hit" ∷ [])

abbrev pub finds : GoMap Value → Extractor String String String → List String
finds env e = "a" ∷ "b" ∷ []

execute-reports_example :
    (d : GoMap Value) × (r : Option Result) × (matcher_env (extracted ops [] finds) ≡ some d)
    × (execute ops [] matches_always finds false
        ≡ some (
          r,
          reports ops (matches_always d) (extracted ops [] finds).result,
          (extracted ops [] finds).env,
        ))
    × ((reports ops (matches_always d) (extracted ops [] finds).result && not (present r)) ≡ false)
execute-reports_example = execute-reports ops [] matches_always finds false

abbrev left_result : Result
left_result = record empty_result { output_extracts = "a" ∷ "b" ∷ [] }

abbrev right_result : Result
right_result = record empty_result { output_extracts = "b" ∷ "c" ∷ [] }

abbrev merged_result : Result
merged_result = record empty_result {
  output_extracts = "a" ∷ "b" ∷ "c" ∷ [];
  output_unique = "c" ∷ "b" ∷ "a" ∷ [];
}

merge-output_extracts_example :
    (has "c" merged_result.output_extracts
      ≡ (has "c" left_result.output_extracts || has "c" right_result.output_extracts))
    × (no_repeat merged_result.output_extracts ≡ true)
    × (has "c" merged_result.output_unique ≡ has "c" merged_result.output_extracts)
unfolding merge has add
merge-output_extracts_example =
    merge-output_extracts (λ vs. vs) left_result right_result merged_result "c" refl

abbrev input : GoMap (List String)
input = ("a", "1" ∷ []) ∷ ("b", "x" ∷ "y" ∷ "z" ∷ []) ∷ []

make_dynamic_values_callback-rounds_example :
    (length (make_dynamic_values_callback input true (λ o. false)) ≡ max_values input 0)
    × (3 ≤ max_values input 0)
    × ((j : String) × (length (elim (lookup j input) [ none ↦ [] | some vs ↦ vs ])
          ≡ max_values input 0))
    × (m : GoMap Value) × (get_elem? (make_dynamic_values_callback input true (λ o. false)) 2
        ≡ some m)
    × (lookup "b" m ≡ some (text "z"))
unfolding lookup max_values
make_dynamic_values_callback-rounds_example =
    make_dynamic_values_callback-rounds (λ o. false) (λ o. refl) "b" input 2 (refl, (refl, tt))
      (omega arith) (omega arith)

abbrev shown : Extractor String String String
shown = record token { internal = false }

abbrev pub ops_shown : Operators String String String
ops_shown = record ops { extractors = shown ∷ shown ∷ [] }

extracted-output_example :
    (has "b" (extracted ops_shown [] finds).result.output_extracts ≡ true)
    × (no_repeat (extracted ops_shown [] finds).result.output_extracts ≡ true)
unfolding has
extracted-output_example = extracted-output ops_shown [] finds "b"
