-- ===== src/Workflows/Tests.antt =====
-- A run of the matcher of pkg/workflows/workflows.go, and of steps of a workflow.
use webapp_sec_tools.Prelude.{
  ℕ, zero, suc, true, false, Option, none, some, List, [], ◌∷◌, ◌≡◌, refl,
}
use webapp_sec_tools.Matchers.Types.{no_condition, and_condition, condition_types}
use webapp_sec_tools.Prelude.GoMap.{put}
use webapp_sec_tools.Prelude.Value.{text}
use webapp_sec_tools.Prelude.Strings.{to_lower, equal_fold}
use webapp_sec_tools.Operators.Types.{Result}
use webapp_sec_tools.Operators.Execute.{empty_result, has_match, has_extract}
use webapp_sec_tools.Workflows.Step.{
  Executer, WorkflowTemplate, template, no_templates, and_template, no_branches, World, returned,
  blocked, add_all, start_all, run_body, listed, set_extracts, note_events, mark, run_noted,
  run_leaf, run_step,
}
use webapp_sec_tools.Workflows.Total.{GivesTexts, run_step-total}
use webapp_sec_tools.Workflows.Matcher.{NameMatcher, compile, match_result, match_result-compile}

abbrev both : NameMatcher
both = record { names = "admin" ∷ "version" ∷ []; condition_name = "and"; condition = no_condition }

abbrev both_compiled : NameMatcher
both_compiled = record both { condition = and_condition }

abbrev found : Result
found = record empty_result {
  matches = ("Admin", []) ∷ [];
  extracts = ("version", "1.2" ∷ []) ∷ [];
}

match_result-compile_example : match_result both_compiled found ≡ true
unfolding compile condition_types has_match has_extract to_lower equal_fold
match_result-compile_example = match_result-compile both both_compiled found refl

-- An executer that finds `found`, and whose single run fails.
abbrev finds_version : Executer
finds_version = record {
  execute = λ args. (true, true);
  execute_with_results =
      λ args. (record { operators_result = some found; results = 1 } ∷ [], false);
}

finds_version-GivesTexts : GivesTexts finds_version
finds_version-GivesTexts args = ((refl, tt), tt)

abbrev leaf : WorkflowTemplate
leaf = template (finds_version ∷ []) no_branches no_templates

abbrev with_leaf : WorkflowTemplate
with_leaf = template (finds_version ∷ []) no_branches (and_template leaf no_templates)

abbrev nothing_yet : World
nothing_yet = record { args = []; results = false; marked = 0 }

-- A wait group as the number of free slots.
abbrev free : ℕ → Option ℕ
free zero = none
free (suc n) = some n

run_step_test :
    (run_step free true with_leaf nothing_yet 1
      ≡ returned (record nothing_yet { args = ("version", text "1.2") ∷ [] }) 0 (leaf ∷ []))
    × (run_step free true with_leaf nothing_yet 0 ≡ blocked)
    × (run_step free true leaf nothing_yet 0
        ≡ returned (record { args = []; results = true; marked = 1 }) 0 [])
unfolding run_step run_body start_all add_all run_noted run_leaf note_events set_extracts mark
    listed put
run_step_test = (refl, refl, refl)

run_step-total_example :
    (w' : World) × (started : List WorkflowTemplate) × (run_step free true with_leaf nothing_yet 1
      ≡ elim (add_all free started 1) [ none ↦ blocked | some g' ↦ returned w' g' started ])
    × (false ≡ true → w'.results ≡ true)
run_step-total_example =
    run_step-total free true with_leaf nothing_yet 1 (finds_version-GivesTexts, tt)
