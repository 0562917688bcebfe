-- ===== src/Workflows/Step.antt =====
-- runWorkflowStep() of pkg/core/workflow_execute.go. A step runs without interruption and gives the steps
-- that it starts, in order; those run later, in any order. Before each of them it calls Add() of the
-- bounded wait group of package syncutil, which is a parameter and may not return. An executer is what it does with the shared arguments:
-- the operators' results of its events, with the number of results of each, and whether it fails.
use webapp_sec_tools.Prelude.{
  ℕ, ◌+◌, String, Bool, false, ◌||◌, Option, none, some, List, [], ◌∷◌, ◌++◌, ltb, if◌then◌else◌,
}
use webapp_sec_tools.Prelude.GoMap.{GoMap, put}
use webapp_sec_tools.Prelude.Value.{Value, text, texts}
use webapp_sec_tools.Operators.Types.{Result}
use webapp_sec_tools.Operators.Execute.{indexed}
use webapp_sec_tools.Workflows.Matcher.{NameMatcher, match_result}

pub record StepEvent : Type 0 where
  pub operators_result : Option Result
  pub results : ℕ

-- Execute(): whether it matched, and whether it failed. ExecuteWithResults(): the events that are given to
-- the callback, and whether it failed.
pub record Executer : Type 0 where
  pub execute : GoMap Value → Bool × Bool
  pub execute_with_results : GoMap Value → List StepEvent × Bool

-- WorkflowTemplate: its executers, its matchers with their subtemplates, and its subtemplates.
mutual
  pub data WorkflowTemplate : Type 0 where
    template : List Executer → Branches → Templates → WorkflowTemplate

  pub data Templates : Type 0 where
    no_templates : Templates
    and_template : WorkflowTemplate → Templates → Templates

  pub data Branches : Type 0 where
    no_branches : Branches
    and_branch : NameMatcher → Templates → Branches → Branches

-- What the steps of a workflow share: the arguments of the context, `results`, and the number of calls of
-- HostErrorsCache.MarkFailed().
pub record World : Type 0 where
  pub args : GoMap Value
  pub results : Bool
  pub marked : ℕ

unfoldable pub listed : Templates → List WorkflowTemplate
listed no_templates = []
listed (and_template t ts) = t ∷ listed ts

-- The loop over the extracts of the first callback: `none` is the panic of `v[0]`.
unfoldable pub set_extracts : GoMap (List String) → GoMap Value → Option (GoMap Value)
unfolding indexed
set_extracts [] args = some args
set_extracts ((k, []) ∷ m) args = none
set_extracts ((k, v ∷ []) ∷ m) args = set_extracts m (put k (text v) args)
set_extracts ((k, v ∷ w ∷ vs) ∷ m) args =
    set_extracts m (put k (texts (v ∷ w ∷ vs)) (indexed k 0 (v ∷ w ∷ vs) args))

-- The first callback, for each event: the arguments and `firstMatched`.
unfoldable pub note_events : List StepEvent → GoMap Value → Bool → Option (GoMap Value × Bool)
unfolding set_extracts
note_events [] args first = some (args, first)
note_events (e ∷ es) args first = elim e.operators_result [
  | none ↦ note_events es args first
  | some r ↦ elim (set_extracts r.extracts args) [
    | none ↦ none
    | some args' ↦ note_events es args' (first || ltb 0 e.results)
  ]
]

unfoldable pub mark : Bool → World → World
mark has_cache w = if has_cache then record w { marked = w.marked + 1 } else w

-- The loop over the executers of a step without matchers, with and without subtemplates.
unfoldable pub run_noted : Bool → List Executer → World → Bool → Option (World × Bool)
unfolding note_events mark
run_noted has_cache [] w first = some (w, first)
run_noted has_cache (x ∷ xs) w first =
    let (events, err) = x.execute_with_results w.args in
    elim (note_events events w.args first) [
      | none ↦ none
      | some (args, first') ↦
          let w' = record w { args = args } in
          run_noted has_cache xs (if err then mark has_cache w' else w') first'
    ]

unfoldable pub run_leaf : Bool → List Executer → World → Bool → World × Bool
unfolding mark
run_leaf has_cache [] w first = (w, first)
run_leaf has_cache (x ∷ xs) w first =
    let (matched, err) = x.execute w.args in
    run_leaf has_cache xs (if err then mark has_cache w else w) (first || matched)

-- The second callback: the extracts are set whole, and every matcher that matches starts its subtemplates.
unfoldable pub set_all : GoMap (List String) → GoMap Value → GoMap Value
set_all [] args = args
set_all ((k, v) ∷ m) args = set_all m (put k (texts v) args)

unfoldable pub start_matching : Branches → Result → List WorkflowTemplate
unfolding listed
start_matching no_branches r = []
start_matching (and_branch m ts bs) r =
    let rest = start_matching bs r in if match_result m r then listed ts ++ rest else rest

unfoldable pub branch_events :
    Branches → List StepEvent → GoMap Value → GoMap Value × List WorkflowTemplate
unfolding set_all start_matching
branch_events bs [] args = (args, [])
branch_events bs (e ∷ es) args = elim e.operators_result [
  | none ↦ branch_events bs es args
  | some r ↦
      let (args', started) = branch_events bs es (set_all r.extracts args) in
      (args', start_matching bs r ++ started)
]

unfoldable pub run_branches : Branches → List Executer → World → World × List WorkflowTemplate
unfolding branch_events
run_branches bs [] w = (w, [])
run_branches bs (x ∷ xs) w =
    let (args, started) = branch_events bs (x.execute_with_results w.args).0 w.args in
    let (w', more) = run_branches bs xs (record w { args = args }) in (w', started ++ more)

-- results.CompareAndSwap(false, firstMatched)
abbrev pub note_result : Bool → World → World
note_result first w = record w { results = w.results || first }

-- The body of runWorkflowStep(): the world, and the steps that it starts; `none` is a panic. The error
-- that it returns is only logged.
unfoldable pub run_body : Bool → WorkflowTemplate → World → Option (World × List WorkflowTemplate)
unfolding run_leaf run_noted run_branches listed
run_body has_cache (template xs no_branches no_templates) w =
    let (w', first) = run_leaf has_cache xs w false in some (note_result first w', [])
run_body has_cache (template xs no_branches (and_template t ts)) w =
    elim (run_noted has_cache xs w false) [
      | none ↦ none
      | some (w', first) ↦ some (w', if first then t ∷ listed ts else [])
    ]
run_body has_cache (template xs (and_branch m ms bs) subs) w =
    some (run_branches (and_branch m ms bs) xs w)

-- How a step ends: with the wait group and the steps that it has started, with a panic, or waiting for
-- good in a call of Add().
pub data Ending (G : Type 0) : Type 0 where
  returned : World → G → List WorkflowTemplate → Ending G
  panicked : Ending G
  blocked : Ending G

module _ {G : Type 0} (add : G → Option G) where
  -- swg.Add(), once for each step that is started: `none` is a call that does not return.
  unfoldable pub add_all : List WorkflowTemplate → G → Option G
  add_all [] g = some g
  add_all (t ∷ ts) g = elim (add g) [ none ↦ none | some g' ↦ add_all ts g' ]

  -- Behind the first call that does not return nothing else happens; before it the body is as above.
  unfoldable pub start_all : World → List WorkflowTemplate → G → Ending G
  unfolding add_all
  start_all w ts g = elim (add_all ts g) [ none ↦ blocked | some g' ↦ returned w g' ts ]

  -- runWorkflowStep()
  unfoldable pub run_step : Bool → WorkflowTemplate → World → G → Ending G
  unfolding run_body start_all
  run_step has_cache t w g = elim (run_body has_cache t w) [
    | none ↦ panicked
    | some (w', started) ↦ start_all w' started g
  ]
