-- ===== src/Workflows/Total.antt =====
-- How a step of a workflow ends, runWorkflowStep() of pkg/core/workflow_execute.go.
use webapp_sec_tools.Prelude.{
  String, Bool, true, false, ◌||◌, Option, none, some, List, [], ◌∷◌, ◌≡◌, refl, subst, ◌∙◌, arith,
  All, ltb, if◌then◌else◌, Bool-cases, Option-cases, inl, inr,
}
use mathlib.Core.Bool.{true≢false}
use webapp_sec_tools.Prelude.GoMap.{GoMap, put}
use webapp_sec_tools.Prelude.Value.{Value, text, texts}
use webapp_sec_tools.Operators.Types.{Result}
use webapp_sec_tools.Operators.Execute.{indexed}
use webapp_sec_tools.Operators.Outcome.{Filled}
use webapp_sec_tools.Workflows.Step.{
  StepEvent, Executer, WorkflowTemplate, template, no_templates, and_template, Branches,
  no_branches, and_branch, World, returned, blocked, add_all, start_all, run_step, listed,
  set_extracts, note_events, mark, run_noted, run_leaf, branch_events, run_branches, run_body,
}

-- The result of an event has a text for each of its extracts.
abbrev pub HasTexts : Option Result → Type 0
HasTexts none = Unit
HasTexts (some r) = Filled r.extracts

-- So have all results of an executer, whatever the arguments.
abbrev pub GivesTexts : Executer → Type 0
GivesTexts x =
    (args : GoMap Value)
    → All (λ (e : StepEvent). HasTexts e.operators_result) (x.execute_with_results args).0

abbrev pub executers_of : WorkflowTemplate → List Executer
executers_of (template xs bs ts) = xs

set_extracts-total :
    (m : GoMap (List String)) (args : GoMap Value)
    → Filled m
    → (args' : GoMap Value) × (set_extracts m args ≡ some args')
unfolding set_extracts
set_extracts-total [] args f = (args, refl)
set_extracts-total ((k, []) ∷ m) args (p, f) = absurd (true≢false p)
set_extracts-total ((k, v ∷ []) ∷ m) args (p, f) = set_extracts-total m (put k (text v) args) f
set_extracts-total ((k, v ∷ w ∷ vs) ∷ m) args (p, f) =
    set_extracts-total m (put k (texts (v ∷ w ∷ vs)) (indexed k 0 (v ∷ w ∷ vs) args)) f

note_events-total :
    (es : List StepEvent) (args : GoMap Value) (first : Bool)
    → All (λ (e : StepEvent). HasTexts e.operators_result) es
    → (args' : GoMap Value) × (first' : Bool) × (note_events es args first ≡ some (args', first'))
unfolding note_events
note_events-total [] args first h = (args, first, refl)
note_events-total (e ∷ es) args first (p, h) = elim (Option-cases e.operators_result) [
  | inl o ↦
      let (args', first', q) = note_events-total es args first h in
      (args', first', rw (note_events, o) q)
  | inr (r, o) ↦
      let (mid, s) = set_extracts-total r.extracts args (subst HasTexts o p) in
      let (args', first', q) = note_events-total es mid (first || ltb 0 e.results) h in
      (args', first', rw (note_events, o, s) q)
]

mark-results : (has_cache : Bool) (w : World) → (mark has_cache w).results ≡ w.results
unfolding mark
mark-results has_cache w = ground arith

module _ (has_cache : Bool) where
  run_noted-total :
      (xs : List Executer) (w : World) (first : Bool)
      → All GivesTexts xs
      → (w' : World) × (first' : Bool) × (run_noted has_cache xs w first ≡ some (w', first'))
        × (w'.results ≡ w.results)
  unfolding run_noted
  run_noted-total [] w first h = (w, first, refl, refl)
  run_noted-total (x ∷ xs) w first (g, h) =
      let (args, mid, s) =
        note_events-total (x.execute_with_results w.args).0 w.args first (g w.args) in
      let v : World = record w { args = args } in
      elim (Bool-cases (x.execute_with_results w.args).1) [
        | inl b ↦
            let (w', first', q, k) = run_noted-total xs (mark has_cache v) mid h in
            (w', first', rw (run_noted, s, b) q, k ∙ mark-results has_cache v)
        | inr b ↦
            let (w', first', q, k) = run_noted-total xs v mid h in
            (w', first', rw (run_noted, s, b) q, k)
      ]

  run_leaf-results :
      (xs : List Executer) (w : World) (first : Bool)
      → (run_leaf has_cache xs w first).0.results ≡ w.results
  unfolding run_leaf
  run_leaf-results [] w first = refl
  run_leaf-results (x ∷ xs) w first =
      run_leaf-results xs (if (x.execute w.args).1 then mark has_cache w else w)
        (first || (x.execute w.args).0)
      ∙ ground (arith, mark-results has_cache w)

  run_branches-results :
      (bs : Branches) (xs : List Executer) (w : World)
      → (run_branches bs xs w).0.results ≡ w.results
  unfolding run_branches
  run_branches-results bs [] w = refl
  run_branches-results bs (x ∷ xs) w =
      run_branches-results bs xs
        (record w { args = (branch_events bs (x.execute_with_results w.args).0 w.args).0 })

  run_body-total :
      (t : WorkflowTemplate) (w : World)
      → All GivesTexts (executers_of t)
      → (w' : World) × (started : List WorkflowTemplate) × (run_body has_cache t w
          ≡ some (w', started))
        × (w.results ≡ true → w'.results ≡ true)
  unfolding run_body
  run_body-total (template xs no_branches no_templates) w h =
      (_, _, refl, λ r. ground (arith, run_leaf-results xs w false, r))
  run_body-total (template xs no_branches (and_template t ts)) w h =
      let (w', first, q, k) = run_noted-total xs w false h in
      (w', (if first then t ∷ listed ts else []), rw (run_body, q) refl, λ r. k ∙ r)
  run_body-total (template xs (and_branch m ms bs) ts) w h =
      (_, _, refl, λ r. run_branches-results (and_branch m ms bs) xs w ∙ r)

module _ {G : Type 0} (add : G → Option G) (has_cache : Bool) where
  -- Where every extract of a result has a text, a step does not panic: the index `v[0]` for an extract
  -- of no or one text is in range. It returns, unless one of the calls of Add() for the steps that it
  -- starts does not return; and when it returns a result of the workflow that was found is kept.
  pub run_step-total :
      (t : WorkflowTemplate) (w : World) (g : G)
      → All GivesTexts (executers_of t)
      → (w' : World) × (started : List WorkflowTemplate) × (run_step add has_cache t w g
          ≡ elim (add_all add started g) [ none ↦ blocked | some g' ↦ returned w' g' started ])
        × (w.results ≡ true → w'.results ≡ true)
  unfolding run_step start_all
  run_step-total t w g h =
      let (w', started, q, k) = run_body-total has_cache t w h in
      (w', started, rw (run_step, q) refl, k)
