-- ===== src/TemplateExecuter/Execute.antt =====
-- Execute() of pkg/tmplexec/exec.go with the generic engine or a flow, WriteResult() of
-- pkg/protocols/common/helpers/writer/writer.go and WriteFailure() of pkg/output/output.go. What is
-- written is what the writer's Write() is called on; its errors are logged only.
use Prim.Native.String.{◌++◌ as append}
use webapp_sec_tools.Prelude.{
  ℕ, String, Bool, true, false, not, ◌&&◌, ◌||◌, Option, none, some, List, [], ◌∷◌, ◌++◌,
  if◌then◌else◌,
}
use webapp_sec_tools.TemplateExecuter.ScanContext.{ResultEvent, Event, has_operator_result, has_map}
use webapp_sec_tools.TemplateExecuter.Generic.{Request, Run, execute_requests}

-- What goes to the output: a result, a result of a failure event, or an event without results.
pub data Output : Type 0 where
  result : ℕ → Output
  failed : ℕ → Output
  failure : Event → Output

-- The variables of the callback.
pub record Writing : Type 0 where
  pub matched : Bool
  pub last : Option Event
  pub written : List Output

-- WriteResult(): its flag, and what was written. Issues and the progress are left out.
unfoldable pub write_results : List ResultEvent → Bool → List Output → Bool × List Output
write_results [] matched written = (matched, written)
write_results (r ∷ rs) matched written = write_results rs true (written ++ result r.number ∷ [])

unfoldable pub write_result : Event → List Output → Bool × List Output
unfolding write_results
write_result e written =
    if not (has_operator_result e) then (false, written) else write_results e.results false written

unfoldable pub all_internal : List Bool → Bool
all_internal [] = true
all_internal (b ∷ bs) = if not b then false else all_internal bs

-- An event whose operators matched, all of their matchers internal.
unfoldable pub is_internal : Event → Bool
unfolding all_internal
is_internal e = elim e.operators_result [
  | none ↦ false
  | some r ↦ r.matched && elim r.matchers_internal [ none ↦ false | some bs ↦ all_internal bs ]
]

-- ctx.OnResult
unfoldable pub on_result : Event → Writing → Writing
unfolding is_internal write_result
on_result e w =
    if is_internal e
    then w
    else if not (has_operator_result e) && has_map e
    then record w { last = some e }
    else let (matched, written) = write_result e w.written in
      if matched
      then record w { matched = true; written = written }
      else record w { last = some e; written = written }

abbrev pub no_writing : Writing
no_writing = record { matched = false; last = none; written = [] }

-- WriteFailure(): the results of the event one by one, or else the event itself. The writer's field
-- `matcherStatus` is the option that writeFailureCallback() has tested.
unfoldable pub failed_results : List ResultEvent → List Output
failed_results [] = []
failed_results (r ∷ rs) = failed r.number ∷ failed_results rs

unfoldable pub event_outputs : Event → List ResultEvent → List Output
unfolding failed_results
event_outputs e [] = failure e ∷ []
event_outputs e (r ∷ rs) = failed_results (r ∷ rs)

unfoldable pub failure_outputs : Event → List Output
unfolding event_outputs
failure_outputs e = event_outputs e e.results

-- writeFailureCallback(), called for the last event where there is one: `executed`, and the output
unfoldable pub write_failure : Bool → Writing → Bool × List Output
unfolding failure_outputs
write_failure matcher_status w = elim w.last [
  | none ↦ (false, w.written)
  | some e ↦
      if not w.matched && matcher_status
      then (true, w.written ++ failure_outputs e)
      else (false, w.written)
]

-- The run before the first request. `found_before` is the flag of the engine, which lives as long as
-- the template.
abbrev pub fresh_run : Bool → Run Writing
fresh_run found_before = record {
  previous = [];
  results = found_before;
  callback = no_writing;
  errors = [];
  marked = 0;
}

-- The flow executor of a template with a flow, as Execute() sees it: the errors of NewFlowExecutor() and
-- Compile(), and of ExecuteWithResults() the events that it logs, whether it sets `executed`, and its
-- error.
pub record Flow : Type 0 where
  pub create_error : Option String
  pub compile_error : Option String
  pub events : List Event
  pub sets_executed : Bool
  pub error : Option String

unfoldable pub log_events : List Event → Writing → Writing
unfolding on_result
log_events [] w = w
log_events (e ∷ es) w = log_events es (on_result e w)

-- What stands behind the engine or the flow.
unfoldable pub finish : Bool → Bool → Option String → Writing → (Bool × Option String) × List Output
unfolding write_failure
finish matcher_status executed err w =
    let (failed_now, written) = write_failure matcher_status w in
    ((executed || failed_now || w.matched, err), written)

unfoldable pub execute_flow : Bool → Flow → (Bool × Option String) × List Output
unfolding finish log_events
execute_flow matcher_status f = elim f.create_error [
  | some e ↦ ((false, some (append "could not create flow executor: " e)), [])
  | none ↦ elim f.compile_error [
    | some e ↦ ((false, some e), [])
    | none ↦ finish matcher_status f.sets_executed f.error (log_events f.events no_writing)
  ]
]

-- Execute(): its flag and error, and the output. The errors that are logged into the context of the scan
-- are left out.
unfoldable pub execute :
    Option Flow
    → Bool
    → Bool
    → Bool
    → String
    → List Request
    → Bool
    → (Bool × Option String) × List Output
unfolding execute_requests on_result finish execute_flow
execute flow has_cache stop_at_first_match matcher_status input requests found_before = elim flow [
  | some f ↦ execute_flow matcher_status f
  | none ↦
      let (err, r) =
        execute_requests on_result has_cache stop_at_first_match input requests
          (fresh_run found_before) in
      finish matcher_status false err r.callback
]
