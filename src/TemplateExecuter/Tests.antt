-- ===== src/TemplateExecuter/Tests.antt =====
-- A template with two requests on a target.
use webapp_sec_tools.Prelude.{String, true, false, Option, none, some, List, [], ◌∷◌, ◌≡◌, refl}
use webapp_sec_tools.Prelude.GoMap.{put}
use webapp_sec_tools.Prelude.Strings.{join}
use webapp_sec_tools.Prelude.Value.{text}
use webapp_sec_tools.TemplateExecuter.ScanContext.{
  Event, ScanContext, new_scan_context, log_error, is_some, all_have_maps, AllTell, log_error-tells,
}
use webapp_sec_tools.TemplateExecuter.Generic.{
  Request, execute_requests, on_events, on_event, on_error, request_input, remember, values_of,
}
use webapp_sec_tools.TemplateExecuter.Execute.{
  result, failure, failure_outputs, event_outputs, Flow, finish, execute, on_result, is_internal,
  write_result, write_results, write_failure,
}
use webapp_sec_tools.TemplateExecuter.Writes.{Writes, execute-Writes}

abbrev quiet : Event
quiet = record {
  internal_event = some (("status", text "404") ∷ []);
  operators_result = none;
  results = [];
}

abbrev hit : Event
hit = record {
  internal_event = some [];
  operators_result = some (record { matched = true; matchers_internal = none });
  results = record { number = 3; error = "" } ∷ [];
}

abbrev sends : List (Option Event) → Option String → Request
sends events err = record {
  id = "first";
  is_done = none;
  transform = none;
  execute = λ input previous. (events, err);
}

abbrev two_requests : List Request
two_requests = sends (some quiet ∷ none ∷ []) (some "timeout") ∷ sends (some hit ∷ []) none ∷ []

execute_test :
    (execute none true false true "a.com" two_requests false ≡ ((true, none), result 3 ∷ []))
    × (execute none true false true "a.com" (sends (some quiet ∷ []) none ∷ []) false
        ≡ ((true, none), failure quiet ∷ []))
unfolding execute execute_requests on_events on_event on_error request_input remember values_of
    on_result is_internal write_result write_results write_failure failure_outputs event_outputs
    finish put
execute_test = (refl, refl)

abbrev flow : Flow
flow = record {
  create_error = none;
  compile_error = none;
  events = quiet ∷ [];
  sets_executed = true;
  error = none;
}

execute-Writes_example :
    Writes true false (execute (some flow) true false false "a.com" two_requests false)
execute-Writes_example = execute-Writes (some flow) true false false "a.com" two_requests false

abbrev hit_logged : ScanContext
hit_logged = record new_scan_context {
  with_events = true;
  errors = "reset" ∷ [];
  events = hit ∷ [];
  results = hit.results;
}

log_error-tells_example :
    (is_some (log_error (some "timeout") hit_logged) ≡ all_have_maps (hit ∷ []))
    × ((c' : ScanContext)
        → log_error (some "timeout") hit_logged ≡ some c'
        → (c'.errors ≡ "reset" ∷ "timeout" ∷ []) × AllTell (join "; " c'.errors) c'.results)
log_error-tells_example = log_error-tells "timeout" hit_logged
