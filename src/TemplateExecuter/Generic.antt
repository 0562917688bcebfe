-- ===== src/TemplateExecuter/Generic.antt =====
-- The generic engine of pkg/tmplexec/generic/exec.go. A request is what its protocol does with the values
-- of the previous requests: the events that it gives to the callback, some of them nil, and an error.
use Prim.Native.String.{◌++◌ as append}
use webapp_sec_tools.Prelude.{
  ℕ, ◌+◌, String, Bool, ◌&&◌, ◌||◌, Option, none, some, List, [], ◌∷◌, ◌++◌, str_eq, if◌then◌else◌,
}
use webapp_sec_tools.Prelude.GoMap.{GoMap, put}
use webapp_sec_tools.Prelude.Value.{Value}
use webapp_sec_tools.TemplateExecuter.ScanContext.{Event, has_operator_result}

-- `is_done` is a context that is done by the time of the request, `input` the target's text, and
-- `transform` the input helper's Transform() for the request's protocol, where there is a helper.
pub record Request : Type 0 where
  pub id : String
  pub is_done : Option String
  pub transform : Option (String → String)
  pub execute : String → GoMap Value → List (Option Event) × Option String

-- `log` is what ctx.LogEvent() does to the state of its callback; `marked` counts the calls of
-- HostErrorsCache.MarkFailed().
pub record Run (S : Type 0) : Type 0 where
  pub previous : GoMap Value
  pub results : Bool
  pub callback : S
  pub errors : List String
  pub marked : ℕ

-- previous.Set(ID + "_" + k, v)
unfoldable pub remember : String → GoMap Value → GoMap Value → GoMap Value
unfolding put
remember id [] previous = previous
remember id ((k, v) ∷ m) previous = remember id m (put (append id (append "_" k)) v previous)

unfoldable pub values_of : Event → GoMap Value
values_of e = elim e.internal_event [ none ↦ [] | some m ↦ m ]

module _ {S : Type 0} (log : Event → S → S) (has_cache stop_at_first_match : Bool) where
  -- The callback of a request.
  unfoldable pub on_event : String → Option Event → Run S → Run S
  unfolding remember values_of
  on_event id none r = r
  on_event id (some e) r = record r {
    previous = if str_eq id "" then r.previous else remember id (values_of e) r.previous;
    results = r.results || has_operator_result e;
    callback = log e r.callback;
  }

  unfoldable pub on_events : String → List (Option Event) → Run S → Run S
  unfolding on_event
  on_events id [] r = r
  on_events id (e ∷ es) r = on_events id es (on_event id e r)

  unfoldable pub on_error : Option String → Run S → Run S
  on_error none r = r
  on_error (some err) r = record r {
    errors = r.errors ++ err ∷ [];
    marked = if has_cache then r.marked + 1 else r.marked;
  }

  -- The input of a request: `none` where the helper gives an empty text, which ends the run.
  unfoldable pub request_input : String → Request → Option String
  request_input input q = elim q.transform [
    | none ↦ some input
    | some f ↦
        if str_eq input "" then some input else if str_eq (f input) "" then none else some (f input)
  ]

  -- ExecuteWithResults(): the error of a context that is done, and the run
  unfoldable pub execute_requests : String → List Request → Run S → Option String × Run S
  unfolding on_events on_error request_input
  execute_requests input [] r = (none, r)
  execute_requests input (q ∷ qs) r = elim q.is_done [
    | some err ↦ (some err, r)
    | none ↦ elim (request_input input q) [
      | none ↦ (none, r)
      | some item ↦
          let (events, err) = q.execute item r.previous in
          let r' = on_error err (on_events q.id events r) in
          let rest = execute_requests input qs r' in
          if r'.results && stop_at_first_match then (none, r') else rest
    ]
  ]
