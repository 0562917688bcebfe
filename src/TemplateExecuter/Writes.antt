-- ===== src/TemplateExecuter/Writes.antt =====
-- What Execute() of pkg/tmplexec/exec.go writes and returns.
use webapp_sec_tools.Prelude.{
  ltb, ℕ, ◌+◌, String, Bool, true, false, not, ◌&&◌, ◌||◌, Option, none, some, List, [], ◌∷◌, ◌++◌,
  ◌≡◌, refl, sym, ◌∙◌, arith, Bool-cases, Option-cases, inl, inr,
}
use webapp_sec_tools.TemplateExecuter.ScanContext.{ResultEvent, Event, has_operator_result, has_map}
use webapp_sec_tools.TemplateExecuter.Generic.{
  Request, Run, on_event, on_events, on_error, request_input, execute_requests,
}
use webapp_sec_tools.TemplateExecuter.Execute.{
  Output, result, failed, failure, failed_results, event_outputs, failure_outputs, Flow, log_events,
  finish, execute_flow, no_writing, Writing, write_results, write_result, is_internal, on_result,
  fresh_run, write_failure, execute,
}

abbrev pub some_result : List Output → Bool
some_result [] = false
some_result (result n ∷ ws) = true
some_result (failed n ∷ ws) = some_result ws
some_result (failure e ∷ ws) = some_result ws

abbrev pub failures : List Output → ℕ
failures [] = 0
failures (result n ∷ ws) = failures ws
failures (failed n ∷ ws) = failures ws + 1
failures (failure e ∷ ws) = failures ws + 1

abbrev pub some_output : List Output → Bool
some_output [] = false
some_output (w ∷ ws) = true

append-result :
    (ws : List Output) (n : ℕ)
    → (some_result (ws ++ result n ∷ []) ≡ true) × (failures (ws ++ result n ∷ []) ≡ failures ws)
append-result [] n = (refl, refl)
append-result (result m ∷ ws) n = (refl, (append-result ws n).1)
append-result (failed m ∷ ws) n = ((append-result ws n).0, omega (arith, (append-result ws n).1))
append-result (failure e ∷ ws) n = ((append-result ws n).0, omega (arith, (append-result ws n).1))

some_result-append :
    (ws vs : List Output) → some_result (ws ++ vs) ≡ (some_result ws || some_result vs)
some_result-append [] vs = refl
some_result-append (result n ∷ ws) vs = refl
some_result-append (failed n ∷ ws) vs = some_result-append ws vs
some_result-append (failure e ∷ ws) vs = some_result-append ws vs

some_output-append : (ws vs : List Output) → some_output vs ≡ true → some_output (ws ++ vs) ≡ true
some_output-append [] vs h = h
some_output-append (w ∷ ws) vs h = refl

failed_results-none : (rs : List ResultEvent) → some_result (failed_results rs) ≡ false
unfolding failed_results
failed_results-none [] = refl
failed_results-none (r ∷ rs) = failed_results-none rs

event_outputs_lem :
    (e : Event) (rs : List ResultEvent)
    → (some_result (event_outputs e rs) ≡ false) × (some_output (event_outputs e rs) ≡ true)
unfolding event_outputs failed_results
event_outputs_lem e [] = (refl, refl)
event_outputs_lem e (r ∷ rs) = (failed_results-none rs, refl)

failure_outputs_lem :
    (e : Event)
    → (some_result (failure_outputs e) ≡ false) × (some_output (failure_outputs e) ≡ true)
unfolding failure_outputs
failure_outputs_lem e = event_outputs_lem e e.results

-- While the events come in, results only are written, and the flag tells that some were.
abbrev pub Consistent : Writing → Type 0
Consistent w = (w.matched ≡ some_result w.written) × (failures w.written ≡ 0)

abbrev some_of : List ResultEvent → Bool
some_of [] = false
some_of (r ∷ rs) = true

write_results-Consistent :
    (rs : List ResultEvent) (b : Bool) (ws : List Output)
    → failures ws ≡ 0
    → ((write_results rs b ws).0 ≡ (b || some_of rs))
      × (some_result (write_results rs b ws).1 ≡ (some_result ws || some_of rs))
      × (failures (write_results rs b ws).1 ≡ 0)
unfolding write_results
write_results-Consistent [] b ws h = (ground arith, ground arith, h)
write_results-Consistent (r ∷ rs) b ws h =
    let (p, q) = append-result ws r.number in
    let (f, s, z) = write_results-Consistent rs true (ws ++ result r.number ∷ []) (q ∙ h) in
    (ground (arith, f), ground (arith, s, p), z)

write_result-Consistent :
    (e : Event) (ws : List Output)
    → failures ws ≡ 0
    → (some_result (write_result e ws).1 ≡ (some_result ws || (write_result e ws).0))
      × (failures (write_result e ws).1 ≡ 0)
unfolding write_result
write_result-Consistent e ws h = elim (Bool-cases (has_operator_result e)) [
  | inl o ↦
      let (f, s, z) = write_results-Consistent e.results false ws h in
      rw (write_result, o) (ground (arith, f, s), z)
  | inr o ↦ rw (write_result, o) (ground arith, h)
]

on_result-Consistent : (e : Event) (w : Writing) → Consistent w → Consistent (on_result e w)
unfolding on_result
on_result-Consistent e w (m, f) = elim (Bool-cases (is_internal e)) [
  | inl i ↦ rw (on_result, i) (m, f)
  | inr i ↦ elim (Bool-cases (not (has_operator_result e) && has_map e)) [
    | inl o ↦ rw (on_result, i, o) (m, f)
    | inr o ↦
        let (s, z) = write_result-Consistent e w.written f in
        elim (Bool-cases (write_result e w.written).0) [
          | inl b ↦ rw (on_result, i, o, b) (ground (arith, s, b), z)
          | inr b ↦ rw (on_result, i, o, b) (ground (arith, s, b, m), z)
        ]
  ]
]

module _ (has_cache stop : Bool) where
  on_events-Consistent :
      (id : String) (es : List (Option Event)) (r : Run Writing)
      → Consistent r.callback
      → Consistent (on_events on_result has_cache stop id es r).callback
  unfolding on_events on_event
  on_events-Consistent id [] r c = c
  on_events-Consistent id (none ∷ es) r c = on_events-Consistent id es r c
  on_events-Consistent id (some e ∷ es) r c =
      on_events-Consistent id es (on_event on_result has_cache stop id (some e) r)
        (on_result-Consistent e r.callback c)

  on_error-Consistent :
      (err : Option String) (r : Run Writing)
      → Consistent r.callback
      → Consistent (on_error on_result has_cache stop err r).callback
  unfolding on_error
  on_error-Consistent none r c = c
  on_error-Consistent (some e) r c = c

  execute_requests-Consistent :
      (input : String) (qs : List Request) (r : Run Writing)
      → Consistent r.callback
      → Consistent (execute_requests on_result has_cache stop input qs r).1.callback
  unfolding execute_requests
  execute_requests-Consistent input [] r c = c
  execute_requests-Consistent input (q ∷ qs) r c = elim (Option-cases q.is_done) [
    | inr (e, d) ↦ rw (execute_requests, d) c
    | inl d ↦ elim (Option-cases (request_input on_result has_cache stop input q)) [
      | inl i ↦ rw (execute_requests, d, i) c
      | inr (item, i) ↦
          let (es, err) = q.execute item r.previous in
          let r' =
            on_error on_result has_cache stop err (on_events on_result has_cache stop q.id es r) in
          let c' = on_error-Consistent err _ (on_events-Consistent q.id es r c) in
          elim (Bool-cases (r'.results && stop)) [
            | inl b ↦ rw (execute_requests, d, i, b) c'
            | inr b ↦ rw (execute_requests, d, i, b) (execute_requests-Consistent input qs r' c')
          ]
    ]
  ]

some_output-results : (ws : List Output) → failures ws ≡ 0 → some_output ws ≡ some_result ws
some_output-results [] f = refl
some_output-results (result n ∷ ws) f = refl
some_output-results (failed n ∷ ws) f = ground (arith, f)
some_output-results (failure e ∷ ws) f = ground (arith, f)

write_failure_lem :
    (matcher_status : Bool) (w : Writing)
    → Consistent w
    → (((write_failure matcher_status w).0 || w.matched)
        ≡ some_output (write_failure matcher_status w).1)
      × (some_result (write_failure matcher_status w).1 ≡ true
          → failures (write_failure matcher_status w).1 ≡ 0)
      × (matcher_status ≡ false → failures (write_failure matcher_status w).1 ≡ 0)
unfolding write_failure
write_failure_lem matcher_status w (m, f) = elim (Option-cases w.last) [
  | inl o ↦ rw (write_failure, o) (m ∙ sym (some_output-results w.written f), λ h. f, λ h. f)
  | inr (e, o) ↦ elim (Bool-cases (not w.matched && matcher_status)) [
    | inl b ↦
        let (r, s) = failure_outputs_lem e in
        rw (write_failure, o, b)
          (
            sym (some_output-append w.written (failure_outputs e) s),
            λ h. ground (arith, b, m, r, some_result-append w.written (failure_outputs e), h),
            λ h. ground (arith, b, h),
          )
    | inr b ↦ rw (write_failure, o, b) (m ∙ sym (some_output-results w.written f), λ h. f, λ h. f)
  ]
]

-- What is stated of the flag and the output, where `others` are what the flow says of itself.
abbrev pub Writes : Bool → Bool → (Bool × Option String) × List Output → Type 0
Writes others matcher_status ((flag, err), written) =
    (flag ≡ (others || some_output written))
    × ((some_result written && ltb 0 (failures written)) ≡ false)
    × ((not matcher_status && ltb 0 (failures written)) ≡ false)

finish-Writes :
    (matcher_status executed : Bool) (err : Option String) (w : Writing)
    → Consistent w
    → Writes executed matcher_status (finish matcher_status executed err w)
unfolding finish
finish-Writes matcher_status executed err w c =
    let (f, s, n) = write_failure_lem matcher_status w c in
    (ground (arith, f), ground (arith, s), ground (arith, n))

log_events-Consistent :
    (es : List Event) (w : Writing) → Consistent w → Consistent (log_events es w)
unfolding log_events
log_events-Consistent [] w c = c
log_events-Consistent (e ∷ es) w c =
    log_events-Consistent es (on_result e w) (on_result-Consistent e w c)

-- Whether a flow runs, and sets `executed`.
abbrev pub flow_executed : Option Flow → Bool
flow_executed none = false
flow_executed (some f) = elim f.create_error [
  | some e ↦ false
  | none ↦ elim f.compile_error [ some e ↦ false | none ↦ f.sets_executed ]
]

-- Execute() returns true just where something was written to the output or a flow that runs has set
-- `executed`. Where a result was written no failure is, and without the option for the matchers' status
-- there is none either.
pub execute-Writes :
    (flow : Option Flow) (has_cache stop_at_first_match matcher_status : Bool) (input : String)
    (requests : List Request) (found_before : Bool)
    → Writes
        (flow_executed flow)
        matcher_status
        (execute flow has_cache stop_at_first_match matcher_status input requests found_before)
unfolding execute execute_flow
execute-Writes none has_cache stop_at_first_match matcher_status input requests found_before =
    let (err, r) =
      execute_requests on_result has_cache stop_at_first_match input requests
        (fresh_run found_before) in
    finish-Writes matcher_status false err r.callback (
      execute_requests-Consistent has_cache stop_at_first_match input requests
        (fresh_run found_before) (refl, refl))
execute-Writes (some f) has_cache stop_at_first_match matcher_status input requests found_before =
    elim (Option-cases f.create_error) [
      | inr (e, c) ↦ rw (flow_executed, execute_flow, c) (refl, refl, ground arith)
      | inl c ↦ elim (Option-cases f.compile_error) [
        | inr (e, d) ↦ rw (flow_executed, execute_flow, c, d) (refl, refl, ground arith)
        | inl d ↦
            rw (flow_executed, execute_flow, c, d)
              (finish-Writes matcher_status f.sets_executed f.error (log_events f.events no_writing)
                (log_events-Consistent f.events no_writing (refl, refl)))
      ]
    ]
