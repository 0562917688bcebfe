-- ===== src/Operators/Outcome.antt =====
-- What Execute() of pkg/operators/operators.go reports: its flag, and the verdict of operators.
use mathlib.Core.Bool.{true≢false}
use webapp_sec_tools.Prelude.{
  ℕ, ◌+◌, String, Bool, true, false, not, ◌&&◌, ◌||◌, Option, none, some, List, [], ◌∷◌, ◌++◌, ◌≡◌,
  refl, ap, ◌∙◌, str_eq, arith, Bool-cases, Option-cases, inl, inr, All,
}
use webapp_sec_tools.Prelude.GoMap.{GoMap, lookup, put}
use webapp_sec_tools.Prelude.GoSet.{has}
use webapp_sec_tools.Prelude.Value.{Value, text, texts}
use webapp_sec_tools.Matchers.Types.{ConditionType, is_and, Matcher}
use webapp_sec_tools.Operators.Types.{Extractor, Operators, Result}
use webapp_sec_tools.Operators.Execute.{
  is_nil, expose, indexed, merge_maps, Extraction, Matching, add_extract, add_extracts,
  run_extractor, run_extractors, is_excluded, record_match, run_matchers, conclude, extracted,
  matcher_env, execute, empty_result,
}

abbrev pub present {ℓ} : {A : Type ℓ} → Option A → Bool
present none = false
present (some a) = true

-- Every entry of a map has a text.
abbrev pub Filled : GoMap (List String) → Type 0
Filled = All (λ (k, v). is_nil v ≡ false)

-- The fields that the loop over the matchers leaves.
abbrev Kept : Result → Result → Type 0
Kept r s =
    (r.dynamic_values ≡ s.dynamic_values)
    × (r.extracts ≡ s.extracts)
    × (r.output_extracts ≡ s.output_extracts)

put-Filled :
    (k : String) (v : List String) (m : GoMap (List String))
    → is_nil v ≡ false
    → Filled m
    → Filled (put k v m)
unfolding put
put-Filled k v [] h f = (h, tt)
put-Filled k v ((j, w) ∷ m) h (p, f) = elim (Bool-cases (str_eq j k)) [
  | inl e ↦ rw e (h, f)
  | inr e ↦ rw e (p, put-Filled k v m h f)
]

append-is_nil : (vs : List String) (v : String) → is_nil (vs ++ v ∷ []) ≡ false
append-is_nil [] v = refl
append-is_nil (w ∷ vs) v = refl

expose-total :
    (ds : GoMap (List String)) (m : GoMap Value)
    → Filled ds
    → (d : GoMap Value) × (expose ds m ≡ some d)
unfolding expose
expose-total [] m f = (m, refl)
expose-total ((name, []) ∷ ds) m (p, f) = absurd (true≢false p)
expose-total ((name, v ∷ []) ∷ ds) m (p, f) = expose-total ds (put name (text v) m) f
expose-total ((name, v ∷ w ∷ vs) ∷ ds) m (p, f) =
    expose-total ds (put name (texts (v ∷ w ∷ vs)) (indexed name 0 (v ∷ w ∷ vs) m)) f

module _ {Regex Dsl : Type 0} where
  record_match-keeps :
      (c : ConditionType) (dbg : Bool) (i : ℕ) (m : Matcher Regex Dsl) (snippets : List String)
      (r : Result)
      → Kept (record_match c dbg i m snippets r) r
  unfolding record_match
  record_match-keeps c dbg i m snippets r = ground arith

module _ {Regex Dsl Json : Type 0} where
  add_extract-Filled :
      (e : Extractor Regex Dsl Json) (found : String) (r : Result)
      → Filled r.dynamic_values
      → Filled (add_extract e found r).dynamic_values
  unfolding add_extract
  add_extract-Filled e found r f = elim (Bool-cases e.internal) [
    | inl i ↦ rw i (elim (Option-cases (lookup e.name r.dynamic_values)) [
      | inl o ↦ rw o (put-Filled e.name (found ∷ []) r.dynamic_values refl f)
      | inr (vs, o) ↦
          rw o (put-Filled e.name (vs ++ found ∷ []) r.dynamic_values (append-is_nil vs found) f)
    ])
    | inr i ↦ elim (Bool-cases (has found r.output_unique)) [
      | inl h ↦ rw (i, h) f
      | inr h ↦ rw (i, h) f
    ]
  ]

  add_extracts-Filled :
      (e : Extractor Regex Dsl Json) (found : List String) (r : Result)
      → Filled r.dynamic_values
      → Filled (add_extracts e found r).dynamic_values
  unfolding add_extracts
  add_extracts-Filled e [] r f = f
  add_extracts-Filled e (x ∷ xs) r f =
      add_extracts-Filled e xs (add_extract e x r) (add_extract-Filled e x r f)

  run_extractor-Filled :
      (e : Extractor Regex Dsl Json) (found : List String) (s : Extraction)
      → Filled s.result.dynamic_values
      → Filled (run_extractor e found s).result.dynamic_values
  unfolding run_extractor
  run_extractor-Filled e found s f =
      elim (Bool-cases (not (is_nil found) && not e.internal && not (str_eq e.name ""))) [
        | inl h ↦ rw h (add_extracts-Filled e found s.result f)
        | inr h ↦ rw h (add_extracts-Filled e found s.result f)
      ]

  run_extractors-Filled :
      (extract : GoMap Value → Extractor Regex Dsl Json → List String)
      (es : List (Extractor Regex Dsl Json)) (s : Extraction)
      → Filled s.result.dynamic_values
      → Filled (run_extractors extract es s).result.dynamic_values
  unfolding run_extractors
  run_extractors-Filled extract [] s f = f
  run_extractors-Filled extract (e ∷ es) s f =
      run_extractors-Filled extract es (run_extractor e (extract s.env e) s)
        (run_extractor-Filled e (extract s.env e) s f)

  -- The data for the matchers is always built: no entry of the dynamic values is without a text.
  matcher_env-total :
      (ops : Operators Regex Dsl Json) (env : GoMap Value)
      (extract : GoMap Value → Extractor Regex Dsl Json → List String)
      → (d : GoMap Value) × (matcher_env (extracted ops env extract) ≡ some d)
  unfolding matcher_env extracted
  matcher_env-total ops env extract =
      let s =
        run_extractors extract ops.extractors
          (record { env = env; result = empty_result; all_internal = true }) in
      elim (Bool-cases (is_nil s.result.dynamic_values)) [
        | inl h ↦ rw h (s.env, refl)
        | inr h ↦
            let (d, e) =
              expose-total s.result.dynamic_values []
                (run_extractors-Filled extract ops.extractors _ tt) in
            rw (h, e) (merge_maps (s.env ∷ d ∷ []) [], refl)
      ]

  -- The verdict over the matchers that are not excluded.
  abbrev pub some_live :
      Operators Regex Dsl Json
      → (Matcher Regex Dsl → Bool × List String)
      → List (Matcher Regex Dsl)
      → Bool
  some_live ops hit [] = false
  some_live ops hit (m ∷ ms) = not (is_excluded ops m) && (hit m).0 || some_live ops hit ms

  abbrev pub all_live :
      Operators Regex Dsl Json
      → (Matcher Regex Dsl → Bool × List String)
      → List (Matcher Regex Dsl)
      → Bool
  all_live ops hit [] = true
  all_live ops hit (m ∷ ms) = (is_excluded ops m || (hit m).0) && all_live ops hit ms

  -- Under `and` a matcher that does not hit ends the loop.
  run_matchers-failed :
      (ops : Operators Regex Dsl Json) (hit : Matcher Regex Dsl → Bool × List String) (dbg : Bool)
      (i : ℕ) (ms : List (Matcher Regex Dsl)) (s : Matching)
      → s.failed ≡ false
      → (run_matchers ops hit dbg i ms s).failed
        ≡ (is_and ops.condition && not (all_live ops hit ms))
  unfolding run_matchers
  run_matchers-failed ops hit dbg i [] s h = ground arith
  run_matchers-failed ops hit dbg i (m ∷ ms) s h = ground (
    arith,
    run_matchers-failed ops hit dbg (i + 1) ms s h,
    run_matchers-failed ops hit dbg (i + 1) ms
        (record {
          result = record_match ops.condition dbg i m (hit m).1 s.result;
          matches = true;
          failed = s.failed;
        })
        h,
  )

  run_matchers-matches :
      (ops : Operators Regex Dsl Json) (hit : Matcher Regex Dsl → Bool × List String) (dbg : Bool)
      (i : ℕ) (ms : List (Matcher Regex Dsl)) (s : Matching)
      → (run_matchers ops hit dbg i ms s).failed ≡ false
      → (run_matchers ops hit dbg i ms s).matches ≡ (s.matches || some_live ops hit ms)
  unfolding run_matchers
  run_matchers-matches ops hit dbg i [] s h = ground arith
  run_matchers-matches ops hit dbg i (m ∷ ms) s h = ground (
    arith,
    run_matchers-matches ops hit dbg (i + 1) ms s,
    run_matchers-matches ops hit dbg (i + 1) ms (record {
      result = record_match ops.condition dbg i m (hit m).1 s.result;
      matches = true;
      failed = s.failed;
    }),
  )

  -- The loop over the matchers writes the matches only.
  run_matchers-keeps :
      (ops : Operators Regex Dsl Json) (hit : Matcher Regex Dsl → Bool × List String) (dbg : Bool)
      (i : ℕ) (ms : List (Matcher Regex Dsl)) (s : Matching)
      → Kept (run_matchers ops hit dbg i ms s).result s.result
  unfolding run_matchers
  run_matchers-keeps ops hit dbg i [] s = (refl, refl, refl)
  run_matchers-keeps ops hit dbg i (m ∷ ms) s = ground (
    arith,
    run_matchers-keeps ops hit dbg (i + 1) ms s,
    record_match-keeps ops.condition dbg i m (hit m).1 s.result,
    run_matchers-keeps ops hit dbg (i + 1) ms (record {
      result = record_match ops.condition dbg i m (hit m).1 s.result;
      matches = true;
      failed = s.failed;
    }),
  )

  -- The verdict of all operators: dynamic values always report; else no live matcher may fail under
  -- `and`, and some live matcher hit or, where there are no matchers at all, a text was extracted.
  abbrev pub reports :
      Operators Regex Dsl Json → (Matcher Regex Dsl → Bool × List String) → Result → Bool
  reports ops hit found =
      not (is_nil found.dynamic_values)
      || not (is_and ops.condition && not (all_live ops hit ops.matchers))
        && (some_live ops hit ops.matchers
            || is_nil ops.matchers
              && (not (is_nil found.extracts) || not (is_nil found.output_extracts)))

  conclude-flag :
      (ops : Operators Regex Dsl Json) (internal : Bool) (s : Matching)
      → (conclude ops internal s).1 ≡ (
          not (is_nil s.result.dynamic_values)
          || not s.failed
            && (s.matches
                || is_nil ops.matchers
                  && (not (is_nil s.result.extracts) || not (is_nil s.result.output_extracts))))
  unfolding conclude
  conclude-flag ops internal s = ground arith

  conclude-reports :
      (ops : Operators Regex Dsl Json) (hit : Matcher Regex Dsl → Bool × List String)
      (dbg internal : Bool) (found : Result)
      → (conclude ops internal (
          run_matchers ops hit dbg 0 ops.matchers
            (record { result = found; matches = false; failed = false }))).1
        ≡ reports ops hit found
  conclude-reports ops hit dbg internal found =
      let start : Matching = record { result = found; matches = false; failed = false } in
      let s = run_matchers ops hit dbg 0 ops.matchers start in
      let (kd, ke, ko) = run_matchers-keeps ops hit dbg 0 ops.matchers start in
      let kf = run_matchers-failed ops hit dbg 0 ops.matchers start refl in
      let km = run_matchers-matches ops hit dbg 0 ops.matchers start in
      conclude-flag ops internal s ∙ ground (arith, kd, ke, ko, kf, km)

  -- A flag that is true stands with a result.
  conclude-present :
      (ops : Operators Regex Dsl Json) (internal : Bool) (s : Matching)
      → (conclude ops internal s).1 ≡ true
      → present (conclude ops internal s).0 ≡ true
  unfolding conclude
  conclude-present ops internal s h = ground (arith, h)

  module _ (ops : Operators Regex Dsl Json) (env : GoMap Value)
      (match : GoMap Value → Matcher Regex Dsl → Bool × List String)
      (extract : GoMap Value → Extractor Regex Dsl Json → List String) (is_debug : Bool) where
    pub execute-present :
        (d : GoMap Value) × (r : Option Result) × (matcher_env (extracted ops env extract) ≡ some d)
        × (execute ops env match extract is_debug
            ≡ some (
              r,
              reports ops (match d) (extracted ops env extract).result,
              (extracted ops env extract).env,
            ))
        × (reports ops (match d) (extracted ops env extract).result ≡ true → present r ≡ true)
    unfolding execute
    execute-present =
        let s = extracted ops env extract in
        let (d, e) = matcher_env-total ops env extract in
        let start : Matching = record { result = s.result; matches = false; failed = false } in
        let m = run_matchers ops (match d) is_debug 0 ops.matchers start in
        let same = conclude-reports ops (match d) is_debug s.all_internal s.result in
        (
          d,
          (conclude ops s.all_internal m).0,
          e,
          rw (execute, e) (ap (λ b. some ((conclude ops s.all_internal m).0, b, s.env)) same),
          λ h. conclude-present ops s.all_internal m (same ∙ h),
        )

  -- Execute() does not panic where the match and extract functions do not, whatever the extractors find;
  -- its flag is the verdict over the matchers that are not excluded, run on the data with the dynamic
  -- values, and where the flag is true the result is not nil.
  pub execute-reports :
      (ops : Operators Regex Dsl Json) (env : GoMap Value)
      (match : GoMap Value → Matcher Regex Dsl → Bool × List String)
      (extract : GoMap Value → Extractor Regex Dsl Json → List String) (is_debug : Bool)
      → (d : GoMap Value) × (r : Option Result) × (matcher_env (extracted ops env extract) ≡ some d)
        × (execute ops env match extract is_debug
            ≡ some (
              r,
              reports ops (match d) (extracted ops env extract).result,
              (extracted ops env extract).env,
            ))
        × ((reports ops (match d) (extracted ops env extract).result && not (present r)) ≡ false)
  execute-reports ops env match extract is_debug =
      let (d, r, e, q, h) = execute-present ops env match extract is_debug in
      (d, r, e, q, ground (arith, h))
