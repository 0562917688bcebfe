-- ===== src/Operators/Extracts.antt =====
-- The texts that the extractors of Execute() in pkg/operators/operators.go put out, and EvalBoolSlice().
use webapp_sec_tools.Prelude.{
  String, Bool, true, false, not, ◌&&◌, ◌||◌, List, [], ◌∷◌, ◌≡◌, refl, str_eq, if◌then◌else◌,
  arith, Bool-cases, inl, inr,
}
use webapp_sec_tools.Prelude.GoMap.{GoMap}
use webapp_sec_tools.Prelude.GoSet.{has, has-eq}
use webapp_sec_tools.Prelude.Value.{Value}
use webapp_sec_tools.Operators.Types.{Extractor, Operators, Result}
use webapp_sec_tools.Operators.Execute.{
  Extraction, add_extract, add_extracts, run_extractor, run_extractors, extracted, is_nil,
  empty_result,
}
use webapp_sec_tools.Operators.Merge.{eval_bools, eval_bool_slice}
use webapp_sec_tools.Operators.MergeOutput.{Agree, step-Agree, no_repeat, has-append}

module _ {Regex Dsl Json : Type 0} where
  add_extract-Agree :
      (e : Extractor Regex Dsl Json) (found : String) (r : Result)
      → Agree (r.output_extracts, r.output_unique)
      → Agree ((add_extract e found r).output_extracts, (add_extract e found r).output_unique)
  unfolding add_extract
  add_extract-Agree e found r a = elim (Bool-cases e.internal) [
    | inl i ↦ rw i a
    | inr i ↦ elim (Bool-cases (has found r.output_unique)) [
      | inl h ↦ rw (i, h) a
      | inr h ↦ rw (i, h) (step-Agree r.output_extracts r.output_unique found a h)
    ]
  ]

  -- An extractor that is not internal puts out what it finds.
  add_extract-has :
      (e : Extractor Regex Dsl Json) (found x : String) (r : Result)
      → Agree (r.output_extracts, r.output_unique)
      → has x (add_extract e found r).output_extracts
        ≡ (has x r.output_extracts || not e.internal && str_eq found x)
  unfolding add_extract has
  add_extract-has e found x r (a, n) = ground (
    arith,
    has-append x r.output_extracts (found ∷ []),
    a x,
    a found,
    has-eq found x r.output_unique,
  )

  add_extracts-Agree :
      (e : Extractor Regex Dsl Json) (found : List String) (x : String) (r : Result)
      → Agree (r.output_extracts, r.output_unique)
      → Agree ((add_extracts e found r).output_extracts, (add_extracts e found r).output_unique)
        × (has x (add_extracts e found r).output_extracts
            ≡ (has x r.output_extracts || not e.internal && has x found))
  unfolding add_extracts has
  add_extracts-Agree e [] x r a = (a, ground arith)
  add_extracts-Agree e (f ∷ found) x r a =
      let (b, h) = add_extracts-Agree e found x (add_extract e f r) (add_extract-Agree e f r a) in
      (b, ground (arith, h, add_extract-has e f x r a))

  run_extractor-outputs :
      (e : Extractor Regex Dsl Json) (found : List String) (s : Extraction)
      → ((run_extractor e found s).result.output_extracts
          ≡ (add_extracts e found s.result).output_extracts)
        × ((run_extractor e found s).result.output_unique
            ≡ (add_extracts e found s.result).output_unique)
  unfolding run_extractor
  run_extractor-outputs e found s = ground arith

  -- Some extractor that is not internal finds the text, on the data as the ones before have left it.
  abbrev pub put_out :
      (GoMap Value → Extractor Regex Dsl Json → List String)
      → String
      → List (Extractor Regex Dsl Json)
      → Extraction
      → Bool
  put_out extract x [] s = false
  put_out extract x (e ∷ es) s =
      not e.internal && has x (extract s.env e)
      || put_out extract x es (run_extractor e (extract s.env e) s)

  run_extractors-Agree :
      (extract : GoMap Value → Extractor Regex Dsl Json → List String) (x : String)
      (es : List (Extractor Regex Dsl Json)) (s : Extraction)
      → Agree (s.result.output_extracts, s.result.output_unique)
      → Agree (
        (run_extractors extract es s).result.output_extracts,
        (run_extractors extract es s).result.output_unique,
      )
        × (has x (run_extractors extract es s).result.output_extracts
            ≡ (has x s.result.output_extracts || put_out extract x es s))
  unfolding run_extractors
  run_extractors-Agree extract x [] s a = (a, ground arith)
  run_extractors-Agree extract x (e ∷ es) s a =
      let s' = run_extractor e (extract s.env e) s in
      let (o, u) = run_extractor-outputs e (extract s.env e) s in
      let (b, h) = add_extracts-Agree e (extract s.env e) x s.result a in
      let b' : Agree (s'.result.output_extracts, s'.result.output_unique) = rw (o, u) b in
      let (c, k) = run_extractors-Agree extract x es s' b' in (c, ground (arith, h, k, o))

  -- After the extractors of Execute() the output extracts hold each text that an extractor that is not
  -- internal finds, on the data as the extractors before it have left it, and each once.
  pub extracted-output :
      (ops : Operators Regex Dsl Json) (env : GoMap Value)
      (extract : GoMap Value → Extractor Regex Dsl Json → List String) (x : String)
      → (has x (extracted ops env extract).result.output_extracts
          ≡ put_out extract x ops.extractors
              (record { env = env; result = empty_result; all_internal = true }))
        × (no_repeat (extracted ops env extract).result.output_extracts ≡ true)
  unfolding extracted has
  extracted-output ops env extract x =
      let start : Extraction = record { env = env; result = empty_result; all_internal = true } in
      let ((same, once), h) =
        run_extractors-Agree extract x ops.extractors start (λ y. refl, refl) in
      (h, once)

abbrev pub every : List Bool → Bool
every [] = true
every (b ∷ bs) = b && every bs

abbrev pub some_true : List Bool → Bool
some_true [] = false
some_true (b ∷ bs) = b || some_true bs

eval_bools-fold :
    (is_and : Bool) (bs : List Bool) (b : Bool)
    → eval_bools is_and bs b ≡ (if is_and then b && every bs else b || some_true bs)
unfolding eval_bools
eval_bools-fold is_and [] b = ground arith
eval_bools-fold is_and (c ∷ bs) b =
    ground (arith, eval_bools-fold is_and bs (b && c), eval_bools-fold is_and bs (b || c))

-- EvalBoolSlice() is false on an empty list, and else says whether all values are true, or without
-- `isAnd` whether some value is.
pub eval_bool_slice-fold :
    (bs : List Bool) (is_and : Bool)
    → eval_bool_slice bs is_and ≡ (not (is_nil bs) && (if is_and then every bs else some_true bs))
unfolding eval_bool_slice
eval_bool_slice-fold [] is_and = refl
eval_bool_slice-fold (b ∷ bs) is_and = eval_bools-fold is_and bs b
