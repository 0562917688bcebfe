-- ===== src/Operators/Execute.antt =====
-- Execute() of pkg/operators/operators.go: the extractors, then the dynamic values, then the matchers.
use Prim.Native.String.{◌++◌ as append}
use webapp_sec_tools.Prelude.{
  ℕ, ◌+◌, String, Bool, true, false, not, ◌&&◌, ◌||◌, Option, none, some, List, [], ◌∷◌, ◌++◌,
  str_eq, if◌then◌else◌,
}
use webapp_sec_tools.Prelude.Strings.{itoa, equal_fold}
use webapp_sec_tools.Prelude.GoMap.{GoMap, lookup, put}
use webapp_sec_tools.Prelude.GoSet.{has, add}
use webapp_sec_tools.Prelude.Value.{Value, text, texts}
use webapp_sec_tools.Matchers.Types.{ConditionType, is_and, is_or, Matcher, type_string}
use webapp_sec_tools.Operators.ExcludeMatchers.{excludes}
use webapp_sec_tools.Operators.Types.{Extractor, Operators, Result}

abbrev pub is_nil {ℓ} : {A : Type ℓ} → List A → Bool
is_nil [] = true
is_nil (x ∷ xs) = false

-- hasItem(), of HasMatch() and HasExtract()
unfoldable pub has_item : String → GoMap (List String) → Bool
has_item name [] = false
has_item name ((k, v) ∷ m) = if equal_fold name k then true else has_item name m

unfoldable pub has_match : Result → String → Bool
unfolding has_item
has_match r name = has_item name r.matches

unfoldable pub has_extract : Result → String → Bool
unfolding has_item
has_extract r name = has_item name r.extracts

-- getExtractedValue()
unfoldable pub get_extracted_value : List String → Value
get_extracted_value (v ∷ []) = text v
get_extracted_value vs = texts vs

abbrev pub empty_result : Result
empty_result = record {
  matched = false;
  extracted = false;
  matches = [];
  extracts = [];
  output_extracts = [];
  output_unique = [];
  dynamic_values = [];
  payload_values = none;
  line_count = "";
}

-- MergeMaps() of pkg/protocols/common/generators/maps.go, for two maps
unfoldable pub merge_into {ℓ} : {V : Type ℓ} → GoMap V → GoMap V → GoMap V
merge_into m [] = m
merge_into m ((k, v) ∷ n) = merge_into (put k v m) n

unfoldable pub merge_maps {ℓ} : {V : Type ℓ} → List (GoMap V) → GoMap V → GoMap V
unfolding merge_into
merge_maps [] merged = merged
merge_maps (m ∷ ms) merged = merge_maps ms (merge_into merged m)

-- The keys `name0`, `name1`, … of a dynamic value with several texts.
unfoldable pub indexed : String → ℕ → List String → GoMap Value → GoMap Value
indexed name i [] m = m
indexed name i (v ∷ vs) m = indexed name (i + 1) vs (put (append name (itoa i)) (text v) m)

-- The loop over the dynamic values: `none` is the panic of `dynValues[0]` on an empty list.
unfoldable pub expose : GoMap (List String) → GoMap Value → Option (GoMap Value)
unfolding indexed
expose [] m = some m
expose ((name, []) ∷ ds) m = none
expose ((name, v ∷ []) ∷ ds) m = expose ds (put name (text v) m)
expose ((name, v ∷ w ∷ vs) ∷ ds) m =
    expose ds (put name (texts (v ∷ w ∷ vs)) (indexed name 0 (v ∷ w ∷ vs) m))

-- The data, the result and `allInternalExtractors` in the loop over the extractors.
pub record Extraction : Type 0 where
  pub env : GoMap Value
  pub result : Result
  pub all_internal : Bool

-- How the loop over the matchers ends: it has run through, with `matches`, or it has returned early at
-- a matcher that did not match under `and`.
pub record Matching : Type 0 where
  pub result : Result
  pub matches : Bool
  pub failed : Bool

-- The data for the matchers: a new map, if there are dynamic values.
unfoldable pub matcher_env : Extraction → Option (GoMap Value)
unfolding expose merge_maps
matcher_env s =
    if is_nil s.result.dynamic_values
    then some s.env
    else elim (expose s.result.dynamic_values []) [
      | none ↦ none
      | some dynamic ↦ some (merge_maps (s.env ∷ dynamic ∷ []) [])
    ]

module _ {Regex Dsl : Type 0} where
  -- GetMatcherName()
  unfoldable pub get_matcher_name : Matcher Regex Dsl → ℕ → String
  get_matcher_name m index =
      if str_eq m.name ""
      then append (type_string m.type) (append "-" (itoa (index + 1)))
      else m.name

  unfoldable pub record_match :
      ConditionType → Bool → ℕ → Matcher Regex Dsl → List String → Result → Result
  unfolding get_matcher_name
  record_match cond is_debug index m snippets r =
      if is_debug
      then record r { matches = put (get_matcher_name m index) snippets r.matches }
      else if is_or cond && not (str_eq m.name "")
      then record r { matches = put m.name snippets r.matches }
      else r

module _ {Regex Dsl Json : Type 0} where
  -- The body of the loop over one extractor's matches.
  unfoldable pub add_extract : Extractor Regex Dsl Json → String → Result → Result
  add_extract e found r =
      if e.internal
      then record r {
        dynamic_values = elim (lookup e.name r.dynamic_values) [
          | none ↦ put e.name (found ∷ []) r.dynamic_values
          | some values ↦ put e.name (values ++ found ∷ []) r.dynamic_values
        ];
      }
      else if has found r.output_unique
      then r
      else record r {
        output_extracts = r.output_extracts ++ found ∷ [];
        output_unique = add found r.output_unique;
      }

  unfoldable pub add_extracts : Extractor Regex Dsl Json → List String → Result → Result
  unfolding add_extract
  add_extracts e [] r = r
  add_extracts e (found ∷ more) r = add_extracts e more (add_extract e found r)

  unfoldable pub run_extractor : Extractor Regex Dsl Json → List String → Extraction → Extraction
  unfolding add_extracts get_extracted_value
  run_extractor e found s =
      let r = add_extracts e found s.result in
      record {
        env = if is_nil found then s.env else put e.name (get_extracted_value found) s.env;
        result =
            if not (is_nil found) && not e.internal && not (str_eq e.name "")
            then record r { extracts = put e.name found r.extracts }
            else r;
        all_internal = s.all_internal && e.internal;
      }

  unfoldable pub run_extractors :
      (GoMap Value → Extractor Regex Dsl Json → List String)
      → List (Extractor Regex Dsl Json)
      → Extraction
      → Extraction
  unfolding run_extractor
  run_extractors extract [] s = s
  run_extractors extract (e ∷ es) s =
      run_extractors extract es (run_extractor e (extract s.env e) s)

  unfoldable pub is_excluded : Operators Regex Dsl Json → Matcher Regex Dsl → Bool
  is_excluded ops m = elim ops.exclude_matchers [
    | none ↦ false
    | some e ↦ excludes e ops.template_id m.name
  ]

  unfoldable pub run_matchers :
      Operators Regex Dsl Json
      → (Matcher Regex Dsl → Bool × List String)
      → Bool
      → ℕ
      → List (Matcher Regex Dsl)
      → Matching
      → Matching
  unfolding is_excluded record_match
  run_matchers ops match is_debug index [] s = s
  run_matchers ops match is_debug index (m ∷ ms) s =
      let (is_match, snippets) = match m in
      let next = run_matchers ops match is_debug (index + 1) ms in
      if is_excluded ops m
      then next s
      else if is_match
      then next (record {
        result = record_match ops.condition is_debug index m snippets s.result;
        matches = true;
        failed = s.failed;
      })
      else if is_and ops.condition
      then record s { failed = true }
      else next s

  -- What stands behind the loops: the result, `none` for nil, and the flag.
  unfoldable pub conclude : Operators Regex Dsl Json → Bool → Matching → Option Result × Bool
  conclude ops all_internal s =
      let r = record s.result {
        matched = s.matches;
        extracted = not (is_nil s.result.output_extracts);
      } in
      let dynamic = not (is_nil r.dynamic_values) in
      if s.failed
      then (some s.result, dynamic)
      else if dynamic && all_internal
      then (some r, true)
      else if not (is_nil ops.matchers) && not s.matches
      then (if dynamic then (some r, true) else (none, false))
      else if not (is_nil r.extracts) || not (is_nil r.output_extracts) || s.matches
      then (some r, true)
      else if dynamic
      then (some r, true)
      else (none, false)

  unfoldable pub extracted :
      Operators Regex Dsl Json
      → GoMap Value
      → (GoMap Value → Extractor Regex Dsl Json → List String)
      → Extraction
  unfolding run_extractors
  extracted ops env extract =
      run_extractors extract ops.extractors
        (record { env = env; result = empty_result; all_internal = true })

  -- Execute(): `none` is a panic. The caller's data, a map that is not nil as with all callers, is left
  -- as the extractors wrote it.
  unfoldable pub execute :
      Operators Regex Dsl Json
      → GoMap Value
      → (GoMap Value → Matcher Regex Dsl → Bool × List String)
      → (GoMap Value → Extractor Regex Dsl Json → List String)
      → Bool
      → Option (Option Result × Bool × GoMap Value)
  unfolding extracted matcher_env run_matchers conclude
  execute ops env match extract is_debug =
      let s = extracted ops env extract in
      elim (matcher_env s) [
        | none ↦ none
        | some env' ↦
            let m =
              run_matchers ops (match env') is_debug 0 ops.matchers
                (record { result = s.result; matches = false; failed = false }) in
            let (r, ok) = conclude ops s.all_internal m in some (r, ok, s.env)
      ]
