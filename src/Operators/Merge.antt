-- ===== src/Operators/Merge.antt =====
-- Merge(), MakeDynamicValuesCallback(), EvalBoolSlice(), ExecuteInternalExtractors() and Len() of
-- pkg/operators/operators.go.
use webapp_sec_tools.Prelude.{
  ℕ, zero, suc, ◌+◌, ◌-◌, String, Bool, true, false, not, ◌&&◌, ◌||◌, Option, none, some, List, [],
  ◌∷◌, ◌++◌, ltb, leb, if◌then◌else◌, length, get_or, ◌==◌,
}
use webapp_sec_tools.Prelude.GoMap.{GoMap, lookup, put}
use webapp_sec_tools.Prelude.GoSet.{GoSet, has, add}
use webapp_sec_tools.Prelude.Value.{Value, text}
use webapp_sec_tools.Matchers.Types.{Matcher}
use webapp_sec_tools.Operators.Types.{Extractor, Operators, Result}

-- The loop `for k, v := range from { to[k] = sliceutil.Dedupe(append(to[k], v...)) }`.
unfoldable pub merge_texts :
    (List String → List String) → GoMap (List String) → GoMap (List String) → GoMap (List String)
merge_texts dedupe to [] = to
merge_texts dedupe to ((k, v) ∷ from) =
    merge_texts dedupe (put k (dedupe (elim (lookup k to) [ none ↦ v | some w ↦ w ++ v ])) to) from

-- The loop over the dynamic values: a new key is not deduplicated.
unfoldable pub merge_dynamic :
    (List String → List String) → GoMap (List String) → GoMap (List String) → GoMap (List String)
merge_dynamic dedupe to [] = to
merge_dynamic dedupe to ((k, v) ∷ from) =
    merge_dynamic dedupe (put k (elim (lookup k to) [ none ↦ v | some w ↦ dedupe (w ++ v) ]) to)
      from

-- The loop that keeps the first of each text.
unfoldable pub merge_output : List String → List String → GoSet → List String × GoSet
merge_output [] out seen = (out, seen)
merge_output (v ∷ vs) out seen =
    if has v seen then merge_output vs out seen else merge_output vs (out ++ v ∷ []) (add v seen)

-- A write to a nil map panics, `none`; a loop over a nil map does nothing.
unfoldable pub merge_payloads : Option (GoMap Value) → GoMap Value → Option (Option (GoMap Value))
merge_payloads to [] = some to
merge_payloads none ((k, v) ∷ from) = none
merge_payloads (some to) ((k, v) ∷ from) = merge_payloads (some (put k v to)) from

abbrev pub entries : Option (GoMap Value) → GoMap Value
entries none = []
entries (some m) = m

-- Merge(): `none` is a panic.
unfoldable pub merge : (List String → List String) → Result → Result → Option Result
unfolding merge_texts merge_dynamic merge_output merge_payloads
merge dedupe r from =
    let (out, seen) = merge_output r.output_extracts [] [] in
    let (output_extracts, output_unique) = merge_output from.output_extracts out seen in
    elim (merge_payloads r.payload_values (entries from.payload_values)) [
      | none ↦ none
      | some payload_values ↦ some (record {
        matched = if not r.matched && from.matched then from.matched else r.matched;
        extracted = if not r.extracted && from.extracted then from.extracted else r.extracted;
        matches = merge_texts dedupe r.matches from.matches;
        extracts = merge_texts dedupe r.extracts from.extracts;
        output_extracts = output_extracts;
        output_unique = output_unique;
        dynamic_values = merge_dynamic dedupe r.dynamic_values from.dynamic_values;
        payload_values = payload_values;
        line_count = r.line_count;
      })
    ]

-- The first values, where only one round is made.
unfoldable pub first_values : GoMap (List String) → GoMap Value → GoMap Value
first_values [] output = output
first_values ((k, []) ∷ input) output = first_values input output
first_values ((k, v ∷ vs) ∷ input) output = first_values input (put k (text v) output)

unfoldable pub max_values : GoMap (List String) → ℕ → ℕ
max_values [] most = most
max_values ((k, v) ∷ input) most = max_values input (if ltb most (length v) then length v else most)

-- The body of the loop over the input, on the indices and the output of the round before.
unfoldable pub next_values : GoMap (List String) → GoMap ℕ → GoMap Value → GoMap ℕ × GoMap Value
next_values [] index output = (index, output)
next_values ((k, []) ∷ input) index output = next_values input index output
next_values ((k, v ∷ []) ∷ input) index output = next_values input index (put k (text v) output)
next_values ((k, v ∷ w ∷ vs) ∷ input) index output =
    let values = v ∷ w ∷ vs in
    elim (lookup k index) [
      | none ↦ next_values input (put k 0 index) (put k (text v) output)
      | some got_index ↦
          let new_index = got_index + 1 in
          if leb (length values) new_index
          then next_values input index (put k (text (get_or values (length values - 1) "")) output)
          else next_values input (put k new_index index)
              (put k (text (get_or values new_index "")) output)
    ]

-- The rounds that are left. The answer lists the maps that the callback is called with, in order.
unfoldable pub value_rounds :
    (GoMap Value → Bool) → GoMap (List String) → ℕ → GoMap ℕ → GoMap Value → List (GoMap Value)
unfolding next_values
value_rounds callback input zero index output = []
value_rounds callback input (suc left) index output =
    let (index', output') = next_values input index output in
    let rest = value_rounds callback input left index' output' in
    output' ∷ (if callback output' then [] else rest)

-- MakeDynamicValuesCallback()
unfoldable pub make_dynamic_values_callback :
    GoMap (List String) → Bool → (GoMap Value → Bool) → List (GoMap Value)
unfolding first_values max_values value_rounds
make_dynamic_values_callback input iterate_all_values callback =
    if not iterate_all_values
    then first_values input [] ∷ []
    else value_rounds callback input (max_values input 0) [] []

unfoldable pub eval_bools : Bool → List Bool → Bool → Bool
eval_bools is_and [] result = result
eval_bools is_and (b ∷ bs) result =
    eval_bools is_and bs (if is_and then result && b else result || b)

-- EvalBoolSlice()
unfoldable pub eval_bool_slice : List Bool → Bool → Bool
unfolding eval_bools
eval_bool_slice [] is_and = false
eval_bool_slice (b ∷ bs) is_and = eval_bools is_and bs b

module _ {Regex Dsl : Type 0} where
  -- HasDSL(), in its two loops
  unfoldable pub some_matcher_dsl : List (Matcher Regex Dsl) → Bool
  some_matcher_dsl [] = false
  some_matcher_dsl (m ∷ ms) = if ltb 0 (length m.dsl) then true else some_matcher_dsl ms

unfoldable pub first_found : String → List String → GoMap Value → GoMap Value
first_found name [] values = values
first_found name (found ∷ more) values =
    first_found name more
      (elim (lookup name values) [ none ↦ put name (text found) values | some v ↦ values ])

module _ {Regex Dsl Json : Type 0} where
  -- ExecuteInternalExtractors()
  unfoldable pub execute_internal_extractors :
      (Extractor Regex Dsl Json → List String)
      → List (Extractor Regex Dsl Json)
      → GoMap Value
      → GoMap Value
  unfolding first_found
  execute_internal_extractors extract [] values = values
  execute_internal_extractors extract (e ∷ es) values =
      if not e.internal
      then execute_internal_extractors extract es values
      else execute_internal_extractors extract es (first_found e.name (extract e) values)

  unfoldable pub some_extractor_dsl : List (Extractor Regex Dsl Json) → Bool
  some_extractor_dsl [] = false
  some_extractor_dsl (e ∷ es) = if ltb 0 (length e.dsl) then true else some_extractor_dsl es

  unfoldable pub has_dsl : Operators Regex Dsl Json → Bool
  unfolding some_matcher_dsl some_extractor_dsl
  has_dsl ops = if some_matcher_dsl ops.matchers then true else some_extractor_dsl ops.extractors

  unfoldable pub len : Operators Regex Dsl Json → ℕ
  len ops = length ops.matchers + length ops.extractors

  unfoldable pub is_empty : Operators Regex Dsl Json → Bool
  unfolding len
  is_empty ops = len ops == 0
