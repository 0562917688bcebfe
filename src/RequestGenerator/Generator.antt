-- ===== src/RequestGenerator/Generator.antt =====
-- requestGenerator of pkg/protocols/http/request_generator.go. The payload iterator is a state with its
-- Value(); `once` is the match of reOnceAnnotation, which parseFlowAnnotations() of request_annotations.go
-- runs.
use webapp_sec_tools.Prelude.{
  ℕ, zero, suc, ◌+◌, String, Bool, true, false, not, ◌&&◌, Option, none, some, List, [], ◌∷◌, ltb,
  length, drop, if◌then◌else◌,
}
use webapp_sec_tools.Prelude.GoMap.{GoMap}
use webapp_sec_tools.Prelude.GoSet.{GoSet, has, add}
use webapp_sec_tools.Generators.Iterator.{Next, next, exhausted, panic, out_of_fuel}
use webapp_sec_tools.Operators.Execute.{merge_maps}

-- The options and the request are left out, and `interactshURLs`, which nextValue() does not touch.
pub record Generator (S : Type 0) : Type 0 where
  pub current_index : ℕ
  pub current_payloads : Option (GoMap String)
  pub ok_current_payload : Bool
  pub iterator : Option S
  pub once_flow : GoSet

-- newGenerator(): `payloads` is their number
unfoldable pub new_generator : {S : Type 0} → S → ℕ → Bool → Generator S
new_generator fresh payloads disable_payloads = record {
  current_index = 0;
  current_payloads = none;
  ok_current_payload = false;
  iterator = if ltb 0 payloads && not disable_payloads then some fresh else none;
  once_flow = [];
}

-- The switch of nextValue(): the empty sequence is its default case.
unfoldable pub sequence_of : List String → List String → List String
sequence_of path raw = if ltb 0 (length path) then path else if ltb 0 (length raw) then raw else []

-- sequence[index:]: `none` is the panic
unfoldable pub slice_from : List String → ℕ → Option (List String)
slice_from xs i = if ltb (length xs) i then none else some (drop i xs)

-- The loop of findNextIteration() over the requests from the index on.
unfoldable pub scan : GoSet → List String → ℕ → Option (String × ℕ)
unfolding has
scan marked [] i = none
scan marked (r ∷ rs) i =
    let rest = scan marked rs (i + 1) in if has r marked then rest else some (r, i)

-- applyMark(), where the request has the mark
unfoldable pub mark : (String → Bool) → String → GoSet → GoSet
unfolding add
mark once r marked = if once r then add r marked else marked

-- generators.MergeMaps(r.currentPayloads)
unfoldable pub copy : Option (GoMap String) → GoMap String
unfolding merge_maps
copy none = []
copy (some m) = merge_maps (m ∷ []) []

abbrev pub present {ℓ} : {A : Type ℓ} → Option A → Bool
present none = false
present (some a) = true

-- What nextValue() returns: a request, its payloads, and whether there is one.
abbrev pub Yield : Type 0
Yield = String × GoMap String × Bool

unfoldable pub prepend {ℓ} : {A : Type ℓ} → A → Option (List A) → Option (List A)
prepend x none = none
prepend x (some xs) = some (x ∷ xs)

module _ {S : Type 0} (value : S → Next × S) (once : String → Bool) where
  -- r.currentPayloads, r.okCurrentPayload = r.payloadIterator.Value(): `none` is a panic of Value()
  unfoldable pub advance : Generator S → S → Option (Generator S)
  advance g s =
      let (r, s') = value s in
      elim r [
        | next m ↦
            some (record g {
              current_payloads = some m;
              ok_current_payload = true;
              iterator = some s';
            })
        | exhausted ↦
            some
              (record g { current_payloads = none; ok_current_payload = false; iterator = some s' })
        | panic ↦ none
        | out_of_fuel ↦ none
      ]

  -- findNextIteration()
  unfoldable pub find_next_iteration :
      List String → ℕ → Generator S → Option (Option (String × ℕ) × Generator S)
  unfolding slice_from scan advance
  find_next_iteration sequence index g = elim (slice_from sequence index) [
    | none ↦ none
    | some rs ↦ elim (scan g.once_flow rs index) [
      | some f ↦ some (some f, g)
      | none ↦ elim g.iterator [
        | none ↦ some (none, g)
        | some s ↦ elim (advance g s) [ none ↦ none | some g' ↦ some (none, g') ]
      ]
    ]
  ]

  -- The first call of Value().
  unfoldable pub first_payload : Generator S → Option (Generator S)
  unfolding advance
  first_payload g = elim g.iterator [
    | none ↦ some g
    | some s ↦ elim g.current_payloads [ none ↦ advance g s | some m ↦ some g ]
  ]

  -- A request that was found, with its mark.
  unfoldable pub take_request : String → ℕ → Generator S → Yield × Generator S
  unfolding mark copy
  take_request r index g = (
    (r, copy g.current_payloads, if present g.iterator then g.ok_current_payload else true),
    record g { current_index = index + 1; once_flow = mark once r g.once_flow },
  )

  -- nextValue(): `none` is a panic
  unfoldable pub next_value : List String → Generator S → Option (Yield × Generator S)
  unfolding first_payload find_next_iteration take_request
  next_value [] g = some (("", [], false), g)
  next_value (x ∷ xs) g = elim (first_payload g) [
    | none ↦ none
    | some g₀ ↦ elim (find_next_iteration (x ∷ xs) g₀.current_index g₀) [
      | none ↦ none
      | some (some (r, index), g₁) ↦ some (take_request r index g₁)
      | some (none, g₁) ↦ elim (find_next_iteration (x ∷ xs) 0 g₁) [
        | none ↦ none
        | some (none, g₂) ↦ some (("", [], false), g₂)
        | some (some (r, index), g₂) ↦
            if present g₂.iterator
            then some (take_request r index g₂)
            else some (("", [], false), g₂)
      ]
    ]
  ]

  -- The loop of the callers in pkg/protocols/http/request.go, for at most `rounds` calls:
  -- `for { inputData, payloads, ok := generator.nextValue(); if !ok { break } … }`
  unfoldable pub requests : ℕ → List String → Generator S → Option (List (String × GoMap String))
  unfolding next_value prepend
  requests zero sequence g = some []
  requests (suc rounds) sequence g = elim (next_value sequence g) [
    | none ↦ none
    | some ((r, payloads, ok), g') ↦
        let rest = prepend (r, payloads) (requests rounds sequence g') in
        if ok then rest else some []
  ]
