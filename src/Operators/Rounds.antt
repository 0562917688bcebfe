-- ===== src/Operators/Rounds.antt =====
-- MakeDynamicValuesCallback(): the values that each round gives to the callback.
use webapp_sec_tools.Prelude.{
  ℕ, zero, suc, ◌+◌, ◌-◌, ◌<◌, ◌≤◌, String, Bool, true, false, Option, none, some, List, [], ◌∷◌,
  ◌⊎◌, Bool-cases, str_eq, ◌≡◌, refl, sym, ap, ◌∙◌, ltb, leb, if◌then◌else◌, length, get_or,
  get_elem?, arith, eq_iff, Option-cases, inl, inr,
}
use webapp_sec_tools.Prelude.GoMap.{GoMap, lookup, put, lookup-put}
use webapp_sec_tools.Prelude.Value.{Value, text}
use webapp_sec_tools.Operators.Merge.{
  next_values, value_rounds, max_values, make_dynamic_values_callback,
}

-- A key stands once in a map.
abbrev pub Distinct {ℓ} : {V : Type ℓ} → GoMap V → Type ℓ
Distinct [] = Unit
Distinct ((k, v) ∷ m) = (lookup k m ≡ none) × Distinct m

-- What one round does to the index of a key, and to its value, given the texts of the key.
abbrev index_after : List String → Option ℕ → Option ℕ
index_after (v ∷ w ∷ vs) none = some 0
index_after (v ∷ w ∷ vs) (some i) = if leb (length vs + 2) (i + 1) then some i else some (i + 1)
index_after vs i = i

abbrev value_after : List String → Option ℕ → Option Value → Option Value
value_after [] i old = old
value_after (v ∷ []) i old = some (text v)
value_after (v ∷ w ∷ vs) none old = some (text v)
value_after (v ∷ w ∷ vs) (some i) old =
    if leb (length vs + 2) (i + 1)
    then some (text (get_or (v ∷ w ∷ vs) (length vs + 1) ""))
    else some (text (get_or (v ∷ w ∷ vs) (i + 1) ""))

abbrev texts_of : String → GoMap (List String) → List String
texts_of k input = elim (lookup k input) [ none ↦ [] | some vs ↦ vs ]

abbrev last_text : List String → String
last_text vs = get_or vs (length vs - 1) ""

next_values-index :
    (k : String) (input : GoMap (List String)) (index : GoMap ℕ) (output : GoMap Value)
    → Distinct input
    → lookup k (next_values input index output).0 ≡ index_after (texts_of k input) (lookup k index)
unfolding next_values lookup
next_values-index k [] index output d = refl
next_values-index k ((j, []) ∷ input) index output (p, d) =
    ground (arith, eq_iff j k, next_values-index k input index output d)
next_values-index k ((j, v ∷ []) ∷ input) index output (p, d) =
    let output' = put j (text v) output in
    ground
      (arith, eq_iff j k, next_values-index k input index output' d, lookup-put j k (text v) output)
next_values-index k ((j, v ∷ w ∷ vs) ∷ input) index output (p, d) =
    elim (Option-cases (lookup j index)) [
      | inl n ↦
          rw (next_values, n)
            (ground (
              arith,
              p,
              n,
              eq_iff j k,
              next_values-index k input (put j 0 index) (put j (text v) output) d,
              lookup-put j k 0 index,
              lookup-put j k (text v) output,
            ))
      | inr (i, n) ↦
          rw (next_values, n)
            (ground (
              arith,
              p,
              n,
              eq_iff j k,
              next_values-index k input index (put j (text (last_text (v ∷ w ∷ vs))) output) d,
              next_values-index k input (put j (i + 1) index)
                  (put j (text (get_or (v ∷ w ∷ vs) (i + 1) "")) output) d,
              lookup-put j k (i + 1) index,
              lookup-put j k (text (last_text (v ∷ w ∷ vs))) output,
              lookup-put j k (text (get_or (v ∷ w ∷ vs) (i + 1) "")) output,
            ))
    ]

next_values-value :
    (k : String) (input : GoMap (List String)) (index : GoMap ℕ) (output : GoMap Value)
    → Distinct input
    → lookup k (next_values input index output).1
      ≡ value_after (texts_of k input) (lookup k index) (lookup k output)
unfolding next_values lookup
next_values-value k [] index output d = refl
next_values-value k ((j, []) ∷ input) index output (p, d) =
    ground (arith, eq_iff j k, next_values-value k input index output d)
next_values-value k ((j, v ∷ []) ∷ input) index output (p, d) =
    let output' = put j (text v) output in
    ground
      (arith, eq_iff j k, next_values-value k input index output' d, lookup-put j k (text v) output)
next_values-value k ((j, v ∷ w ∷ vs) ∷ input) index output (p, d) =
    elim (Option-cases (lookup j index)) [
      | inl n ↦
          rw (next_values, n)
            (ground (
              arith,
              p,
              n,
              eq_iff j k,
              next_values-value k input (put j 0 index) (put j (text v) output) d,
              lookup-put j k 0 index,
              lookup-put j k (text v) output,
            ))
      | inr (i, n) ↦
          rw (next_values, n)
            (ground (
              arith,
              p,
              n,
              eq_iff j k,
              next_values-value k input index (put j (text (last_text (v ∷ w ∷ vs))) output) d,
              next_values-value k input (put j (i + 1) index)
                  (put j (text (get_or (v ∷ w ∷ vs) (i + 1) "")) output) d,
              lookup-put j k (i + 1) index,
              lookup-put j k (text (last_text (v ∷ w ∷ vs))) output,
              lookup-put j k (text (get_or (v ∷ w ∷ vs) (i + 1) "")) output,
            ))
    ]

-- The text of round i: the i-th of a key, or its last where there are fewer.
abbrev pub round_text : List String → ℕ → String
round_text vs i = if ltb i (length vs) then get_or vs i "" else get_or vs (length vs - 1) ""

abbrev clamp : ℕ → ℕ → ℕ
clamp i n = if ltb i n then i else n - 1

-- The index of a key before round n.
abbrev at_round : List String → ℕ → Option ℕ
at_round (v ∷ w ∷ vs) (suc n) = some (clamp n (length vs + 2))
at_round vs n = none

at_round-zero : (vs : List String) → at_round vs 0 ≡ none
at_round-zero [] = refl
at_round-zero (v ∷ []) = refl
at_round-zero (v ∷ w ∷ vs) = refl

index_after-at_round :
    (vs : List String) (n : ℕ) → index_after vs (at_round vs n) ≡ at_round vs (n + 1)
index_after-at_round [] n = refl
index_after-at_round (v ∷ []) n = refl
index_after-at_round (v ∷ w ∷ vs) zero = ground arith
index_after-at_round (v ∷ w ∷ vs) (suc n) = ground arith

value_after-at_round :
    (vs : List String) (n : ℕ) (old : Option Value)
    → 0 < length vs
    → value_after vs (at_round vs n) old ≡ some (text (round_text vs n))
value_after-at_round [] n old h = elim h [ ]
value_after-at_round (v ∷ []) zero old h = refl
value_after-at_round (v ∷ []) (suc n) old h = ground arith
value_after-at_round (v ∷ w ∷ vs) zero old h = ground arith
value_after-at_round (v ∷ w ∷ vs) (suc n) old h = ground arith

most-max_values : (input : GoMap (List String)) (most : ℕ) → most ≤ max_values input most
unfolding max_values
most-max_values [] most = omega arith
most-max_values ((k, v) ∷ input) most =
    ground (arith, most-max_values input most, most-max_values input (length v))

length-max_values :
    (k : String) (input : GoMap (List String)) (most : ℕ)
    → length (texts_of k input) ≤ max_values input most
unfolding max_values lookup
length-max_values k [] most = omega arith
length-max_values k ((j, v) ∷ input) most = ground (
  arith,
  length-max_values k input most,
  length-max_values k input (length v),
  most-max_values input most,
  most-max_values input (length v),
)

texts_of-head :
    (k : String) (v : List String) (input : GoMap (List String)) → texts_of k ((k, v) ∷ input) ≡ v
unfolding lookup
texts_of-head k v input = ground (arith, eq_iff k k)

texts_of-tail :
    (j k : String) (v : List String) (input : GoMap (List String))
    → str_eq k j ≡ false
    → texts_of j ((k, v) ∷ input) ≡ texts_of j input
unfolding lookup
texts_of-tail j k v input h = ground (arith, h)

-- The number of rounds is the least one that is allowed, or that of the values of some key.
max_values-reached :
    (input : GoMap (List String)) (most : ℕ)
    → Distinct input
    → (max_values input most ≡ most)
      ⊎ ((j : String) × (length (texts_of j input) ≡ max_values input most))
unfolding max_values
max_values-reached [] most d = inl refl
max_values-reached ((k, v) ∷ input) most (p, d) =
    let most' = if ltb most (length v) then length v else most in
    elim (max_values-reached input most' d) [
      | inl e ↦ elim (Bool-cases (ltb most (length v))) [
        | inl b ↦ inr (k, ap (length {0}) (texts_of-head k v input) ∙ ground (arith, e, b))
        | inr b ↦ inl (ground (arith, e, b))
      ]
      | inr (j, e) ↦ elim (Bool-cases (str_eq k j)) [
        | inl b ↦
            let none_there : length (texts_of j input) ≡ 0 = ground (arith, p, eq_iff k j, b) in
            inl (ground (arith, none_there, e, most-max_values input most'))
        | inr b ↦ inr (j, ap (length {0}) (texts_of-tail j k v input b) ∙ e)
      ]
    ]

module _ (callback : GoMap Value → Bool) (never : (o : GoMap Value) → callback o ≡ false) where
  value_rounds-text :
      (k : String) (input : GoMap (List String)) (index : GoMap ℕ) (output : GoMap Value)
      (n left i : ℕ)
      → Distinct input
      → 0 < length (texts_of k input)
      → (lookup k index ≡ at_round (texts_of k input) n)
      → i < left
      → (m : GoMap Value) × (get_elem? (value_rounds callback input left index output) i ≡ some m)
        × (lookup k m ≡ some (text (round_text (texts_of k input) (n + i))))
  unfolding value_rounds
  value_rounds-text k input index output n zero i d t e h = elim h [ ]
  value_rounds-text k input index output n (suc left) zero d t e h =
      let vs = texts_of k input in
      let (index', output') = next_values input index output in
      (
        output',
        refl,
        next_values-value k input index output d
            ∙ ap (λ o. value_after vs o (lookup k output)) e
            ∙ value_after-at_round vs n (lookup k output) t
            ∙ ap (λ j. some (text (round_text vs j))) (omega arith),
      )
  value_rounds-text k input index output n (suc left) (suc i) d t e h =
      let vs = texts_of k input in
      let (index', output') = next_values input index output in
      let e' =
        next_values-index k input index output d
        ∙ ap (index_after vs) e
        ∙ index_after-at_round vs n in
      let (m, g, q) =
        value_rounds-text k input index' output' (n + 1) left i d t e' (omega arith) in
      (m, rw (never output') g, q ∙ ap (λ j. some (text (round_text vs j))) (omega arith))

  value_rounds-length :
      (input : GoMap (List String)) (index : GoMap ℕ) (output : GoMap Value) (left : ℕ)
      → length (value_rounds callback input left index output) ≡ left
  unfolding value_rounds
  value_rounds-length input index output zero = refl
  value_rounds-length input index output (suc left) =
      let (index', output') = next_values input index output in
      rw (never output') (ap suc (value_rounds-length input index' output' left))

  -- With a callback that never stops the loop, MakeDynamicValuesCallback() with `iterateAllValues` makes
  -- as many rounds as some key has values, and no key has more; round i gives each key that has values
  -- its i-th, or its last where it has fewer.
  pub make_dynamic_values_callback-rounds :
      (k : String) (input : GoMap (List String)) (i : ℕ)
      → Distinct input
      → 0 < length (texts_of k input)
      → i < max_values input 0
      → (length (make_dynamic_values_callback input true callback) ≡ max_values input 0)
        × (length (texts_of k input) ≤ max_values input 0)
        × ((j : String) × (length (texts_of j input) ≡ max_values input 0))
        × (m : GoMap Value) × (get_elem? (make_dynamic_values_callback input true callback) i
            ≡ some m)
        × (lookup k m ≡ some (text (round_text (texts_of k input) i)))
  unfolding make_dynamic_values_callback lookup
  make_dynamic_values_callback-rounds k input i d t h =
      let (m, g, q) =
        value_rounds-text k input [] [] 0 (max_values input 0) i d t
          (sym (at_round-zero (texts_of k input))) h in
      (
        value_rounds-length input [] [] (max_values input 0),
        length-max_values k input 0,
        elim (max_values-reached input 0 d) [
          | inl e ↦ absurd (omega (arith, e, h))
          | inr most ↦ most
        ],
        m,
        g,
        q ∙ ap (λ j. some (text (round_text (texts_of k input) j))) (omega arith),
      )
