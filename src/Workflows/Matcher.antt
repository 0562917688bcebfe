-- ===== src/Workflows/Matcher.antt =====
-- The matcher of pkg/workflows/workflows.go: Compile() and Match(). The templates that it runs are not
-- part of it here.
use webapp_sec_tools.Prelude.{
  ℕ, suc, ◌+◌, String, Bool, true, false, not, ◌&&◌, ◌||◌, Option, none, some, List, [], ◌∷◌, ◌≡◌,
  ◌≢◌, refl, ap, ◌∙◌, ◌==◌, str_eq, if◌then◌else◌, length, arith, eq_iff,
}
use webapp_sec_tools.Matchers.Types.{
  ConditionType, no_condition, and_condition, or_condition, condition_types, is_and, is_or,
}
use webapp_sec_tools.Operators.Types.{Result}
use webapp_sec_tools.Operators.Execute.{has_match, has_extract}

pub record NameMatcher : Type 0 where
  pub names : List String
  pub condition_name : String
  pub condition : ConditionType

-- Compile(): `none` is the error of an unknown condition.
unfoldable pub compile : NameMatcher → Option NameMatcher
compile m =
    if str_eq m.condition_name ""
    then some (record m { condition = or_condition })
    else elim (condition_types m.condition_name) [
      | none ↦ none
      | some c ↦ some (record m { condition = c })
    ]

-- The loop over the names, with the number of all names and the index of the next.
unfoldable pub match_names : ConditionType → ℕ → Result → ℕ → List String → Bool
match_names cond total r i [] = false
match_names cond total r i (name ∷ names) =
    let rest = match_names cond total r (i + 1) names in
    if not (has_match r name) && not (has_extract r name)
    then (if is_and cond then false else rest)
    else if is_or cond
    then true
    else if total == i + 1
    then true
    else rest

-- Match()
unfoldable pub match_result : NameMatcher → Result → Bool
unfolding match_names
match_result m r = match_names m.condition (length m.names) r 0 m.names

-- The result has an item of the name, among its matches or its extracts.
abbrev pub has_name : Result → String → Bool
has_name r name = has_match r name || has_extract r name

abbrev pub any_name : Result → List String → Bool
any_name r [] = false
any_name r (name ∷ names) = has_name r name || any_name r names

abbrev pub all_names : Result → List String → Bool
all_names r [] = true
all_names r (name ∷ names) = has_name r name && all_names r names

abbrev pub is_some_name : List String → Bool
is_some_name [] = false
is_some_name (name ∷ names) = true

names_or :
    (total : ℕ) (r : Result) (i : ℕ) (names : List String)
    → match_names or_condition total r i names ≡ any_name r names
unfolding match_names
names_or total r i [] = refl
names_or total r i (name ∷ names) = ground (arith, names_or total r (i + 1) names)

names_and :
    (total : ℕ) (r : Result) (i : ℕ) (name : String) (names : List String)
    → total ≡ i + suc (length names)
    → match_names and_condition total r i (name ∷ names) ≡ all_names r (name ∷ names)
unfolding match_names
names_and total r i name [] e = ground arith
names_and total r i name (next ∷ names) e = ground (arith, names_and total r (i + 1) next names)

names-meaning :
    (cond : ConditionType) (r : Result) (names : List String)
    → cond ≢ no_condition
    → match_names cond (length names) r 0 names
      ≡ (if is_and cond then is_some_name names && all_names r names else any_name r names)
names-meaning no_condition r names h = absurd (h refl)
names-meaning or_condition r names h = names_or (length names) r 0 names
names-meaning and_condition r [] h = unfold match_names in refl
names-meaning and_condition r (name ∷ names) h =
    names_and (length (name ∷ names)) r 0 name names (omega arith)

str_eq-blank : (s : String) → str_eq s "" ≡ true → str_eq s "and" ≡ false
str_eq-blank s h = ap (λ t. str_eq t "and") ((eq_iff s "").0 h)

compile-condition :
    (m c : NameMatcher)
    → compile m ≡ some c
    → (c.names ≡ m.names)
      × (c.condition ≢ no_condition)
      × (is_and c.condition ≡ str_eq m.condition_name "and")
unfolding compile condition_types
compile-condition m c h =
    (ground (arith, h), ground (arith, h), ground (arith, h, str_eq-blank m.condition_name))

-- A matcher that Compile() accepts matches a result under the text `and` if it has a name and the result
-- has an item of every name, and under `or` or no text if the result has an item of some name.
pub match_result-compile :
    (m c : NameMatcher) (r : Result)
    → compile m ≡ some c
    → match_result c r ≡ (
        if str_eq m.condition_name "and"
        then is_some_name m.names && all_names r m.names
        else any_name r m.names)
unfolding match_result
match_result-compile m c r h =
    let (n, d, a) = compile-condition m c h in
    names-meaning c.condition r c.names d ∙ ground (arith, n, a)
