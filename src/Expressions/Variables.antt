-- ===== src/Expressions/Variables.antt =====
-- pkg/protocols/common/expressions/variables.go. The two regular expressions and the DSL engine
-- govaluate are parameters; an error is its text.
use Prim.Native.String.{◌++◌ as append}
use webapp_sec_tools.Prelude.{
  String, Bool, true, false, ◌||◌, Option, none, some, List, [], ◌∷◌, ◌++◌, if◌then◌else◌,
}
use webapp_sec_tools.Prelude.GoMap.{GoMap, lookup}
use webapp_sec_tools.Prelude.Strings.{join}
use webapp_sec_tools.Prelude.Value.{Value}

-- NewEvaluableExpressionWithFunctions(): an error, a nil expression or an expression.
pub data Parsed (Expr : Type 0) : Type 0 where
  parse_error : Parsed Expr
  nothing : Parsed Expr
  expression : Expr → Parsed Expr

-- A regular expression's matches with its groups, the numerical expressions, the DSL's parser, and
-- whether an expression evaluates without parameters.
pub record Engine : Type 1 where
  pub Expr : Type 0
  pub find_all : String → List (List String)
  pub is_numerical : String → Bool
  pub parse : String → Parsed Expr
  pub evaluates : Expr → Bool

abbrev pub is_in : GoMap Value → String → Bool
is_in m name = elim (lookup name m) [ none ↦ false | some v ↦ true ]

module _ (e : Engine) where
  -- hasLiteralsOnly()
  unfoldable pub has_literals_only : String → Bool
  has_literals_only text = elim (e.parse text) [
    | parse_error ↦ false
    | nothing ↦ true
    | expression x ↦ e.evaluates x
  ]

  -- The loop over the matches of one item, which appends the names that the last test does not skip.
  unfoldable pub collect_names : (String → Bool) → List (List String) → List String → List String
  unfolding has_literals_only
  collect_names skip [] names = names
  collect_names skip ([] ∷ ms) names = collect_names skip ms names
  collect_names skip ((whole ∷ []) ∷ ms) names = collect_names skip ms names
  collect_names skip ((whole ∷ name ∷ groups) ∷ ms) names = collect_names skip ms (
      if e.is_numerical name || has_literals_only name || skip name
      then names
      else names ++ name ∷ [])

  -- The loop over the items, of the first two functions.
  unfoldable pub check_items : String → (String → Bool) → List String → Option String
  unfolding collect_names join
  check_items message skip [] = none
  check_items message skip (item ∷ items) =
      let rest = check_items message skip items in
      elim (e.find_all item) [
        | [] ↦ none
        | m ∷ ms ↦ elim (collect_names skip (m ∷ ms) []) [
          | [] ↦ rest
          | n ∷ ns ↦ some (append message (join "," (n ∷ ns)))
        ]
      ]

  -- ContainsUnresolvedVariables()
  unfoldable pub contains_unresolved_variables : List String → Option String
  unfolding check_items
  contains_unresolved_variables items =
      check_items "unresolved variables found: " (λ name. false) items

  -- ContainsVariablesWithNames()
  unfoldable pub contains_variables_with_names : GoMap Value → List String → Option String
  unfolding check_items
  contains_variables_with_names names items =
      check_items "unresolved variables with values found: " (is_in names) items

  -- The loop of ContainsVariablesWithIgnoreList(): `none` is its early return.
  unfoldable pub gather_items : (String → Bool) → List String → List String → Option (List String)
  unfolding collect_names
  gather_items skip [] names = some names
  gather_items skip (item ∷ items) names = elim (e.find_all item) [
    | [] ↦ none
    | m ∷ ms ↦ gather_items skip items (collect_names skip (m ∷ ms) names)
  ]

  -- ContainsVariablesWithIgnoreList()
  unfoldable pub contains_variables_with_ignore_list : GoMap Value → List String → Option String
  unfolding gather_items join
  contains_variables_with_ignore_list skip_names items =
      elim (gather_items (is_in skip_names) items []) [
        | none ↦ none
        | some [] ↦ none
        | some (n ∷ ns) ↦
            some (append "unresolved variables with values found: " (join "," (n ∷ ns)))
      ]
