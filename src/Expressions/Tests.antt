-- ===== src/Expressions/Tests.antt =====
-- Texts with and without variables.
use mathlib.Core.Option
use webapp_sec_tools.Prelude.{
  String, true, false, none, some, [], ◌∷◌, ◌≡◌, refl, str_eq, if◌then◌else◌,
}
use webapp_sec_tools.Prelude.GoMap.{GoMap}
use webapp_sec_tools.Prelude.Strings.{join}
use webapp_sec_tools.Prelude.Value.{Value, text}
use webapp_sec_tools.Expressions.Variables.{
  Engine, nothing, parse_error, is_in, contains_unresolved_variables, contains_variables_with_names,
  check_items, collect_names, has_literals_only,
}
use webapp_sec_tools.Expressions.Unresolved.{
  error_on, first_open, searched, contains_unresolved_variables-searched,
}

-- A text that is one variable, or none.
abbrev engine : Engine
engine = record {
  Expr = String;
  find_all = λ s. if str_eq s "plain" then [] else (s ∷ s ∷ []) ∷ [];
  is_numerical = λ s. str_eq s "1+1";
  parse = λ s. if str_eq s "" then nothing else parse_error;
  evaluates = λ s. true;
}

abbrev known : GoMap Value
known = ("host", text "h") ∷ []

contains_unresolved_variables-searched_example :
    (contains_unresolved_variables engine ("1+1" ∷ "user" ∷ [])
      ≡ Option.map (error_on engine (λ name. false) "unresolved variables found: ") (
          first_open engine
            (λ name. false)
            (searched engine (λ name. false) ("1+1" ∷ "user" ∷ []))))
    × (contains_variables_with_names engine known ("1+1" ∷ "user" ∷ [])
        ≡ Option.map
            (error_on engine (is_in known) "unresolved variables with values found: ")
            (first_open engine (is_in known) (searched engine (is_in known) ("1+1" ∷ "user" ∷ []))))
contains_unresolved_variables-searched_example =
    contains_unresolved_variables-searched engine known ("1+1" ∷ "user" ∷ [])

-- An item without a variable hides those behind it.
hidden_test :
    (contains_unresolved_variables engine ("user" ∷ "plain" ∷ [])
      ≡ some "unresolved variables found: user")
    × (contains_unresolved_variables engine ("plain" ∷ "user" ∷ []) ≡ none)
unfolding contains_unresolved_variables check_items collect_names has_literals_only join
hidden_test = (refl, refl)
