-- ===== src/Expressions/Unresolved.antt =====
-- Which variables the functions of pkg/protocols/common/expressions/variables.go report.
use webapp_sec_tools.Prelude.{
  String, Bool, true, false, not, ◌&&◌, ◌||◌, Option, none, some, List, [], ◌∷◌, ◌++◌, ◌≡◌, refl,
  sym, ap, ◌∙◌, arith, if◌then◌else◌, Bool-cases, inl, inr, ◌⊎◌,
}
use Prim.Native.String.{◌++◌ as append}
use mathlib.Core.Option
use mathlib.Core.List.{append_assoc, append-nil}
use webapp_sec_tools.Prelude.GoMap.{GoMap}
use webapp_sec_tools.Prelude.Strings.{join}
use webapp_sec_tools.Prelude.Value.{Value}
use webapp_sec_tools.Expressions.Variables.{
  Engine, is_in, has_literals_only, collect_names, check_items, contains_unresolved_variables,
  contains_variables_with_names, gather_items, contains_variables_with_ignore_list,
}

abbrev pub reports {ℓ} : {A : Type ℓ} → Option A → Bool
reports none = false
reports (some a) = true

abbrev pub any_at_all {ℓ} : {A : Type ℓ} → List A → Bool
any_at_all [] = false
any_at_all (x ∷ xs) = true

List-cases {ℓ} : {A : Type ℓ} (xs : List A) → (xs ≡ []) ⊎ ((y : A) × (ys : List A) × (xs ≡ y ∷ ys))
List-cases [] = inl refl
List-cases (y ∷ ys) = inr (y, ys, refl)

any_at_all-append {ℓ} :
    {A : Type ℓ} (xs ys : List A) → any_at_all (xs ++ ys) ≡ (any_at_all xs || any_at_all ys)
any_at_all-append [] ys = refl
any_at_all-append (x ∷ xs) ys = refl

module _ (e : Engine) (skip : String → Bool) where
  -- A name that is neither numerical, nor literals only, nor to be skipped.
  abbrev is_open : String → Bool
  is_open name = not (e.is_numerical name || has_literals_only e name || skip name)

  abbrev open_matches : List (List String) → List String
  open_matches [] = []
  open_matches ([] ∷ ms) = open_matches ms
  open_matches ((whole ∷ []) ∷ ms) = open_matches ms
  open_matches ((whole ∷ name ∷ groups) ∷ ms) =
      let rest = open_matches ms in if is_open name then name ∷ rest else rest

  -- The open names of an item.
  abbrev pub open_names : String → List String
  open_names item = open_matches (e.find_all item)

  collect_names-open :
      (ms : List (List String)) (names : List String)
      → collect_names e skip ms names ≡ names ++ open_matches ms
  unfolding collect_names
  collect_names-open [] names = sym (append-nil names)
  collect_names-open ([] ∷ ms) names = collect_names-open ms names
  collect_names-open ((whole ∷ []) ∷ ms) names = collect_names-open ms names
  collect_names-open ((whole ∷ name ∷ groups) ∷ ms) names =
      elim (Bool-cases (e.is_numerical name || has_literals_only e name || skip name)) [
        | inl h ↦ rw h (collect_names-open ms names)
        | inr h ↦ rw h (
            collect_names-open ms (names ++ name ∷ [])
            ∙ append_assoc names (name ∷ []) (open_matches ms))
      ]

  abbrev pub some_open : List String → Bool
  some_open [] = false
  some_open (item ∷ items) = any_at_all (open_names item) || some_open items

  -- The items before the first one that has no variable at all.
  abbrev pub searched : List String → List String
  searched [] = []
  searched (item ∷ items) =
      let rest = searched items in if any_at_all (e.find_all item) then item ∷ rest else []

  -- The open names of the first item that has some.
  abbrev pub first_open : List String → Option (List String)
  first_open [] = none
  first_open (item ∷ items) =
      let rest = first_open items in
      if any_at_all (open_names item) then some (open_names item) else rest

  first_open-none :
      (item : String) (items : List String)
      → open_names item ≡ []
      → first_open (item ∷ items) ≡ first_open items
  first_open-none item items o = ground (arith, o)

  first_open-some :
      (item n : String) (ns items : List String)
      → open_names item ≡ n ∷ ns
      → first_open (item ∷ items) ≡ some (n ∷ ns)
  first_open-some item n ns items o = ground (arith, o)

  -- The text of an error on the names.
  abbrev pub error_on : String → List String → String
  error_on message names = append message (join "," names)

  check_items-searched :
      (message : String) (items : List String)
      → check_items e message skip items
        ≡ Option.map (error_on message) (first_open (searched items))
  unfolding check_items
  check_items-searched message [] = refl
  check_items-searched message (item ∷ items) = elim (List-cases (e.find_all item)) [
    | inl h ↦ rw (check_items, h) refl
    | inr (m, ms, h) ↦ elim (List-cases (open_matches (m ∷ ms))) [
      | inl o ↦
          let c = collect_names-open (m ∷ ms) [] ∙ o in
          rw (check_items, h, c)
            (check_items-searched message items
              ∙ ap (Option.map (error_on message))
                  (sym (first_open-none item (searched items) (ap open_matches h ∙ o))))
      | inr (n, ns, o) ↦
          let c = collect_names-open (m ∷ ms) [] ∙ o in
          rw (check_items, h, c)
            (ap (Option.map (error_on message))
              (sym (first_open-some item n ns (searched items) (ap open_matches h ∙ o))))
    ]
  ]

  -- Every item has some variable.
  abbrev pub all_searched : List String → Bool
  all_searched [] = true
  all_searched (item ∷ items) = any_at_all (e.find_all item) && all_searched items

  open_of_all : List String → List String
  open_of_all [] = []
  open_of_all (item ∷ items) = open_names item ++ open_of_all items

  any_at_all-open_of_all : (items : List String) → any_at_all (open_of_all items) ≡ some_open items
  unfolding open_of_all
  any_at_all-open_of_all [] = refl
  any_at_all-open_of_all (item ∷ items) =
      any_at_all-append (open_names item) (open_of_all items)
      ∙ ap (λ b. any_at_all (open_names item) || b) (any_at_all-open_of_all items)

  gather_items-all :
      (items names : List String)
      → gather_items e skip items names
        ≡ (if all_searched items then some (names ++ open_of_all items) else none)
  unfolding gather_items open_of_all
  gather_items-all [] names = ap some (sym (append-nil names))
  gather_items-all (item ∷ items) names = elim (List-cases (e.find_all item)) [
    | inl h ↦ rw (gather_items, h) refl
    | inr (m, ms, h) ↦ ground (
      arith,
      h,
      gather_items-all items (collect_names e skip (m ∷ ms) names),
      collect_names-open (m ∷ ms) names,
      append_assoc names (open_matches (m ∷ ms)) (open_of_all items),
    )
  ]

module _ (e : Engine) where
  -- ContainsUnresolvedVariables() looks at the items before the first one without any variable. It gives
  -- no error where none of them has an open name, one that is no numerical expression and not made of
  -- literals only; else its error lists the open names of the first item that has some, in order. With
  -- names given, ContainsVariablesWithNames() does so for the open names that are not among them.
  pub contains_unresolved_variables-searched :
      (names : GoMap Value) (items : List String)
      → (contains_unresolved_variables e items
          ≡ Option.map
              (error_on e (λ name. false) "unresolved variables found: ")
              (first_open e (λ name. false) (searched e (λ name. false) items)))
        × (contains_variables_with_names e names items
            ≡ Option.map
                (error_on e (is_in names) "unresolved variables with values found: ")
                (first_open e (is_in names) (searched e (is_in names) items)))
  unfolding contains_unresolved_variables contains_variables_with_names
  contains_unresolved_variables-searched names items = (
    check_items-searched e (λ name. false) "unresolved variables found: " items,
    check_items-searched e (is_in names) "unresolved variables with values found: " items,
  )

  -- ContainsVariablesWithIgnoreList() reports an error just where every item has some variable, and some
  -- item has an open name that is not among the names to skip: one item without variables hides the rest.
  pub contains_variables_with_ignore_list-all :
      (skip_names : GoMap Value) (items : List String)
      → reports (contains_variables_with_ignore_list e skip_names items)
        ≡ (all_searched e (is_in skip_names) items && some_open e (is_in skip_names) items)
  unfolding contains_variables_with_ignore_list
  contains_variables_with_ignore_list-all skip_names items = ground (
    arith,
    gather_items-all e (is_in skip_names) items [],
    any_at_all-open_of_all e (is_in skip_names) items,
  )
