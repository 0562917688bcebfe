-- ===== src/Operators/ExcludeMatchers.antt =====
-- pkg/protocols/common/utils/excludematchers: the block list of template and matcher names.
use Prim.Native.Char.{code}
use Prim.Native.String.{◌++◌ as append}
use webapp_sec_tools.Prelude.{
  String, Bool, true, false, ◌||◌, Option, none, some, List, [], ◌∷◌, ◌≡◌, refl, ◌==◌, str_eq,
  if◌then◌else◌, Option-cases, inl, inr, arith,
}
use webapp_sec_tools.Prelude.GoSet.{GoSet, has, add, has-add}

pub record ExcludeMatchers : Type 0 where
  pub values : GoSet
  pub template_ids : GoSet
  pub matcher_names : GoSet

-- strings.SplitN(s, ":", 2): `none` where there is no colon
unfoldable pub split_colon : String → Option (String × String)
split_colon String.[] = none
split_colon (String.◌∷◌ c s) =
    if code c == b':'
    then some ("", s)
    else elim (split_colon s) [ none ↦ none | some (a, b) ↦ some (String.◌∷◌ c a, b) ]

-- The body of the loop of New().
unfoldable pub exclude : String → ExcludeMatchers → ExcludeMatchers
exclude value e = elim (split_colon value) [
  | none ↦ record e { template_ids = add value e.template_ids }
  | some (template_id, matcher_name) ↦
      if str_eq template_id "*"
      then record e { matcher_names = add matcher_name e.matcher_names }
      else if str_eq matcher_name "*"
      then record e { template_ids = add template_id e.template_ids }
      else record e { values = add value e.values }
]

unfoldable pub exclude_all : List String → ExcludeMatchers → ExcludeMatchers
exclude_all [] e = e
exclude_all (v ∷ vs) e = exclude_all vs (exclude v e)

-- New()
unfoldable pub new_exclude_matchers : List String → ExcludeMatchers
unfolding exclude_all exclude
new_exclude_matchers values =
    exclude_all values (record { values = []; template_ids = []; matcher_names = [] })

-- Match()
unfoldable pub excludes : ExcludeMatchers → String → String → Bool
excludes e template_id matcher_name =
    if has template_id e.template_ids
    then true
    else if has matcher_name e.matcher_names
    then true
    else has (append template_id (append ":" matcher_name)) e.values

-- What one value of the list covers: a text with no colon a template, `*:name` a matcher's name in every
-- template, `id:*` all matchers of a template, and any other `id:name` the one matcher.
abbrev pub covers : String → String → String → Bool
covers value template_id matcher_name = elim (split_colon value) [
  | none ↦ str_eq value template_id
  | some (t, m) ↦
      if str_eq t "*"
      then str_eq m matcher_name
      else if str_eq m "*"
      then str_eq t template_id
      else str_eq value (append template_id (append ":" matcher_name))
]

abbrev pub any_covers : List String → String → String → Bool
any_covers [] t m = false
any_covers (v ∷ vs) t m = covers v t m || any_covers vs t m

excludes-exclude :
    (v : String) (e : ExcludeMatchers) (t m : String)
    → excludes (exclude v e) t m ≡ (covers v t m || excludes e t m)
unfolding exclude excludes
excludes-exclude v e t m =
    let full = append t (append ":" m) in
    elim (Option-cases (split_colon v)) [
      | inl s ↦ ground (arith, has-add v t e.template_ids)
      | inr ((a, b), s) ↦
          ground (
            arith,
            has-add b m e.matcher_names,
            has-add a t e.template_ids,
            has-add v full e.values,
          )
    ]

excludes-exclude_all :
    (vs : List String) (e : ExcludeMatchers) (t m : String)
    → excludes (exclude_all vs e) t m ≡ (any_covers vs t m || excludes e t m)
unfolding exclude_all
excludes-exclude_all [] e t m = refl
excludes-exclude_all (v ∷ vs) e t m =
    ground (arith, excludes-exclude_all vs (exclude v e) t m, excludes-exclude v e t m)

abbrev nothing : ExcludeMatchers
nothing = record { values = []; template_ids = []; matcher_names = [] }

excludes-nothing : (t m : String) → excludes nothing t m ≡ false
unfolding excludes has
excludes-nothing t m = refl

-- The block list built from `values` excludes a matcher of a template exactly if one of the values
-- covers it.
pub excludes-new :
    (values : List String) (template_id matcher_name : String)
    → excludes (new_exclude_matchers values) template_id matcher_name
      ≡ any_covers values template_id matcher_name
unfolding new_exclude_matchers
excludes-new values t m =
    ground (arith, excludes-exclude_all values nothing t m, excludes-nothing t m)
