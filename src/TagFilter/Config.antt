-- ===== src/TagFilter/Config.antt =====
-- NewTagFilter() of pkg/templates/tag_filter.go.
use webapp_sec_tools.Prelude.{
  ℕ, String, Bool, false, not, ◌&&◌, ◌||◌, Option, none, some, List, [], ◌∷◌, ◌≡◌, refl,
  if◌then◌else◌, map, arith,
}
use webapp_sec_tools.Prelude.Strings.{contains, to_lower, trim_space, split_at}
use webapp_sec_tools.Prelude.GoMap.{GoMap, put}
use webapp_sec_tools.Prelude.NumSet.{add_number}
use webapp_sec_tools.Prelude.GoSet.{GoSet, has, add, add_all, discard, has-add_all, has-discard}
use webapp_sec_tools.TagFilter.Filter.{
  Severity, severity_number, ProtocolType, protocol_number, TagFilter,
}

pub record TagFilterConfig : Type 0 where
  pub tags : List String
  pub exclude_tags : List String
  pub authors : List String
  pub severities : List Severity
  pub exclude_severities : List Severity
  pub include_tags : List String
  pub include_ids : List String
  pub exclude_ids : List String
  pub protocols : List ProtocolType
  pub exclude_protocols : List ProtocolType
  pub include_conditions : List String

-- splitCommaTrim()
unfoldable pub split_comma_trim : String → List String
split_comma_trim value =
    if not (contains value ",")
    then to_lower value ∷ []
    else map (λ v. to_lower (trim_space v)) (split_at b',' value)

-- The loops over the parts of each value that add them to a set.
unfoldable pub add_split : List String → GoSet → GoSet
unfolding split_comma_trim
add_split [] s = s
add_split (value ∷ values) s = add_split values (add_all (split_comma_trim value) s)

unfoldable pub discard_all : List String → GoSet → GoSet
discard_all [] s = s
discard_all (v ∷ vs) s = discard_all vs (discard v s)

-- The loops that delete the parts of each value from a set.
unfoldable pub discard_split : List String → GoSet → GoSet
unfolding split_comma_trim discard_all
discard_split [] s = s
discard_split (value ∷ values) s = discard_split values (discard_all (split_comma_trim value) s)

-- The body of the loop over the excluded ids: it tests the block list of the tags.
unfoldable pub add_unblocked : GoSet → List String → GoSet → GoSet
add_unblocked block [] s = s
add_unblocked block (v ∷ vs) s = add_unblocked block vs (if not (has v block) then add v s else s)

unfoldable pub add_split_unblocked : GoSet → List String → GoSet → GoSet
unfolding add_unblocked split_comma_trim
add_split_unblocked block [] s = s
add_split_unblocked block (value ∷ values) s =
    add_split_unblocked block values (add_unblocked block (split_comma_trim value) s)

unfoldable pub add_numbers : List ℕ → List ℕ → List ℕ
unfolding add_number
add_numbers [] s = s
add_numbers (n ∷ ns) s = add_numbers ns (add_number n s)

module _ {Expression : Type 0} (compile : String → Option Expression) where
  unfoldable pub compile_conditions : List String → GoMap Expression → Option (GoMap Expression)
  compile_conditions [] m = some m
  compile_conditions (c ∷ cs) m = elim (compile c) [
    | none ↦ none
    | some e ↦ compile_conditions cs (put c e m)
  ]

  -- NewTagFilter(): `none` is the error of an expression that does not compile.
  unfoldable pub new_tag_filter : TagFilterConfig → Option (TagFilter Expression)
  unfolding add_split discard_split add_split_unblocked add_numbers compile_conditions
  new_tag_filter config =
      let block = discard_split config.include_tags (add_split config.exclude_tags []) in
      elim (compile_conditions config.include_conditions []) [
        | none ↦ none
        | some include_conditions ↦ some (record {
          allowed_tags = add_split config.tags [];
          severities = add_numbers (map severity_number config.severities) [];
          exclude_severities = add_numbers (map severity_number config.exclude_severities) [];
          authors = add_split config.authors [];
          block = block;
          match_allows = add_split config.include_tags [];
          types = add_numbers (map protocol_number config.protocols) [];
          exclude_types = add_numbers (map protocol_number config.exclude_protocols) [];
          allowed_ids = add_split config.include_ids [];
          exclude_ids =
              discard_split config.include_ids (add_split_unblocked block config.exclude_ids []);
          include_conditions = include_conditions;
        })
      ]

-- A text is one of the parts of the values.
abbrev pub named : String → List String → Bool
unfolding split_comma_trim
named x [] = false
named x (value ∷ values) = has x (split_comma_trim value) || named x values

pub has-add_split :
    (x : String) (values : List String) (s : GoSet)
    → has x (add_split values s) ≡ (named x values || has x s)
unfolding add_split
has-add_split x [] s = refl
has-add_split x (v ∷ vs) s = ground (
  arith,
  has-add_split x vs (add_all (split_comma_trim v) s),
  has-add_all x (split_comma_trim v) s,
)

has-discard_all :
    (x : String) (vs : List String) (s : GoSet)
    → has x (discard_all vs s) ≡ (not (has x vs) && has x s)
unfolding discard_all has
has-discard_all x [] s = refl
has-discard_all x (v ∷ vs) s = ground (arith, has-discard_all x vs (discard v s), has-discard v x s)

pub has-discard_split :
    (x : String) (values : List String) (s : GoSet)
    → has x (discard_split values s) ≡ (not (named x values) && has x s)
unfolding discard_split
has-discard_split x [] s = refl
has-discard_split x (v ∷ vs) s = ground (
  arith,
  has-discard_split x vs (discard_all (split_comma_trim v) s),
  has-discard_all x (split_comma_trim v) s,
)
