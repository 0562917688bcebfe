-- ===== src/Matchers/Types.antt =====
-- pkg/operators/matchers/matchers.go and matchers_types.go: the matcher and its two enumerations. What
-- a package outside the repository compiles (regular expressions, DSL expressions) is a parameter of
-- the functions that use it, so the compiled fields have their types as parameters.
use webapp_sec_tools.Prelude.{
  String, Bool, true, false, not, Option, none, some, List, [], str_eq, if◌then◌else◌,
}
use webapp_sec_tools.Prelude.Int.{ℤ}
use webapp_sec_tools.Prelude.Strings.{to_lower, trim_space}

-- `no_condition` is the zero value of the Go type.
pub data ConditionType : Type 0 where
  no_condition and_condition or_condition : ConditionType

-- ConditionTypes[s], with the zero value and false for another text
unfoldable pub condition_types : String → Option ConditionType
condition_types s =
    if str_eq s "and" then some and_condition else if str_eq s "or" then some or_condition else none

pub data MatcherType : Type 0 where
  no_type words_matcher regex_matcher binary_matcher status_matcher : MatcherType
  size_matcher dsl_matcher xpath_matcher : MatcherType

-- (t MatcherType) String()
unfoldable pub type_string : MatcherType → String
type_string no_type = ""
type_string words_matcher = "word"
type_string regex_matcher = "regex"
type_string binary_matcher = "binary"
type_string status_matcher = "status"
type_string size_matcher = "size"
type_string dsl_matcher = "dsl"
type_string xpath_matcher = "xpath"

-- toMatcherTypes(): `none` is the error
unfoldable pub to_matcher_types : String → Option MatcherType
to_matcher_types value =
    let normalized = trim_space (to_lower value) in
    if str_eq normalized "status"
    then some status_matcher
    else if str_eq normalized "size"
    then some size_matcher
    else if str_eq normalized "word"
    then some words_matcher
    else if str_eq normalized "regex"
    then some regex_matcher
    else if str_eq normalized "binary"
    then some binary_matcher
    else if str_eq normalized "dsl"
    then some dsl_matcher
    else if str_eq normalized "xpath"
    then some xpath_matcher
    else none

pub record Matcher (Regex Dsl : Type 0) : Type 0 where
  pub type : MatcherType
  pub condition_name : String
  pub part : String
  pub negative : Bool
  pub name : String
  pub status : List ℤ
  pub size : List ℤ
  pub words : List String
  pub regex : List String
  pub binary : List String
  pub dsl : List String
  pub xpath : List String
  pub encoding : String
  pub case_insensitive : Bool
  pub match_all : Bool
  pub internal : Bool
  pub condition : ConditionType
  pub matcher_type : MatcherType
  pub binary_decoded : List String
  pub regex_compiled : List Regex
  pub dsl_compiled : List Dsl

-- Result()
unfoldable pub result : {Regex Dsl : Type 0} → Matcher Regex Dsl → Bool → Bool
result matcher b = if matcher.negative then not b else b

-- ResultWithMatchedSnippet()
unfoldable pub result_with_matched_snippet :
    {Regex Dsl : Type 0} → Matcher Regex Dsl → Bool → List String → Bool × List String
result_with_matched_snippet matcher b snippet =
    if matcher.negative then (not b, []) else (b, snippet)

abbrev pub is_and : ConditionType → Bool
is_and and_condition = true
is_and _ = false

abbrev pub is_or : ConditionType → Bool
is_or or_condition = true
is_or _ = false
