-- ===== src/Operators/Types.antt =====
-- The types of pkg/operators/operators.go, and of pkg/operators/extractors/extractors.go: the operators
-- of a request and the result that they give.
use webapp_sec_tools.Prelude.{String, Bool, Option, List}
use webapp_sec_tools.Prelude.Int.{ℤ}
use webapp_sec_tools.Prelude.GoMap.{GoMap}
use webapp_sec_tools.Prelude.GoSet.{GoSet}
use webapp_sec_tools.Prelude.Value.{Value}
use webapp_sec_tools.Matchers.Types.{ConditionType, Matcher}
use webapp_sec_tools.Operators.ExcludeMatchers.{ExcludeMatchers}

pub data ExtractorType : Type 0 where
  no_extractor regex_extractor kval_extractor xpath_extractor : ExtractorType
  json_extractor dsl_extractor : ExtractorType

pub record Extractor (Regex Dsl Json : Type 0) : Type 0 where
  pub name : String
  pub type : ExtractorType
  pub regex : List String
  pub regex_group : ℤ
  pub regex_compiled : List Regex
  pub kval : List String
  pub json : List String
  pub xpath : List String
  pub attribute : String
  pub json_compiled : List Json
  pub dsl : List String
  pub dsl_compiled : List Dsl
  pub part : String
  pub internal : Bool
  pub case_insensitive : Bool

pub record Operators (Regex Dsl Json : Type 0) : Type 0 where
  pub matchers : List (Matcher Regex Dsl)
  pub extractors : List (Extractor Regex Dsl Json)
  pub condition_name : String
  pub condition : ConditionType
  pub template_id : String
  pub exclude_matchers : Option ExcludeMatchers

-- `payload_values` may be a nil map, `none`: a write to it panics. The other maps are not nil, since the
-- results that are merged come from Execute(), which makes them. The reference to the operators is left
-- out.
pub record Result : Type 0 where
  pub matched : Bool
  pub extracted : Bool
  pub matches : GoMap (List String)
  pub extracts : GoMap (List String)
  pub output_extracts : List String
  pub output_unique : GoSet
  pub dynamic_values : GoMap (List String)
  pub payload_values : Option (GoMap Value)
  pub line_count : String
