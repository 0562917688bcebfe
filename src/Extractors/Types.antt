-- ===== src/Extractors/Types.antt =====
-- pkg/operators/extractors/extractor_types.go and util.go. The types Extractor and ExtractorType stand
-- in Operators/Types.
use webapp_sec_tools.Prelude.{
  String, Bool, true, false, Option, none, some, List, [], ◌∷◌, str_eq, if◌then◌else◌,
}
use webapp_sec_tools.Prelude.Strings.{to_lower, trim_space}
use webapp_sec_tools.Operators.Types.{
  ExtractorType, no_extractor, regex_extractor, kval_extractor, xpath_extractor, json_extractor,
  dsl_extractor, Extractor,
}

-- (t ExtractorType) String()
unfoldable pub extractor_string : ExtractorType → String
extractor_string no_extractor = ""
extractor_string regex_extractor = "regex"
extractor_string kval_extractor = "kval"
extractor_string xpath_extractor = "xpath"
extractor_string json_extractor = "json"
extractor_string dsl_extractor = "dsl"

-- GetSupportedExtractorTypes()
abbrev pub supported : List ExtractorType
supported = regex_extractor ∷ kval_extractor ∷ xpath_extractor ∷ json_extractor ∷ dsl_extractor ∷ []

unfoldable pub find_type : String → List ExtractorType → Option ExtractorType
unfolding extractor_string
find_type value [] = none
find_type value (t ∷ ts) = if str_eq value (extractor_string t) then some t else find_type value ts

-- toExtractorTypes(): `none` is the error
unfoldable pub to_extractor_types : String → Option ExtractorType
unfolding find_type
to_extractor_types value = find_type (trim_space (to_lower value)) supported

-- SupportsMap()
unfoldable pub supports_map : {Regex Dsl Json : Type 0} → Extractor Regex Dsl Json → Bool
supports_map e = elim e.type [ kval_extractor ↦ true | dsl_extractor ↦ true | _ ↦ false ]
