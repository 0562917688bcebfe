-- ===== src/Matchers/Compile.antt =====
-- pkg/operators/matchers/compile.go and validate.go. The compilers of regular expressions, of DSL
-- expressions and of XPath, and the decoder of hexadecimal text, are parameters.
use webapp_sec_tools.Prelude.{
  String, Bool, true, not, ◌&&◌, Option, none, some, List, [], ◌∷◌, ◌++◌, str_eq, if◌then◌else◌,
}
use webapp_sec_tools.Prelude.GoSet.{has}
use webapp_sec_tools.Matchers.Types.{
  ConditionType, or_condition, condition_types, MatcherType, no_type, words_matcher, regex_matcher,
  binary_matcher, status_matcher, size_matcher, dsl_matcher, xpath_matcher, type_string, Matcher,
}

pub data CompileError : Type 0 where
  unknown_type : CompileError
  unexpected_fields : List String → CompileError
  bad_xpath : CompileError
  bad_regex bad_binary bad_dsl : String → CompileError
  unknown_condition : String → CompileError
  case_insensitive_type : CompileError

pub data Compiled {ℓ} (A : Type ℓ) : Type ℓ where
  accepted : A → Compiled A
  refused : CompileError → Compiled A

-- The checks run in order, up to the first that refuses.
infixl 5 ◌>>=◌
abbrev pub ◌>>=◌ {ℓ κ} :
    {Found : Type ℓ} {More : Type κ} → Compiled Found → (Found → Compiled More) → Compiled More
refused why >>= next = refused why
accepted found >>= next = next found

unfoldable pub is_type : MatcherType → MatcherType → Bool
is_type a b = str_eq (type_string a) (type_string b)

-- commonExpectedFields, and the switch of Validate()
abbrev pub common_fields : List String
common_fields = "Type" ∷ "Condition" ∷ "Name" ∷ "MatchAll" ∷ "Negative" ∷ "Internal" ∷ []

unfoldable pub expected_fields : MatcherType → List String
expected_fields dsl_matcher = common_fields ++ ("DSL" ∷ [])
expected_fields status_matcher = common_fields ++ ("Status" ∷ "Part" ∷ [])
expected_fields size_matcher = common_fields ++ ("Size" ∷ "Part" ∷ [])
expected_fields words_matcher =
    common_fields ++ ("Words" ∷ "Part" ∷ "Encoding" ∷ "CaseInsensitive" ∷ [])
expected_fields binary_matcher =
    common_fields ++ ("Binary" ∷ "Part" ∷ "Encoding" ∷ "CaseInsensitive" ∷ [])
expected_fields regex_matcher =
    common_fields ++ ("Regex" ∷ "Part" ∷ "Encoding" ∷ "CaseInsensitive" ∷ [])
expected_fields xpath_matcher = common_fields ++ ("XPath" ∷ "Part" ∷ [])
expected_fields no_type = []

abbrev pub some_of {ℓ} : {A : Type ℓ} → String → List A → List String
some_of field [] = []
some_of field (x ∷ xs) = field ∷ []

abbrev pub text_of : String → String → List String
text_of field s = if str_eq s "" then [] else field ∷ []

abbrev pub flag_of : String → Bool → List String
flag_of field b = if b then field ∷ [] else []

module _ {Regex Dsl : Type 0} where
  -- The fields that the YAML form of the matcher holds: all but `type` are left out where empty.
  unfoldable pub marshalled_fields : Matcher Regex Dsl → List String
  marshalled_fields m =
      "Type"
      ∷ (text_of "Condition" m.condition_name
          ++ (text_of "Part" m.part
              ++ (flag_of "Negative" m.negative
                  ++ (text_of "Name" m.name
                      ++ (some_of "Status" m.status
                          ++ (some_of "Size" m.size
                              ++ (some_of "Words" m.words
                                  ++ (some_of "Regex" m.regex
                                      ++ (some_of "Binary" m.binary
                                          ++ (some_of "DSL" m.dsl
                                              ++ (some_of "XPath" m.xpath
                                                  ++ (text_of "Encoding" m.encoding
                                                      ++ (flag_of "CaseInsensitive"
                                                            m.case_insensitive
                                                          ++ (flag_of "MatchAll" m.match_all
                                                            ++ flag_of "Internal"
                                                            m.internal))))))))))))))

-- foundUnexpectedFields of checkFields()
unfoldable pub unexpected : List String → List String → List String
unexpected expected [] = []
unexpected expected (f ∷ fs) =
    let rest = unexpected expected fs in if has f expected then rest else f ∷ rest

unfoldable pub check_fields : List String → List String → Compiled (Unit {0})
unfolding unexpected
check_fields expected fields = elim (unexpected expected fields) [
  | [] ↦ accepted tt
  | f ∷ fs ↦ refused (unexpected_fields (f ∷ fs))
]

unfoldable pub all_compile : (String → Bool) → List String → Bool
all_compile xpath_ok [] = true
all_compile xpath_ok (q ∷ qs) = xpath_ok q && all_compile xpath_ok qs

-- Validate()
unfoldable pub validate :
    {Regex Dsl : Type 0} → (String → Bool) → Matcher Regex Dsl → Compiled (Unit {0})
unfolding check_fields expected_fields marshalled_fields is_type all_compile
validate xpath_ok m = check_fields (expected_fields m.matcher_type) (marshalled_fields m) >>= λ _.
    if is_type m.matcher_type xpath_matcher && not (all_compile xpath_ok m.xpath)
    then refused bad_xpath
    else accepted tt

-- The loops that compile or decode each text, and stop at the first that fails.
unfoldable pub compile_all {ℓ} :
    {A : Type ℓ} → (String → Option A) → (String → CompileError) → List String → Compiled (List A)
compile_all compile fail [] = accepted []
compile_all compile fail (s ∷ ss) = elim (compile s) [
  | none ↦ refused (fail s)
  | some a ↦ compile_all compile fail ss >>= λ as'. accepted (a ∷ as')
]

-- `decoded, refused := hex.DecodeString(word); refused == nil && len(decoded) > 0`
unfoldable pub decode_word : (String → Option String) → String → String
decode_word decode word = elim (decode word) [
  | none ↦ word
  | some s ↦ if str_eq s "" then word else s
]

unfoldable pub set_condition : String → Compiled ConditionType
set_condition name = if str_eq name "" then accepted or_condition else elim (condition_types name) [
  | none ↦ refused (unknown_condition name)
  | some c ↦ accepted c
]
