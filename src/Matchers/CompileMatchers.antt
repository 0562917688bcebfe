-- ===== src/Matchers/CompileMatchers.antt =====
-- CompileMatchers() of pkg/operators/matchers/compile.go, and what a compiled matcher has.
use webapp_sec_tools.Prelude.{
  String, Bool, not, ◌&&◌, Option, none, some, List, ◌++◌, str_eq, if◌then◌else◌, map,
}
use webapp_sec_tools.Prelude.Strings.{to_lower}
use webapp_sec_tools.Matchers.Types.{
  ConditionType, words_matcher, dsl_matcher, type_string, to_matcher_types, Matcher,
}
use webapp_sec_tools.Matchers.Compile.{
  unknown_type, bad_regex, bad_binary, bad_dsl, case_insensitive_type, Compiled, accepted, refused,
  ◌>>=◌, is_type, validate, compile_all, decode_word, set_condition,
}

module _ {Regex Dsl : Type 0} (regex_compile : String → Option Regex)
    (dsl_compile : String → Option Dsl) (xpath_ok : String → Bool)
    (decode : String → Option String) where
  unfoldable pub decode_words : Matcher Regex Dsl → Matcher Regex Dsl
  decode_words m = record m {
    words = if str_eq m.encoding "hex" then map (decode_word decode) m.words else m.words;
  }

  unfoldable pub set_type : Matcher Regex Dsl → Compiled (Matcher Regex Dsl)
  set_type m = elim (to_matcher_types (type_string m.type)) [
    | none ↦ refused unknown_type
    | some t ↦ accepted (record m { matcher_type = t })
  ]

  unfoldable pub default_part : Matcher Regex Dsl → Matcher Regex Dsl
  default_part m = record m {
    part = if str_eq m.part "" && not (is_type m.type dsl_matcher) then "body" else m.part;
  }

  unfoldable pub lower_words : Matcher Regex Dsl → Compiled (Matcher Regex Dsl)
  lower_words m =
      if not m.case_insensitive
      then accepted m
      else if not (is_type m.type words_matcher)
      then refused case_insensitive_type
      else accepted (record m { words = map to_lower m.words })

  -- What the loops over the texts and the condition give, put into the matcher.
  unfoldable pub assemble :
      Matcher Regex Dsl
      → Compiled (List Regex)
      → Compiled (List String)
      → Compiled (List Dsl)
      → Compiled ConditionType
      → Compiled (Matcher Regex Dsl)
  assemble m compiled decoded expressions condition = do
    regexes ← compiled
    binaries ← decoded
    exprs ← expressions
    c ← condition
    accepted (record m {
      regex_compiled = m.regex_compiled ++ regexes;
      binary_decoded = m.binary_decoded ++ binaries;
      dsl_compiled = m.dsl_compiled ++ exprs;
      condition = c;
    })

  unfoldable pub compile_patterns : Matcher Regex Dsl → Compiled (Matcher Regex Dsl)
  unfolding default_part assemble
  compile_patterns m =
      assemble (default_part m) (compile_all regex_compile bad_regex m.regex)
        (compile_all decode bad_binary m.binary) (compile_all dsl_compile bad_dsl m.dsl)
        (set_condition m.condition_name)

  unfoldable pub compile_matchers : Matcher Regex Dsl → Compiled (Matcher Regex Dsl)
  unfolding decode_words set_type compile_patterns lower_words
  compile_matchers matcher = do
    m ← set_type (decode_words matcher)
    _ ← validate xpath_ok m
    m' ← compile_patterns m
    lower_words m'
