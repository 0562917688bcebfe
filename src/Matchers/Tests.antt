-- ===== src/Matchers/Tests.antt =====
-- Runs of the matchers of pkg/operators/matchers.
use webapp_sec_tools.Prelude.{
  ℕ, String, Bool, true, false, Option, some, List, [], ◌∷◌, ◌≡◌, refl, arith, str_eq,
  if◌then◌else◌,
}
use webapp_sec_tools.Prelude.Strings.{contains, trim_space, to_lower}
use webapp_sec_tools.Prelude.GoSet.{has}
use webapp_sec_tools.Matchers.Types.{
  and_condition, or_condition, no_condition, words_matcher, Matcher, to_matcher_types, type_string,
  condition_types,
}
use webapp_sec_tools.Matchers.Loops.{
  DslValue, truth, not_bool, match_words, match_regex, match_binary, match_dsl, match_document,
}
use webapp_sec_tools.Matchers.CompileMatchers.{compile_matchers}
use webapp_sec_tools.Matchers.Compile.{validate, compile_all, set_condition}
use webapp_sec_tools.Matchers.Ready.{IsReady, compile_matchers-IsReady}
use webapp_sec_tools.Matchers.Words.{match_words-verdict}
use webapp_sec_tools.Matchers.Patterns.{match_regex-verdict, match_binary-verdict}
use webapp_sec_tools.Matchers.Dsl.{match_dsl_lem, match_document_lem}

abbrev pub words_m : Matcher String String
words_m = record {
  type = words_matcher;
  condition_name = "and";
  part = "body";
  negative = false;
  name = "w";
  status = [];
  size = [];
  words = "ell" ∷ "hel" ∷ [];
  regex = [];
  binary = "656c6c" ∷ [];
  dsl = [];
  xpath = "//a" ∷ [];
  encoding = "";
  case_insensitive = false;
  match_all = false;
  internal = false;
  condition = and_condition;
  matcher_type = words_matcher;
  binary_decoded = "ell" ∷ [];
  regex_compiled = "l" ∷ "z" ∷ [];
  dsl_compiled = "x" ∷ "t" ∷ [];
}

abbrev plain : String → String → String × Bool
plain word env = (word, false)

match_words-verdict_example : match_words plain words_m "hello" "" ≡ (true, "ell" ∷ "hel" ∷ [])
unfolding contains
match_words-verdict_example = match_words-verdict plain words_m "hello" "" (ground arith)

abbrev find_all : String → String → List String
find_all r s = if contains s r then r ∷ [] else []

match_regex-verdict_example :
    match_regex (λ r s. contains s r) find_all words_m "hello" ≡ (false, [])
unfolding contains
match_regex-verdict_example =
    match_regex-verdict (λ r s. contains s r) find_all words_m "hello" (ground arith)

match_binary-verdict_example : match_binary words_m "hello" ≡ (true, "ell" ∷ [])
unfolding contains
match_binary-verdict_example = match_binary-verdict words_m "hello" (ground arith) refl

abbrev value : String → String → DslValue
value e env = if str_eq e "t" then truth true else not_bool

match_dsl_lem_example :
    (words_m.condition ≡ or_condition
      → match_dsl (λ e. false) (λ e env. some e) value words_m "" ≡ true)
    × (words_m.condition ≡ and_condition
        → match_dsl (λ e. false) (λ e env. some e) value words_m "" ≡ true)
match_dsl_lem_example =
    match_dsl_lem (λ e. false) (λ e env. some e) value words_m "" "x" ("t" ∷ []) refl

abbrev query : String → String → Option ℕ
query doc k = some 2

match_document_lem_example :
    (words_m.condition ≡ or_condition → match_document query some words_m "<a/>" ≡ true)
    × (words_m.condition ≡ and_condition → match_document query some words_m "<a/>" ≡ true)
match_document_lem_example = match_document_lem query some words_m "<a/>" "<a/>" refl

abbrev source_m : Matcher String String
source_m = record {
  type = words_matcher;
  condition_name = "and";
  part = "";
  negative = false;
  name = "w";
  status = [];
  size = [];
  words = "Ell" ∷ "hel" ∷ [];
  regex = [];
  binary = [];
  dsl = [];
  xpath = [];
  encoding = "";
  case_insensitive = true;
  match_all = false;
  internal = false;
  condition = no_condition;
  matcher_type = words_matcher;
  binary_decoded = [];
  regex_compiled = [];
  dsl_compiled = [];
}

abbrev compiled_m : Matcher String String
compiled_m = record source_m {
  part = "body";
  words = "ell" ∷ "hel" ∷ [];
  condition = and_condition;
  matcher_type = words_matcher;
}

compile_matchers-IsReady_example : IsReady some some (λ q. true) some source_m compiled_m
unfolding compile_matchers to_matcher_types trim_space to_lower type_string validate has compile_all
    set_condition condition_types
compile_matchers-IsReady_example = compile_matchers-IsReady some some (λ q. true) some source_m refl
