-- ===== src/Extractors/Tests.antt =====
-- Extractors run on concrete texts.
use webapp_sec_tools.Prelude.{
  arith, String, true, false, ◌&&◌, Option, none, some, List, [], ◌∷◌, ◌≡◌, refl, str_eq,
  if◌then◌else◌,
}
use webapp_sec_tools.Prelude.GoMap.{GoMap}
use webapp_sec_tools.Prelude.GoSet.{GoSet, has, add}
use webapp_sec_tools.Prelude.Int.{pos}
use webapp_sec_tools.Prelude.Strings.{has_prefix}
use webapp_sec_tools.Prelude.Value.{Value, text}
use webapp_sec_tools.Operators.Types.{Extractor, xpath_extractor}
use webapp_sec_tools.Operators.Tests.{token}
use webapp_sec_tools.Extractors.Extract.{
  Documents, Evaluation, extract_regex, extract_xpath, extract_dsl, add_dsl, add_value,
}
use webapp_sec_tools.Extractors.Compile.{
  compile_regex, compile_json, compile_dsl, compile_extractors,
}
use webapp_sec_tools.Extractors.Found.{
  in_regexes, extract_regex-has, in_document, extract_xpath-has,
}
use webapp_sec_tools.Extractors.Compilation.{is_done, all_done, compile_extractors-is_done}

-- Two matches, the second without a group.
abbrev two_matches : String → String → List (List String)
two_matches r corpus = (corpus ∷ r ∷ []) ∷ (corpus ∷ []) ∷ []

abbrev grouped : Extractor String String String
grouped = record token { regex_group = pos 1; regex_compiled = "x" ∷ "y" ∷ [] }

extract_regex-has_example :
    (out : GoSet) × (extract_regex two_matches grouped "body" ≡ some out)
    × ((s : String) → has s out ≡ in_regexes (λ r. two_matches r "body") 1 s ("x" ∷ "y" ∷ []))
extract_regex-has_example = extract_regex-has two_matches grouped "body" 1 refl (omega arith)

-- A document is its text, and a query finds the text itself.
abbrev echo : Documents
echo = record {
  Doc = String;
  Node = String;
  parse = λ s. some s;
  query_all = λ s q. some (s ∷ q ∷ []);
  select_attr = λ n a. a;
  inner_text = λ n. n;
}

abbrev unreadable : Documents
unreadable = record echo { parse = λ s. none }

abbrev titles : Extractor String String String
titles = record token { type = xpath_extractor; xpath = "//title" ∷ [] }

extract_xpath-has_example : has "//title" (extract_xpath echo unreadable titles "<html>") ≡ (
    if has_prefix "<html>" "<?xml"
    then in_document unreadable titles "<html>" "//title"
    else in_document echo titles "<html>" "//title")
extract_xpath-has_example = extract_xpath-has echo unreadable titles "<html>" "//title"

abbrev keep : String → Option String
keep s = some s

abbrev insensitive : Extractor String String String
insensitive = record token { case_insensitive = true; dsl = "len(body)" ∷ [] }

compile_extractors-is_done_example :
    is_done (compile_extractors keep keep keep keep insensitive) ≡ (
      all_done (compile_regex keep) []
      && all_done (compile_json keep keep) []
      && all_done (compile_dsl keep) ("len(body)" ∷ [])
      && false)
compile_extractors-is_done_example = compile_extractors-is_done keep keep keep keep insensitive

-- A fatal error ends the loop over the expressions.
abbrev evaluations : String → GoMap Value → Evaluation
evaluations c env =
    if str_eq c "bad"
    then record { value = none; error = some "syntax" }
    else record { value = some (text c); error = some "No parameter 'x' found." }

abbrev plain : Value → String
plain (text s) = s
plain v = ""

extract_dsl_test :
    extract_dsl evaluations plain (record token { dsl_compiled = "a" ∷ "bad" ∷ "b" ∷ [] }) []
    ≡ "a" ∷ []
unfolding extract_dsl add_dsl add_value add has has_prefix
extract_dsl_test = refl
