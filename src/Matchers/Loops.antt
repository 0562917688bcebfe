-- ===== src/Matchers/Loops.antt =====
-- pkg/operators/matchers/match.go: the loops of the match functions, one function for each loop. `i` is
-- the loop's index, `total` the length that the code compares it with, `acc` what has matched so far.
use webapp_sec_tools.Prelude.{
  ℕ, ◌+◌, String, Bool, true, false, not, ◌&&◌, Option, none, some, List, [], ◌∷◌, ◌++◌, ◌==◌,
  if◌then◌else◌, length,
}
use webapp_sec_tools.Prelude.Int.{ℤ, eq_ℤ}
use webapp_sec_tools.Prelude.Strings.{contains, has_prefix, to_lower}
use webapp_sec_tools.Matchers.Types.{
  ConditionType, no_condition, and_condition, or_condition, is_and, is_or, Matcher,
}

unfoldable pub non_empty : List String → Bool
non_empty [] = false
non_empty (x ∷ xs) = true

-- MatchStatusCode() and MatchSize()
unfoldable pub match_number : ℤ → List ℤ → Bool
match_number n [] = false
match_number n (m ∷ ms) = if not (eq_ℤ n m) then match_number n ms else true

module _ {Regex Dsl : Type 0} where
  unfoldable pub match_status_code : Matcher Regex Dsl → ℤ → Bool
  unfolding match_number
  match_status_code matcher code = match_number code matcher.status

  unfoldable pub match_size : Matcher Regex Dsl → ℤ → Bool
  unfolding match_number
  match_size matcher length = match_number length matcher.size

-- The loop of MatchWords(). `evaluate` is expressions.Evaluate: the text and whether it failed.
module _ {Data : Type 0} (evaluate : String → Data → String × Bool) where
  unfoldable pub match_words_loop :
      ConditionType → Bool → ℕ → String → Data → ℕ → List String → List String → Bool × List String
  unfolding non_empty
  match_words_loop cond all total corpus env i acc [] =
      if non_empty acc && all then (true, acc) else (false, [])
  match_words_loop cond all total corpus env i acc (w ∷ ws) =
      let (word, failed) = evaluate w env in
      let skip = match_words_loop cond all total corpus env (i + 1) acc ws in
      let acc' = acc ++ word ∷ [] in
      let go_on = match_words_loop cond all total corpus env (i + 1) acc' ws in
      let hit =
        if is_or cond && not all
        then (true, word ∷ [])
        else if total == i + 1 && not all
        then (true, acc')
        else go_on in
      if failed && is_and cond
      then (false, [])
      else if contains corpus word
      then hit
      else elim cond [ and_condition ↦ (false, []) | or_condition ↦ skip | no_condition ↦ hit ]

  module _ {Regex Dsl : Type 0} where
    unfoldable pub match_words : Matcher Regex Dsl → String → Data → Bool × List String
    unfolding match_words_loop
    match_words matcher corpus env =
        let corpus' = if matcher.case_insensitive then to_lower corpus else corpus in
        match_words_loop matcher.condition matcher.match_all (length matcher.words) corpus' env 0 []
          matcher.words

-- The loop of MatchRegex(): MatchString and FindAllString are those of the regexp package.
module _ {Regex : Type 0} (match_string : Regex → String → Bool)
    (find_all_string : Regex → String → List String) where
  unfoldable pub match_regex_loop :
      ConditionType → Bool → ℕ → String → ℕ → List String → List Regex → Bool × List String
  unfolding non_empty
  match_regex_loop cond all total corpus i acc [] =
      if non_empty acc && all then (true, acc) else (false, [])
  match_regex_loop cond all total corpus i acc (r ∷ rs) =
      let current = find_all_string r corpus in
      let skip = match_regex_loop cond all total corpus (i + 1) acc rs in
      let acc' = acc ++ current in
      let go_on = match_regex_loop cond all total corpus (i + 1) acc' rs in
      let hit =
        if is_or cond && not all
        then (true, current)
        else if total == i + 1 && not all
        then (true, acc')
        else go_on in
      if match_string r corpus
      then hit
      else elim cond [ and_condition ↦ (false, []) | or_condition ↦ skip | no_condition ↦ hit ]

  unfoldable pub match_regex : {Dsl : Type 0} → Matcher Regex Dsl → String → Bool × List String
  unfolding match_regex_loop
  match_regex matcher corpus =
      match_regex_loop matcher.condition matcher.match_all (length matcher.regex_compiled) corpus 0
        [] matcher.regex_compiled

-- The loop of MatchBinary(), which reads no `match-all`.
unfoldable pub match_binary_loop :
    ConditionType → ℕ → String → ℕ → List String → List String → Bool × List String
match_binary_loop cond total corpus i acc [] = (false, [])
match_binary_loop cond total corpus i acc (b ∷ bs) =
    let skip = match_binary_loop cond total corpus (i + 1) acc bs in
    let acc' = acc ++ b ∷ [] in
    let go_on = match_binary_loop cond total corpus (i + 1) acc' bs in
    let hit =
      if is_or cond then (true, b ∷ []) else if total == i + 1 then (true, acc') else go_on in
    if contains corpus b
    then hit
    else elim cond [ and_condition ↦ (false, []) | or_condition ↦ skip | no_condition ↦ hit ]

module _ {Regex Dsl : Type 0} where
  unfoldable pub match_binary : Matcher Regex Dsl → String → Bool × List String
  unfolding match_binary_loop
  match_binary matcher corpus =
      match_binary_loop matcher.condition (length matcher.binary) corpus 0 [] matcher.binary_decoded

-- What Evaluate() of a compiled DSL expression gives: an error, a value that is no bool, or a bool.
pub data DslValue : Type 0 where
  dsl_error : DslValue
  not_bool : DslValue
  truth : Bool → DslValue

-- The loop of MatchDSL(). `unresolved` is ContainsUnresolvedVariables on the expression's text, and
-- `resolve` evaluates that text and compiles the result, `none` where either fails.
module _ {Dsl Data : Type 0} (unresolved : Dsl → Bool) (resolve : Dsl → Data → Option Dsl)
    (evaluate : Dsl → Data → DslValue) where
  unfoldable pub resolved : Dsl → Data → Option Dsl
  resolved e env = if unresolved e then resolve e env else some e

  unfoldable pub match_dsl_loop : ConditionType → ℕ → Data → ℕ → List Dsl → Bool
  unfolding resolved
  match_dsl_loop cond total env i [] = false
  match_dsl_loop cond total env i (e ∷ es) =
      let rest = match_dsl_loop cond total env (i + 1) es in
      let hit = if is_or cond then true else if total == i + 1 then true else rest in
      elim (resolved e env) [
        | none ↦ false
        | some e' ↦ elim (evaluate e' env) [
          | dsl_error ↦ if is_and cond then false else rest
          | not_bool ↦ rest
          | truth b ↦
              if b
              then hit
              else elim cond [ and_condition ↦ false | or_condition ↦ rest | no_condition ↦ hit ]
        ]
      ]

  unfoldable pub match_dsl : {Regex : Type 0} → Matcher Regex Dsl → Data → Bool
  unfolding match_dsl_loop
  match_dsl matcher env =
      match_dsl_loop matcher.condition (length matcher.dsl_compiled) env 0 matcher.dsl_compiled

-- The loop of MatchHTML() and MatchXML(): `query` is QueryAll on the parsed document, `none` where it
-- fails and else the number of nodes.
module _ {Doc : Type 0} (query : Doc → String → Option ℕ) where
  unfoldable pub match_nodes_loop : ConditionType → Bool → Doc → ℕ → List String → Bool
  match_nodes_loop cond all doc matches [] = not (matches == 0)
  match_nodes_loop cond all doc matches (k ∷ ks) =
      let skip = match_nodes_loop cond all doc matches ks in
      elim (query doc k) [
        | none ↦ skip
        | some nodes ↦
            let go_on = match_nodes_loop cond all doc (matches + nodes) ks in
            let hit = if is_or cond && not all then true else go_on in
            if not (nodes == 0)
            then hit
            else elim cond [ and_condition ↦ false | or_condition ↦ skip | no_condition ↦ hit ]
      ]

  unfoldable pub match_document :
      {Regex Dsl : Type 0} → (String → Option Doc) → Matcher Regex Dsl → String → Bool
  unfolding match_nodes_loop
  match_document parse matcher corpus = elim (parse corpus) [
    | none ↦ false
    | some doc ↦ match_nodes_loop matcher.condition matcher.match_all doc 0 matcher.xpath
  ]

-- MatchXPath(), from the two parsers and their queries
unfoldable pub match_xpath :
    {Html Xml Regex Dsl : Type 0}
    → (Html → String → Option ℕ)
    → (String → Option Html)
    → (Xml → String → Option ℕ)
    → (String → Option Xml)
    → Matcher Regex Dsl
    → String
    → Bool
unfolding match_document
match_xpath html_query html_parse xml_query xml_parse matcher corpus =
    if has_prefix corpus "<?xml"
    then match_document xml_query xml_parse matcher corpus
    else match_document html_query html_parse matcher corpus
