-- ===== src/Extractors/Extract.antt =====
-- pkg/operators/extractors/extract.go. The libraries that read the texts are parameters: the matches of
-- a regular expression, HTML and XML with XPath, JSON with jq, and DSL expressions. A set of results is
-- a list without order.
use webapp_sec_tools.Prelude.{
  ◌+◌, ◌^◌, ◌&&◌, String, Bool, false, not, Option, none, some, List, [], ◌∷◌, str_eq, ltb, length,
  get_elem?, if◌then◌else◌,
}
use webapp_sec_tools.Prelude.GoMap.{GoMap, lookup, put}
use webapp_sec_tools.Prelude.GoSet.{GoSet, add}
use webapp_sec_tools.Prelude.Int.{ℤ, pos, negsuc}
use webapp_sec_tools.Prelude.Strings.{to_lower, has_prefix}
use webapp_sec_tools.Prelude.Value.{Value, text, texts, other}
use webapp_sec_tools.Operators.Types.{Extractor}

-- len(match) < groupPlusOne: the sum wraps to a negative number above the greatest int, and is not
-- above 0 for a negative group.
abbrev pub is_short : ℤ → List String → Bool
is_short (pos g) match = ltb (g + 1) (2 ^ 63) && ltb (length match) (g + 1)
is_short (negsuc n) match = false

-- match[e.RegexGroup]: `none` is the panic of an index out of range.
abbrev pub group_of : ℤ → List String → Option String
group_of (pos g) match = get_elem? match g
group_of (negsuc n) match = none

-- The body of the loop over the matches of one expression.
unfoldable pub add_groups : ℤ → List (List String) → GoSet → Option GoSet
unfolding add
add_groups group [] results = some results
add_groups group (match ∷ ms) results =
    if is_short group match
    then add_groups group ms results
    else elim (group_of group match) [ none ↦ none | some s ↦ add_groups group ms (add s results) ]

-- The loop over the expressions. `find_all` is FindAllStringSubmatch(corpus, -1).
unfoldable pub add_regexes {ℓ} :
    {Regex : Type ℓ}
    → (Regex → String → List (List String))
    → ℤ
    → String
    → List Regex
    → GoSet
    → Option GoSet
unfolding add_groups
add_regexes find_all group corpus [] results = some results
add_regexes find_all group corpus (r ∷ rs) results =
    elim (add_groups group (find_all r corpus) results) [
      | none ↦ none
      | some results' ↦ add_regexes find_all group corpus rs results'
    ]

-- The copy of the data in lower case; `lower_value` is the type switch on a string.
abbrev pub lower_value : Value → Value
lower_value (text s) = text (to_lower s)
lower_value (texts ss) = texts ss
lower_value (other n) = other n

unfoldable pub lower_data : GoMap Value → GoMap Value → GoMap Value
lower_data [] data' = data'
lower_data ((k, v) ∷ m) data' = lower_data m (put (to_lower k) (lower_value v) data')

-- types.ToString(): the values that are no text are printed by the libraries strconv and fmt.
abbrev pub to_string : (Value → String) → Value → String
to_string format (text s) = s
to_string format v = format v

unfoldable pub add_kvals : (Value → String) → GoMap Value → List String → GoSet → GoSet
unfolding add
add_kvals format env [] results = results
add_kvals format env (k ∷ ks) results = elim (lookup k env) [
  | none ↦ add_kvals format env ks results
  | some item ↦ add_kvals format env ks (add (to_string format item) results)
]

-- htmlquery or xmlquery: documents, their nodes by a query, and the texts of a node.
pub record Documents : Type 1 where
  pub Doc : Type 0
  pub Node : Type 0
  pub parse : String → Option Doc
  pub query_all : Doc → String → Option (List Node)
  pub select_attr : Node → String → String
  pub inner_text : Node → String

module _ (d : Documents) where
  unfoldable pub add_nodes : String → List d.Node → GoSet → GoSet
  unfolding add
  add_nodes attribute [] results = results
  add_nodes attribute (n ∷ ns) results =
      let value = if not (str_eq attribute "") then d.select_attr n attribute else d.inner_text n in
      add_nodes attribute ns (add value results)

  unfoldable pub add_queries : String → d.Doc → List String → GoSet → GoSet
  unfolding add_nodes
  add_queries attribute doc [] results = results
  add_queries attribute doc (k ∷ ks) results = elim (d.query_all doc k) [
    | none ↦ add_queries attribute doc ks results
    | some nodes ↦ add_queries attribute doc ks (add_nodes attribute nodes results)
  ]

-- A step of jq's iterator.
pub data Item (Json : Type 0) : Type 0 where
  item : Json → Item Json
  item_error : Item Json

-- A value of package encoding/json, as JSONScalarToString() tells them apart.
pub data JsonKind : Type 0 where
  scalar composite : JsonKind

module _ {Json : Type 0} (kind : Json → JsonKind) (format : Json → String)
    (marshal : Json → Option String) where
  -- JSONScalarToString(), else json.Marshal(), else types.ToString()
  unfoldable pub json_text : Json → String
  json_text v = elim (kind v) [
    | scalar ↦ format v
    | composite ↦ elim (marshal v) [ some s ↦ s | none ↦ format v ]
  ]

  unfoldable pub add_items : List (Item Json) → GoSet → GoSet
  unfolding json_text add
  add_items [] results = results
  add_items (item_error ∷ is) results = results
  add_items (item v ∷ is) results = add_items is (add (json_text v) results)

  unfoldable pub add_json :
      {Query : Type 0} → (Query → Json → List (Item Json)) → Json → List Query → GoSet → GoSet
  unfolding add_items
  add_json run obj [] results = results
  add_json run obj (q ∷ qs) results = add_json run obj qs (add_items (run q obj) results)

-- The result of Evaluate(): a value that may be nil, and an error with its text.
pub record Evaluation : Type 0 where
  pub value : Option Value
  pub error : Option String

abbrev pub is_fatal : Option String → Bool
is_fatal none = false
is_fatal (some e) = not (has_prefix e "No parameter")

module _ {Dsl : Type 0} (evaluate : Dsl → GoMap Value → Evaluation) (sprint : Value → String) where
  unfoldable pub add_value : Option Value → GoSet → GoSet
  unfolding add
  add_value none results = results
  add_value (some v) results =
      if not (str_eq (sprint v) "") then add (sprint v) results else results

  unfoldable pub add_dsl : GoMap Value → List Dsl → GoSet → GoSet
  unfolding add_value
  add_dsl env [] results = results
  add_dsl env (c ∷ cs) results =
      let r = evaluate c env in
      let rest = add_dsl env cs (add_value r.value results) in
      if is_fatal r.error then results else rest

module _ {Regex Dsl Json : Type 0} where
  -- ExtractRegex()
  unfoldable pub extract_regex :
      (Regex → String → List (List String)) → Extractor Regex Dsl Json → String → Option GoSet
  unfolding add_regexes
  extract_regex find_all e corpus = add_regexes find_all e.regex_group corpus e.regex_compiled []

  -- ExtractKval()
  unfoldable pub extract_kval : (Value → String) → Extractor Regex Dsl Json → GoMap Value → GoSet
  unfolding lower_data add_kvals
  extract_kval format e env =
      add_kvals format (if e.case_insensitive then lower_data env [] else env) e.kval []

  -- ExtractHTML() and ExtractXML(), each over its library
  unfoldable pub extract_nodes : Documents → Extractor Regex Dsl Json → String → GoSet
  unfolding add_queries
  extract_nodes d e corpus = elim (d.parse corpus) [
    | none ↦ []
    | some doc ↦ add_queries d e.attribute doc e.xpath []
  ]

  -- ExtractXPath()
  unfoldable pub extract_xpath : Documents → Documents → Extractor Regex Dsl Json → String → GoSet
  unfolding extract_nodes
  extract_xpath html xml e corpus =
      if has_prefix corpus "<?xml" then extract_nodes xml e corpus else extract_nodes html e corpus

  -- ExtractJSON()
  unfoldable pub extract_json :
      {Object : Type 0}
      → (Object → JsonKind)
      → (Object → String)
      → (Object → Option String)
      → (String → Option Object)
      → (Json → Object → List (Item Object))
      → Extractor Regex Dsl Json
      → String
      → GoSet
  unfolding add_json
  extract_json kind format marshal unmarshal run e corpus = elim (unmarshal corpus) [
    | none ↦ []
    | some obj ↦ add_json kind format marshal run obj e.json_compiled []
  ]

  -- ExtractDSL()
  unfoldable pub extract_dsl :
      (Dsl → GoMap Value → Evaluation)
      → (Value → String)
      → Extractor Regex Dsl Json
      → GoMap Value
      → GoSet
  unfolding add_dsl
  extract_dsl evaluate sprint e env = add_dsl evaluate sprint env e.dsl_compiled []
