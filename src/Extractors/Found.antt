-- ===== src/Extractors/Found.antt =====
-- What the extractors of pkg/operators/extractors/extract.go find.
use webapp_sec_tools.Prelude.{
  ℕ, ◌+◌, ◌≤◌, ◌<◌, ◌^◌, ap, String, Bool, false, not, ◌||◌, none, some, List, [], ◌∷◌, ◌≡◌, refl,
  ◌∙◌, str_eq, length, get_elem?, get_elem?-get_or, get_or, arith, if◌then◌else◌, Bool-cases,
  Option-cases, inl, inr, zero, suc,
}
use webapp_sec_tools.Prelude.GoMap.{GoMap, lookup}
use webapp_sec_tools.Prelude.GoSet.{GoSet, has, add, has-add}
use webapp_sec_tools.Prelude.Int.{pos}
use webapp_sec_tools.Prelude.Strings.{has_prefix}
use webapp_sec_tools.Prelude.Value.{Value}
use webapp_sec_tools.Operators.Types.{Extractor}
use webapp_sec_tools.Extractors.Extract.{
  is_short, add_groups, add_regexes, extract_regex, to_string, add_kvals, extract_kval, lower_data,
  Documents, add_nodes, add_queries, extract_nodes, extract_xpath,
}

-- Some match has the text as the group.
abbrev pub in_matches : ℕ → String → List (List String) → Bool
in_matches group s [] = false
in_matches group s (match ∷ ms) =
    elim (get_elem? match group) [ none ↦ false | some t ↦ str_eq t s ] || in_matches group s ms

abbrev pub in_regexes {ℓ} :
    {Regex : Type ℓ} → (Regex → List (List String)) → ℕ → String → List Regex → Bool
in_regexes find group s [] = false
in_regexes find group s (r ∷ rs) = in_matches group s (find r) || in_regexes find group s rs

get_elem?-short : (xs : List String) (i : ℕ) → length xs ≤ i → get_elem? xs i ≡ none
get_elem?-short [] i h = refl
get_elem?-short (x ∷ xs) zero h = absurd (omega arith)
get_elem?-short (x ∷ xs) (suc i) h = get_elem?-short xs i (omega arith)

add_groups-has :
    (group : ℕ) (ms : List (List String)) (results : GoSet)
    → group + 1 < 2 ^ 63
    → (out : GoSet) × (add_groups (pos group) ms results ≡ some out)
      × ((s : String) → has s out ≡ (has s results || in_matches group s ms))
unfolding add_groups
add_groups-has group [] results b = (results, refl, λ s. ground arith)
add_groups-has group (m ∷ ms) results b = elim (Bool-cases (is_short (pos group) m)) [
  | inl e ↦
      let (out, p, q) = add_groups-has group ms results b in
      let n = get_elem?-short m group (ground arith) in (out, rw (add_groups, e) p, λ s. rw n (q s))
  | inr e ↦
      let n = get_elem?-get_or m group "" (ground arith) in
      let (out, p, q) = add_groups-has group ms (add (get_or m group "") results) b in
      (
        out,
        rw (add_groups, e, n) p,
        λ s. rw n (q s ∙ ground (arith, has-add (get_or m group "") s results)),
      )
]

add_regexes-has {ℓ} :
    {Regex : Type ℓ} (find_all : Regex → String → List (List String)) (group : ℕ) (corpus : String)
    (rs : List Regex) (results : GoSet)
    → group + 1 < 2 ^ 63
    → (out : GoSet) × (add_regexes find_all (pos group) corpus rs results ≡ some out)
      × ((s : String)
          → has s out ≡ (has s results || in_regexes (λ r. find_all r corpus) group s rs))
unfolding add_regexes
add_regexes-has find_all group corpus [] results b = (results, refl, λ s. ground arith)
add_regexes-has find_all group corpus (r ∷ rs) results b =
    let (mid, p, q) = add_groups-has group (find_all r corpus) results b in
    let (out, p', q') = add_regexes-has find_all group corpus rs mid b in
    (out, rw (add_regexes, p) p', λ s. ground (arith, q s, q' s))

module _ {Regex Dsl Json : Type 0} where
  -- Where the extractor's group is not negative, and below the greatest int, ExtractRegex() does not
  -- panic, and its set holds just the texts that this group has in some match of some of the extractor's
  -- expressions; matches without the group count for nothing.
  pub extract_regex-has :
      (find_all : Regex → String → List (List String)) (e : Extractor Regex Dsl Json)
      (corpus : String) (group : ℕ)
      → e.regex_group ≡ pos group
      → group + 1 < 2 ^ 63
      → (out : GoSet) × (extract_regex find_all e corpus ≡ some out)
        × ((s : String) → has s out ≡ in_regexes (λ r. find_all r corpus) group s e.regex_compiled)
  unfolding extract_regex has
  extract_regex-has find_all e corpus group g b =
      let (out, p, q) = add_regexes-has find_all group corpus e.regex_compiled [] b in
      (out, ap (λ n. add_regexes find_all n corpus e.regex_compiled []) g ∙ p, q)

-- Some key of the list has the value.
abbrev pub in_kvals : (Value → String) → GoMap Value → String → List String → Bool
in_kvals format env s [] = false
in_kvals format env s (k ∷ ks) =
    elim (lookup k env) [ none ↦ false | some v ↦ str_eq (to_string format v) s ]
    || in_kvals format env s ks

add_kvals-has :
    (format : Value → String) (env : GoMap Value) (ks : List String) (results : GoSet) (s : String)
    → has s (add_kvals format env ks results) ≡ (has s results || in_kvals format env s ks)
unfolding add_kvals
add_kvals-has format env [] results s = ground arith
add_kvals-has format env (k ∷ ks) results s = elim (Option-cases (lookup k env)) [
  | inl e ↦ rw (add_kvals, e) (add_kvals-has format env ks results s)
  | inr (v, e) ↦
      rw (add_kvals, e)
        (add_kvals-has format env ks (add (to_string format v) results) s
          ∙ ground (arith, has-add (to_string format v) s results))
]

module _ (d : Documents) where
  -- Some node has the text.
  abbrev pub in_nodes : String → String → List d.Node → Bool
  in_nodes attribute s [] = false
  in_nodes attribute s (n ∷ ns) =
      str_eq (if str_eq attribute "" then d.inner_text n else d.select_attr n attribute) s
      || in_nodes attribute s ns

  abbrev pub in_queries : String → String → d.Doc → List String → Bool
  in_queries attribute s doc [] = false
  in_queries attribute s doc (k ∷ ks) =
      elim (d.query_all doc k) [ none ↦ false | some ns ↦ in_nodes attribute s ns ]
      || in_queries attribute s doc ks

  add_nodes-has :
      (attribute : String) (ns : List d.Node) (results : GoSet) (s : String)
      → has s (add_nodes d attribute ns results) ≡ (has s results || in_nodes attribute s ns)
  unfolding add_nodes
  add_nodes-has attribute [] results s = ground arith
  add_nodes-has attribute (n ∷ ns) results s =
      let v = if not (str_eq attribute "") then d.select_attr n attribute else d.inner_text n in
      add_nodes-has attribute ns (add v results) s ∙ ground (arith, has-add v s results)

  add_queries-has :
      (attribute : String) (doc : d.Doc) (ks : List String) (results : GoSet) (s : String)
      → has s (add_queries d attribute doc ks results)
        ≡ (has s results || in_queries attribute s doc ks)
  unfolding add_queries
  add_queries-has attribute doc [] results s = ground arith
  add_queries-has attribute doc (k ∷ ks) results s = elim (Option-cases (d.query_all doc k)) [
    | inl e ↦ rw (add_queries, e) (add_queries-has attribute doc ks results s)
    | inr (ns, e) ↦
        rw (add_queries, e)
          (add_queries-has attribute doc ks (add_nodes d attribute ns results) s
            ∙ ground (arith, add_nodes-has attribute ns results s))
  ]

  -- The text is found in a document that parses.
  abbrev pub in_document :
      {Regex Dsl Json : Type 0} → Extractor Regex Dsl Json → String → String → Bool
  in_document e corpus s = elim (d.parse corpus) [
    | none ↦ false
    | some doc ↦ in_queries e.attribute s doc e.xpath
  ]

  extract_nodes-has :
      {Regex Dsl Json : Type 0} (e : Extractor Regex Dsl Json) (corpus s : String)
      → has s (extract_nodes d e corpus) ≡ in_document e corpus s
  unfolding extract_nodes has
  extract_nodes-has e corpus s =
      elim (d.parse corpus)
        as (λ o.
          has s (elim o [ none ↦ [] | some doc ↦ add_queries d e.attribute doc e.xpath [] ])
          ≡ elim o [ none ↦ false | some doc ↦ in_queries e.attribute s doc e.xpath ]) [
            | none ↦ refl
            | some doc ↦ add_queries-has e.attribute doc e.xpath [] s
          ]

module _ {Regex Dsl Json : Type 0} where
  -- ExtractXPath() reads a text that starts with `<?xml` as XML and any other as HTML; its set holds
  -- just the texts, or the attribute's values, of the nodes of the queries that can be run, and is empty
  -- where the document cannot be parsed.
  pub extract_xpath-has :
      (html xml : Documents) (e : Extractor Regex Dsl Json) (corpus s : String)
      → has s (extract_xpath html xml e corpus) ≡ (
          if has_prefix corpus "<?xml"
          then in_document xml e corpus s
          else in_document html e corpus s)
  unfolding extract_xpath
  extract_xpath-has html xml e corpus s =
      ground (arith, extract_nodes-has html e corpus s, extract_nodes-has xml e corpus s)

  -- ExtractKval() gives just the values of the extractor's keys in the data, printed; under
  -- `case-insensitive` the data are first put into lower case.
  pub extract_kval-has :
      (format : Value → String) (e : Extractor Regex Dsl Json) (env : GoMap Value) (s : String)
      → has s (extract_kval format e env)
        ≡ in_kvals format (if e.case_insensitive then lower_data env [] else env) s e.kval
  unfolding extract_kval has
  extract_kval-has format e env s =
      add_kvals-has format (if e.case_insensitive then lower_data env [] else env) e.kval [] s
