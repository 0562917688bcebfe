-- ===== src/Matchers/Dsl.antt =====
-- What `MatchDSL` and the XPath matchers accept.
use webapp_sec_tools.Prelude.{
  ℕ, suc, ◌+◌, String, Bool, false, not, ◌&&◌, ◌||◌, Option, none, some, List, [], ◌∷◌, ◌≡◌, refl,
  ◌==◌, if◌then◌else◌, length, arith, Option-cases, inl, inr,
}
use webapp_sec_tools.Matchers.Types.{and_condition, or_condition, Matcher}
use webapp_sec_tools.Matchers.Loops.{
  DslValue, dsl_error, not_bool, truth, match_dsl_loop, match_dsl, match_nodes_loop, match_document,
}

module _ {Dsl Data : Type 0} (unresolved : Dsl → Bool) (resolve : Dsl → Data → Option Dsl)
    (evaluate : Dsl → Data → DslValue) where
  -- What an expression comes to: `none` where its variables cannot be resolved.
  abbrev pub outcome : Data → Dsl → Option DslValue
  outcome env e = elim (if unresolved e then resolve e env else some e) [
    | none ↦ none
    | some e' ↦ some (evaluate e' env)
  ]

  -- Some expression is true, and all before it can be resolved.
  abbrev pub reaches_true : Data → List Dsl → Bool
  reaches_true env [] = false
  reaches_true env (e ∷ es) =
      let rest = reaches_true env es in
      elim (outcome env e) [
        | none ↦ false
        | some v ↦ elim v [ truth b ↦ b || rest | dsl_error ↦ rest | not_bool ↦ rest ]
      ]

  -- No expression is unresolved, fails or is false, and the last is true.
  abbrev pub holds_to_last : Data → Dsl → List Dsl → Bool
  holds_to_last env e [] = elim (outcome env e) [
    | none ↦ false
    | some v ↦ elim v [ truth b ↦ b | dsl_error ↦ false | not_bool ↦ false ]
  ]
  holds_to_last env e (f ∷ es) =
      let rest = holds_to_last env f es in
      elim (outcome env e) [
        | none ↦ false
        | some v ↦ elim v [ truth b ↦ b && rest | dsl_error ↦ false | not_bool ↦ rest ]
      ]

  dsl_or :
      (total : ℕ) (env : Data) (i : ℕ) (es : List Dsl)
      → match_dsl_loop unresolved resolve evaluate or_condition total env i es ≡ reaches_true env es
  unfolding match_dsl_loop
  dsl_or total env i [] = refl
  dsl_or total env i (e ∷ es) = ground (arith, dsl_or total env (i + 1) es)

  dsl_and :
      (total : ℕ) (env : Data) (i : ℕ) (e : Dsl) (es : List Dsl)
      → total ≡ i + suc (length es)
      → match_dsl_loop unresolved resolve evaluate and_condition total env i (e ∷ es)
        ≡ holds_to_last env e es
  unfolding match_dsl_loop
  dsl_and total env i e [] h = ground arith
  dsl_and total env i e (f ∷ es) h = ground (arith, dsl_and total env (i + 1) f es)

  -- A matcher whose compiled expressions are e and then es: under `or` it accepts exactly if an
  -- expression is true and none up to it is unresolved. Under `and` it accepts exactly if no expression
  -- is unresolved, fails or is false, and the last one is true: one that is no bool is passed over
  -- anywhere but at the end.
  pub match_dsl_lem :
      {Regex : Type 0} (matcher : Matcher Regex Dsl) (env : Data) (e : Dsl) (es : List Dsl)
      → matcher.dsl_compiled ≡ e ∷ es
      → (matcher.condition ≡ or_condition
          → match_dsl unresolved resolve evaluate matcher env ≡ reaches_true env (e ∷ es))
        × (matcher.condition ≡ and_condition
            → match_dsl unresolved resolve evaluate matcher env ≡ holds_to_last env e es)
  unfolding match_dsl
  match_dsl_lem matcher env e es h = (
    λ c. rw (c, h) (dsl_or (length (e ∷ es)) env 0 (e ∷ es)),
    λ c. rw (c, h) (dsl_and (length (e ∷ es)) env 0 e es (omega arith)),
  )

module _ {Doc : Type 0} (query : Doc → String → Option ℕ) where
  -- A query finds a node.
  abbrev pub finds : Doc → String → Bool
  finds doc k = elim (query doc k) [ none ↦ false | some n ↦ not (n == 0) ]

  -- A query that does not fail finds no node.
  abbrev pub finds_none : Doc → String → Bool
  finds_none doc k = elim (query doc k) [ none ↦ false | some n ↦ n == 0 ]

  abbrev pub any_finds : Doc → List String → Bool
  any_finds doc [] = false
  any_finds doc (k ∷ ks) = finds doc k || any_finds doc ks

  abbrev pub any_finds_none : Doc → List String → Bool
  any_finds_none doc [] = false
  any_finds_none doc (k ∷ ks) = finds_none doc k || any_finds_none doc ks

  nodes_or :
      (all : Bool) (doc : Doc) (matches : ℕ) (ks : List String)
      → match_nodes_loop query or_condition all doc matches ks
        ≡ (not (matches == 0) || any_finds doc ks)
  unfolding match_nodes_loop
  nodes_or all doc matches [] = ground arith
  nodes_or all doc matches (k ∷ ks) = elim (Option-cases (query doc k)) [
    | inl e ↦ ground (arith, nodes_or all doc matches ks)
    | inr (n, e) ↦ ground (arith, nodes_or all doc matches ks, nodes_or all doc (matches + n) ks)
  ]

  nodes_and :
      (all : Bool) (doc : Doc) (matches : ℕ) (ks : List String)
      → match_nodes_loop query and_condition all doc matches ks
        ≡ (not (any_finds_none doc ks) && (not (matches == 0) || any_finds doc ks))
  unfolding match_nodes_loop
  nodes_and all doc matches [] = ground arith
  nodes_and all doc matches (k ∷ ks) = elim (Option-cases (query doc k)) [
    | inl e ↦ ground (arith, nodes_and all doc matches ks)
    | inr (n, e) ↦ ground (arith, nodes_and all doc (matches + n) ks)
  ]

  -- A document that parses is accepted under `or` if some query finds a node, and under `and` if some
  -- query finds a node and none that does not fail finds no node, whatever `match-all` says.
  pub match_document_lem :
      {Regex Dsl : Type 0} (parse : String → Option Doc) (matcher : Matcher Regex Dsl)
      (corpus : String) (doc : Doc)
      → parse corpus ≡ some doc
      → (matcher.condition ≡ or_condition
          → match_document query parse matcher corpus ≡ any_finds doc matcher.xpath)
        × (matcher.condition ≡ and_condition
            → match_document query parse matcher corpus
              ≡ (not (any_finds_none doc matcher.xpath) && any_finds doc matcher.xpath))
  unfolding match_document
  match_document_lem parse matcher corpus doc h = (
    λ c. rw (h, c, match_document) (nodes_or matcher.match_all doc 0 matcher.xpath),
    λ c. rw (h, c, match_document) (nodes_and matcher.match_all doc 0 matcher.xpath),
  )
