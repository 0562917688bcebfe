-- ===== src/Matchers/Words.antt =====
-- The loops of `MatchWords`, `MatchRegex` and `MatchBinary` give the verdict of their condition.
use mathlib.Core.List.{append_assoc, append-nil}
use webapp_sec_tools.Prelude.{
  ℕ, suc, ◌+◌, String, Bool, true, false, not, ◌&&◌, List, [], ◌∷◌, ◌++◌, ◌≡◌, ◌≢◌, refl,
  if◌then◌else◌, length, arith,
}
use webapp_sec_tools.Prelude.Strings.{contains, to_lower}
use webapp_sec_tools.Matchers.Types.{
  ConditionType, no_condition, and_condition, or_condition, is_and, Matcher,
}
use webapp_sec_tools.Matchers.Loops.{non_empty, match_words_loop, match_words}
use webapp_sec_tools.Matchers.Verdict.{Outcomes, all_hit, hit_texts, first_hit, verdict}

module _ {Data : Type 0} (evaluate : String → Data → String × Bool) where
  -- The outcome of a word: one that cannot be evaluated fails under `and`.
  abbrev pub word_outcomes : ConditionType → String → Data → List String → Outcomes
  word_outcomes cond corpus env [] = []
  word_outcomes cond corpus env (w ∷ ws) =
      let (word, failed) = evaluate w env in
      (contains corpus word && not (failed && is_and cond), word ∷ [])
      ∷ word_outcomes cond corpus env ws

  words_or_first :
      (total : ℕ) (corpus : String) (env : Data) (i : ℕ) (acc ws : List String)
      → match_words_loop evaluate or_condition false total corpus env i acc ws
        ≡ first_hit (word_outcomes or_condition corpus env ws)
  unfolding match_words_loop
  words_or_first total corpus env i acc [] = ground arith
  words_or_first total corpus env i acc (w ∷ ws) =
      ground (arith, words_or_first total corpus env (i + 1) acc ws)

  words_or_all :
      (total : ℕ) (corpus : String) (env : Data) (i : ℕ) (acc ws : List String)
      → match_words_loop evaluate or_condition true total corpus env i acc ws ≡ (
          if non_empty (acc ++ hit_texts (word_outcomes or_condition corpus env ws))
          then (true, acc ++ hit_texts (word_outcomes or_condition corpus env ws))
          else (false, []))
  unfolding match_words_loop
  words_or_all total corpus env i acc [] = rw append-nil (ground arith)
  words_or_all total corpus env i acc (w ∷ ws) = ground (
    arith,
    words_or_all total corpus env (i + 1) acc ws,
    words_or_all total corpus env (i + 1) (acc ++ (evaluate w env).0 ∷ []) ws,
    append_assoc acc ((evaluate w env).0 ∷ [])
        (hit_texts (word_outcomes or_condition corpus env ws)),
  )

  words_and_all :
      (total : ℕ) (corpus : String) (env : Data) (i : ℕ) (acc ws : List String)
      → match_words_loop evaluate and_condition true total corpus env i acc ws ≡ (
          if all_hit (word_outcomes and_condition corpus env ws)
            && non_empty (acc ++ hit_texts (word_outcomes and_condition corpus env ws))
          then (true, acc ++ hit_texts (word_outcomes and_condition corpus env ws))
          else (false, []))
  unfolding match_words_loop
  words_and_all total corpus env i acc [] = rw append-nil (ground arith)
  words_and_all total corpus env i acc (w ∷ ws) = ground (
    arith,
    words_and_all total corpus env (i + 1) (acc ++ (evaluate w env).0 ∷ []) ws,
    append_assoc acc ((evaluate w env).0 ∷ [])
        (hit_texts (word_outcomes and_condition corpus env ws)),
  )

  words_and_last :
      (total : ℕ) (corpus : String) (env : Data) (i : ℕ) (acc : List String) (w : String)
      (ws : List String)
      → total ≡ i + suc (length ws)
      → match_words_loop evaluate and_condition false total corpus env i acc (w ∷ ws) ≡ (
          if all_hit (word_outcomes and_condition corpus env (w ∷ ws))
          then (true, acc ++ hit_texts (word_outcomes and_condition corpus env (w ∷ ws)))
          else (false, []))
  unfolding match_words_loop
  words_and_last total corpus env i acc w [] e = ground arith
  words_and_last total corpus env i acc w (v ∷ ws) e = ground (
    arith,
    words_and_last total corpus env (i + 1) (acc ++ (evaluate w env).0 ∷ []) v ws,
    append_assoc acc ((evaluate w env).0 ∷ [])
        (hit_texts (word_outcomes and_condition corpus env (v ∷ ws))),
  )

  words-verdict :
      (cond : ConditionType) (all : Bool) (corpus : String) (env : Data) (ws : List String)
      → cond ≢ no_condition
      → match_words_loop evaluate cond all (length ws) corpus env 0 [] ws
        ≡ verdict cond all (word_outcomes cond corpus env ws)
  words-verdict no_condition all corpus env ws h = absurd (h refl)
  words-verdict or_condition true corpus env ws h = words_or_all (length ws) corpus env 0 [] ws
  words-verdict or_condition false corpus env ws h = words_or_first (length ws) corpus env 0 [] ws
  words-verdict and_condition true corpus env ws h = words_and_all (length ws) corpus env 0 [] ws
  words-verdict and_condition false corpus env [] h = unfold match_words_loop in ground arith
  words-verdict and_condition false corpus env (w ∷ ws) h =
      words_and_last (length (w ∷ ws)) corpus env 0 [] w ws (omega arith)

  -- A matcher whose condition is set gives, on the corpus (in lower case if `case-insensitive`), the
  -- verdict of its condition over its words.
  pub match_words-verdict :
      {Regex Dsl : Type 0} (matcher : Matcher Regex Dsl) (corpus : String) (env : Data)
      → matcher.condition ≢ no_condition
      → match_words evaluate matcher corpus env
        ≡ verdict matcher.condition matcher.match_all (
            word_outcomes matcher.condition
              (if matcher.case_insensitive then to_lower corpus else corpus)
              env
              matcher.words)
  unfolding match_words
  match_words-verdict matcher corpus env h =
      words-verdict matcher.condition matcher.match_all
        (if matcher.case_insensitive then to_lower corpus else corpus) env matcher.words h
