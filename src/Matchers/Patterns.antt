-- ===== src/Matchers/Patterns.antt =====
-- The loops of `MatchRegex` and `MatchBinary` give the verdict of their condition.
use mathlib.Core.List.{append_assoc, append-nil}
use webapp_sec_tools.Prelude.{
  ℕ, suc, ◌+◌, String, Bool, true, false, ◌&&◌, List, [], ◌∷◌, ◌++◌, ◌≡◌, ◌≢◌, refl, if◌then◌else◌,
  length, arith,
}
use webapp_sec_tools.Prelude.Strings.{contains}
use webapp_sec_tools.Matchers.Types.{
  ConditionType, no_condition, and_condition, or_condition, Matcher,
}
use webapp_sec_tools.Matchers.Loops.{
  non_empty, match_regex_loop, match_regex, match_binary_loop, match_binary,
}
use webapp_sec_tools.Matchers.Verdict.{Outcomes, all_hit, hit_texts, first_hit, verdict}

module _ {Regex : Type 0} (match_string : Regex → String → Bool)
    (find_all_string : Regex → String → List String) where
  abbrev pub regex_outcomes : String → List Regex → Outcomes
  regex_outcomes corpus [] = []
  regex_outcomes corpus (r ∷ rs) =
      (match_string r corpus, find_all_string r corpus) ∷ regex_outcomes corpus rs

  module _ (total : ℕ) (corpus : String) where
    abbrev loop : ConditionType → Bool → ℕ → List String → List Regex → Bool × List String
    loop cond all i acc rs =
        match_regex_loop match_string find_all_string cond all total corpus i acc rs

    abbrev texts : List Regex → List String
    texts rs = hit_texts (regex_outcomes corpus rs)

    regex_or_first :
        (i : ℕ) (acc : List String) (rs : List Regex)
        → loop or_condition false i acc rs ≡ first_hit (regex_outcomes corpus rs)
    unfolding match_regex_loop
    regex_or_first i acc [] = ground arith
    regex_or_first i acc (r ∷ rs) = ground (arith, regex_or_first (i + 1) acc rs)

    regex_or_all :
        (i : ℕ) (acc : List String) (rs : List Regex)
        → loop or_condition true i acc rs
          ≡ (if non_empty (acc ++ texts rs) then (true, acc ++ texts rs) else (false, []))
    unfolding match_regex_loop
    regex_or_all i acc [] = rw append-nil (ground arith)
    regex_or_all i acc (r ∷ rs) = ground (
      arith,
      regex_or_all (i + 1) acc rs,
      regex_or_all (i + 1) (acc ++ find_all_string r corpus) rs,
      append_assoc acc (find_all_string r corpus) (texts rs),
    )

    regex_and_all :
        (i : ℕ) (acc : List String) (rs : List Regex)
        → loop and_condition true i acc rs ≡ (
            if all_hit (regex_outcomes corpus rs) && non_empty (acc ++ texts rs)
            then (true, acc ++ texts rs)
            else (false, []))
    unfolding match_regex_loop
    regex_and_all i acc [] = rw append-nil (ground arith)
    regex_and_all i acc (r ∷ rs) = ground (
      arith,
      regex_and_all (i + 1) (acc ++ find_all_string r corpus) rs,
      append_assoc acc (find_all_string r corpus) (texts rs),
    )

    regex_and_last :
        (i : ℕ) (acc : List String) (r : Regex) (rs : List Regex)
        → total ≡ i + suc (length rs)
        → loop and_condition false i acc (r ∷ rs) ≡ (
            if all_hit (regex_outcomes corpus (r ∷ rs))
            then (true, acc ++ texts (r ∷ rs))
            else (false, []))
    unfolding match_regex_loop
    regex_and_last i acc r [] e = ground (arith, append-nil (find_all_string r corpus))
    regex_and_last i acc r (q ∷ rs) e = ground (
      arith,
      regex_and_last (i + 1) (acc ++ find_all_string r corpus) q rs,
      append_assoc acc (find_all_string r corpus) (texts (q ∷ rs)),
    )

  regex-verdict :
      (cond : ConditionType) (all : Bool) (corpus : String) (rs : List Regex)
      → cond ≢ no_condition
      → match_regex_loop match_string find_all_string cond all (length rs) corpus 0 [] rs
        ≡ verdict cond all (regex_outcomes corpus rs)
  regex-verdict no_condition all corpus rs h = absurd (h refl)
  regex-verdict or_condition true corpus rs h = regex_or_all (length rs) corpus 0 [] rs
  regex-verdict or_condition false corpus rs h = regex_or_first (length rs) corpus 0 [] rs
  regex-verdict and_condition true corpus rs h = regex_and_all (length rs) corpus 0 [] rs
  regex-verdict and_condition false corpus [] h = unfold match_regex_loop in ground arith
  regex-verdict and_condition false corpus (r ∷ rs) h =
      regex_and_last (length (r ∷ rs)) corpus 0 [] r rs (omega arith)

  -- A matcher whose condition is set gives the verdict of its condition over its regular expressions.
  pub match_regex-verdict :
      {Dsl : Type 0} (matcher : Matcher Regex Dsl) (corpus : String)
      → matcher.condition ≢ no_condition
      → match_regex match_string find_all_string matcher corpus
        ≡ verdict matcher.condition matcher.match_all (regex_outcomes corpus matcher.regex_compiled)
  unfolding match_regex
  match_regex-verdict matcher corpus h =
      regex-verdict matcher.condition matcher.match_all corpus matcher.regex_compiled h

abbrev pub binary_outcomes : String → List String → Outcomes
binary_outcomes corpus [] = []
binary_outcomes corpus (b ∷ bs) = (contains corpus b, b ∷ []) ∷ binary_outcomes corpus bs

binary_or :
    (total : ℕ) (corpus : String) (i : ℕ) (acc bs : List String)
    → match_binary_loop or_condition total corpus i acc bs ≡ first_hit (binary_outcomes corpus bs)
unfolding match_binary_loop
binary_or total corpus i acc [] = ground arith
binary_or total corpus i acc (b ∷ bs) = ground (arith, binary_or total corpus (i + 1) acc bs)

binary_and :
    (total : ℕ) (corpus : String) (i : ℕ) (acc : List String) (b : String) (bs : List String)
    → total ≡ i + suc (length bs)
    → match_binary_loop and_condition total corpus i acc (b ∷ bs) ≡ (
        if all_hit (binary_outcomes corpus (b ∷ bs))
        then (true, acc ++ hit_texts (binary_outcomes corpus (b ∷ bs)))
        else (false, []))
unfolding match_binary_loop
binary_and total corpus i acc b [] e = ground arith
binary_and total corpus i acc b (c ∷ bs) e = ground (
  arith,
  binary_and total corpus (i + 1) (acc ++ b ∷ []) c bs,
  append_assoc acc (b ∷ []) (hit_texts (binary_outcomes corpus (c ∷ bs))),
)

binary-verdict :
    (cond : ConditionType) (total : ℕ) (corpus : String) (bs : List String)
    → cond ≢ no_condition
    → total ≡ length bs
    → match_binary_loop cond total corpus 0 [] bs ≡ verdict cond false (binary_outcomes corpus bs)
binary-verdict no_condition total corpus bs h e = absurd (h refl)
binary-verdict or_condition total corpus bs h e = binary_or total corpus 0 [] bs
binary-verdict and_condition total corpus [] h e = unfold match_binary_loop in ground arith
binary-verdict and_condition total corpus (b ∷ bs) h e =
    binary_and total corpus 0 [] b bs (omega arith)

-- A matcher whose condition is set, with one decoded value for each binary value, gives the verdict of
-- its condition without `match-all` over the decoded values.
pub match_binary-verdict :
    {Regex Dsl : Type 0} (matcher : Matcher Regex Dsl) (corpus : String)
    → matcher.condition ≢ no_condition
    → length matcher.binary ≡ length matcher.binary_decoded
    → match_binary matcher corpus
      ≡ verdict matcher.condition false (binary_outcomes corpus matcher.binary_decoded)
unfolding match_binary
match_binary-verdict matcher corpus h e =
    binary-verdict matcher.condition (length matcher.binary) corpus matcher.binary_decoded h e
