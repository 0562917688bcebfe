-- ===== src/Matchers/Verdict.antt =====
-- What the condition of a matcher means: the verdict over the outcomes of its patterns, in order. An
-- outcome is whether the pattern hit, and the texts that it hit.
use webapp_sec_tools.Prelude.{
  String, Bool, true, false, ◌&&◌, ◌||◌, List, [], ◌∷◌, ◌++◌, ◌≡◌, refl, if◌then◌else◌, arith,
}
use webapp_sec_tools.Matchers.Types.{ConditionType, no_condition, and_condition, or_condition}
use webapp_sec_tools.Matchers.Loops.{non_empty}

abbrev pub Outcomes : Type 0
Outcomes = List (Bool × List String)

abbrev pub any_hit : Outcomes → Bool
any_hit [] = false
any_hit ((hit, texts) ∷ os) = hit || any_hit os

abbrev pub all_hit : Outcomes → Bool
all_hit [] = true
all_hit ((hit, texts) ∷ os) = hit && all_hit os

-- The texts of the outcomes that hit.
abbrev pub hit_texts : Outcomes → List String
hit_texts [] = []
hit_texts ((hit, texts) ∷ os) = (if hit then texts else []) ++ hit_texts os

abbrev pub first_hit : Outcomes → Bool × List String
first_hit [] = (false, [])
first_hit ((hit, texts) ∷ os) = if hit then (true, texts) else first_hit os

abbrev pub is_empty : Outcomes → Bool
is_empty [] = true
is_empty (o ∷ os) = false

-- `or`: the first hit, or with `match-all` the texts of all hits. `and`: all of at least one pattern.
-- With `match-all` there must be a text.
abbrev pub verdict : ConditionType → Bool → Outcomes → Bool × List String
verdict or_condition false os = first_hit os
verdict or_condition true os =
    if non_empty (hit_texts os) then (true, hit_texts os) else (false, [])
verdict and_condition false os =
    if is_empty os then (false, []) else if all_hit os then (true, hit_texts os) else (false, [])
verdict and_condition true os =
    if all_hit os && non_empty (hit_texts os) then (true, hit_texts os) else (false, [])
verdict no_condition all os = (false, [])

pub first_hit-any : (os : Outcomes) → (first_hit os).0 ≡ any_hit os
first_hit-any [] = refl
first_hit-any ((hit, texts) ∷ os) = ground (arith, first_hit-any os)
