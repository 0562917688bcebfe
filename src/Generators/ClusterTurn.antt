-- ===== src/Generators/ClusterTurn.antt =====
-- A whole pass of `clusterbombValue`, the lowest digit included, and `clusterbombIteratorReset`.
use native.Mathlib.Decide.{dec_lt}
use mathlib.Core.Bool.{false≢true}
use webapp_sec_tools.Prelude.{
  ℕ, zero, suc, ◌+◌, ◌*◌, ◌<◌, String, true, false, List, [], ◌∷◌, ◌≡◌, refl, sym, ap, ◌∙◌, length,
  get_or, arith,
}
use webapp_sec_tools.Prelude.GoMap.{GoMap, put}
use webapp_sec_tools.Generators.Iterator.{PayloadIterator, increment_position, reset_position}
use webapp_sec_tools.Generators.Values.{
  Pass, complete, restart, pass_cons, clusterbomb_loop, stepped,
}
use webapp_sec_tools.Generators.Odometer.{
  combination, lists_of, size, number, number-Zeros, radix, ZerosFrom, Ready,
}
use webapp_sec_tools.Generators.ClusterLoop.{
  loop_reads, loop_wraps, loop_restarts, loop-Zeros, Ends, completes, restarts,
}
use webapp_sec_tools.Generators.ClusterPass.{combination-digit, loop-Ends}

-- How a whole pass ends: with the combination at the number held, and one more held; or by a carry
-- past the most significant place `msb`.
pub data Turns (msb : ℕ) (ps : List PayloadIterator) : Pass → Type 0 where
  turned :
      {r : GoMap String} {ps' : List PayloadIterator}
      → r ≡ combination (number ps) (lists_of ps) []
      → lists_of ps' ≡ lists_of ps
      → Ready msb ps'
      → number ps' ≡ number ps + 1
      → Turns msb ps (complete r ps')
  carried :
      {ps' : List PayloadIterator}
      → lists_of ps' ≡ lists_of ps
      → ZerosFrom (suc msb) ps'
      → number ps ≡ radix (suc msb) (lists_of ps)
      → Turns msb ps (restart ps')

module _ (p : PayloadIterator) (ps : List PayloadIterator) where
  -- The lowest digit is read.
  Turns-reads :
      (m : ℕ) {r : Pass}
      → p.index < size p
      → Ends m false (put p.name (get_or p.values p.index "") []) ps r
      → Turns (suc m) (p ∷ ps) (pass_cons (increment_position p) r)
  unfolding pass_cons increment_position
  Turns-reads m h (completes {ps' = ps'} e l d n) =
      turned
        (e ∙ sym (combination-digit _ p.index (number ps + 0) p (lists_of ps) [] h (omega arith)))
        (ap (◌∷◌ (p.name, p.values)) l) (omega arith, omega arith, d)
        (omega (arith, ap (λ t. size p * t) n))
  Turns-reads m h (restarts s l z n) = absurd (false≢true s)

  -- The lowest digit wraps.
  Turns-wraps :
      (m : ℕ) {r : Pass}
      → p.index ≡ size p
      → 0 < size p
      → Ends m true (put p.name (get_or p.values 0 "") []) ps r
      → Turns (suc m) (p ∷ ps) (pass_cons (increment_position (reset_position p)) r)
  unfolding pass_cons increment_position reset_position
  Turns-wraps m h pos (completes {ps' = ps'} e l d n) =
      turned (e ∙ sym (combination-digit _ 0 (number ps + 1) p (lists_of ps) [] pos (omega arith)))
        (ap (◌∷◌ (p.name, p.values)) l) (omega arith, pos, d)
        (omega (arith, ap (λ t. size p * t) n))
  Turns-wraps m h pos (restarts s l z n) =
      carried (ap (◌∷◌ (p.name, p.values)) l) (pos, z) (omega (arith, ap (λ t. size p * t) n))

-- A pass over digits that are ready.
pub loop-Ready :
    (msb : ℕ) (ps : List PayloadIterator)
    → msb < length ps
    → Ready msb ps
    → Turns msb ps (clusterbomb_loop msb 0 false true [] ps)
unfolding stepped pass_cons increment_position
loop-Ready msb [] b h = absurd (omega arith)
loop-Ready zero (p ∷ ps) b (h, pos, z) = elim (dec_lt p.index (size p)) [
  | yes more ↦
      let acc = put p.name (get_or p.values p.index "") [] in
      rw (loop_reads 0 0 true [] p ps more, loop-Zeros 0 1 acc ps (omega arith) z)
        (turned
          (sym (
            combination-digit _ p.index 0 p (lists_of ps) [] more
              (omega (arith, ap (λ t. size p * t) (number-Zeros ps z)))))
          refl (omega arith, pos, z) (omega arith))
  | no full ↦
      rw (loop_restarts 0 true [] p ps (omega arith))
        (carried refl (pos, z) (omega (arith, ap (λ t. size p * t) (number-Zeros ps z))))
]
loop-Ready (suc m) (p ∷ ps) b (h, pos, d) = elim (dec_lt p.index (size p)) [
  | yes more ↦
      rw (loop_reads (suc m) 0 true [] p ps more)
        (Turns-reads p ps m more (loop-Ends m (suc m) 1 false _ ps (omega arith) (omega arith) d))
  | no full ↦ rw (loop_wraps (suc m) 0 true [] p ps (omega arith) pos (omega arith)) (
      Turns-wraps p ps m (omega arith) pos
        (loop-Ends m (suc m) 1 true _ ps (omega arith) (omega arith) d))
]
