-- ===== src/Generators/ClusterReset.antt =====
-- The restarts of `clusterbombValue`: `clusterbombIteratorReset`, and the pass behind it.
use native.Mathlib.Decide.{dec_lt}
use webapp_sec_tools.Prelude.{
  ℕ, zero, suc, ◌+◌, ◌*◌, ◌<◌, String, true, false, List, [], ◌∷◌, ◌≡◌, refl, ap, ◌∙◌, ◌⊎◌, inl,
  inr, length, get_or, arith,
}
use webapp_sec_tools.Prelude.GoMap.{GoMap, put}
use webapp_sec_tools.Generators.Iterator.{PayloadIterator, increment_position}
use webapp_sec_tools.Generators.Values.{
  restart, pass_cons, clusterbomb_loop, stepped, iterator_reset,
}
use webapp_sec_tools.Generators.Odometer.{
  lists_of, size, number-UnitAt, radix, Digits, ZerosFrom, UnitAt,
}
use webapp_sec_tools.Generators.ClusterLoop.{loop_reads, loop_restarts}
use webapp_sec_tools.Generators.ClusterTurn.{Turns, carried, loop-Ready}

reset-Zeros :
    (msb index : ℕ) (ps : List PayloadIterator) → msb < index → iterator_reset msb index ps ≡ ps
unfolding iterator_reset
reset-Zeros msb index [] h = refl
reset-Zeros msb index (p ∷ ps) h = ground (arith, reset-Zeros msb (index + 1) ps)

-- The reset keeps the lists, and leaves one at place `msb` and zero elsewhere.
pub reset-UnitAt :
    (m msb index : ℕ) (ps : List PayloadIterator)
    → msb ≡ index + m
    → m < length ps
    → ZerosFrom m ps
    → UnitAt m (iterator_reset msb index ps)
      × (lists_of (iterator_reset msb index ps) ≡ lists_of ps)
unfolding iterator_reset
reset-UnitAt m msb index [] e b h = absurd (omega arith)
reset-UnitAt zero msb index (p ∷ ps) e b (i, pos, z) =
    rw (reset-Zeros msb (index + 1) ps (omega arith)) (ground arith)
reset-UnitAt (suc m) msb index (p ∷ ps) e b (pos, z) =
    ground (arith, reset-UnitAt m msb (index + 1) ps (omega arith) (omega arith) z)

-- Behind the lowest digit: either the unit is a digit, or the pass carries again.
UnitAt-cases :
    (m msb index : ℕ) (acc : GoMap String) (ps : List PayloadIterator)
    → msb ≡ index + m
    → UnitAt m ps
    → Digits m ps
      ⊎ ((clusterbomb_loop msb index false false acc ps ≡ restart ps)
          × ZerosFrom (suc m) ps
          × (radix m (lists_of ps) ≡ radix (suc m) (lists_of ps)))
unfolding pass_cons stepped
UnitAt-cases m msb index acc [] e h = elim h [ ]
UnitAt-cases zero msb index acc (p ∷ ps) e (i, pos, z) = elim (dec_lt p.index (size p)) [
  | yes more ↦ inl (more, z)
  | no full ↦ inr (ground (arith, loop_restarts msb false acc p ps), (pos, z), omega arith)
]
UnitAt-cases (suc m) msb index acc (p ∷ ps) e (i, pos, u) =
    let acc' = put p.name (get_or p.values p.index "") acc in
    elim (UnitAt-cases m msb (index + 1) acc' ps (omega arith) u) [
      | inl d ↦ inl (omega arith, d)
      | inr (r, z, n) ↦
          inr (rw (loop_reads msb index false acc p ps (omega arith), r), (pos, z), rw n)
    ]

-- A pass behind a reset.
pub loop-UnitAt :
    (m : ℕ) (ps : List PayloadIterator)
    → suc m < length ps
    → UnitAt (suc m) ps
    → Turns (suc m) ps (clusterbomb_loop (suc m) 0 false true [] ps)
unfolding pass_cons stepped increment_position
loop-UnitAt m [] b h = elim h [ ]
loop-UnitAt m (p ∷ ps) b (i, pos, u) =
    let acc = put p.name (get_or p.values p.index "") [] in
    elim (UnitAt-cases m (suc m) 1 acc ps (omega arith) u) [
      | inl d ↦ loop-Ready (suc m) (p ∷ ps) b (omega arith, pos, d)
      | inr (r, z, n) ↦
          rw (loop_reads (suc m) 0 true [] p ps (omega arith), r)
            (carried refl (pos, z) (omega (arith, ap (λ t. size p * t) (number-UnitAt m ps u ∙ n))))
    ]
