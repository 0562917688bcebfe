-- ===== src/Generators/ClusterPass.antt =====
-- How a pass of the loop of `clusterbombValue` ends, from the digits that it starts with.
use mathlib.Core.Bool.{false≢true}
use webapp_sec_tools.Prelude.{
  ℕ, zero, suc, ◌+◌, ◌*◌, ◌<◌, String, Bool, true, false, List, [], ◌∷◌, ◌≡◌, refl, sym, ap, ◌∙◌,
  length, get_or, arith,
}
use native.Mathlib.Decide.{dec_lt}
use webapp_sec_tools.Prelude.GoMap.{GoMap, put}
use webapp_sec_tools.Prelude.Digits.{mod_digit, div_digit}
use webapp_sec_tools.Generators.Iterator.{PayloadIterator, increment_position, reset_position}
use webapp_sec_tools.Generators.Values.{Pass, pass_cons, clusterbomb_loop, stepped}
use webapp_sec_tools.Generators.Odometer.{
  combination, lists_of, size, number, number-Zeros, Zeros, Digits,
}
use webapp_sec_tools.Generators.ClusterLoop.{
  loop_reads, loop_wraps, loop_restarts, loop_signal, loop-Zeros, Ends, completes, restarts,
}

-- The combination at `d + n * v` takes element `d` of the first list, and goes on with `v`.
pub combination-digit :
    (k d v : ℕ) (p : PayloadIterator) (g : GoMap (List String)) (acc : GoMap String)
    → d < size p
    → k ≡ d + size p * v
    → combination k ((p.name, p.values) ∷ g) acc
      ≡ combination v g (put p.name (get_or p.values d "") acc)
combination-digit k d v p g acc h e = rw e (rw (mod_digit d (size p) v h, div_digit d (size p) v h))

module _ (m : ℕ) (acc : GoMap String) (p : PayloadIterator) (ps : List PayloadIterator) where
  Ends-reads :
      {r : Pass}
      → p.index < size p
      → Ends m false (put p.name (get_or p.values p.index "") acc) ps r
      → Ends (suc m) false acc (p ∷ ps) (pass_cons p r)
  unfolding pass_cons
  Ends-reads h (completes {ps' = ps'} e l d n) =
      completes
        (e ∙ sym (combination-digit _ p.index (number ps + 0) p (lists_of ps) acc h (omega arith)))
        (ap (◌∷◌ (p.name, p.values)) l) (h, d) (omega (arith, ap (λ t. size p * t) n))
  Ends-reads h (restarts s l z n) = absurd (false≢true s)

  Ends-signal :
      {r : Pass} → Ends m false acc (increment_position p ∷ ps) r → Ends m true acc (p ∷ ps) r
  unfolding increment_position
  Ends-signal (completes {ps' = ps'} e l d n) =
      completes (e ∙ ap (λ k. combination k (lists_of (p ∷ ps)) acc) (omega arith)) l d
        (omega arith)
  Ends-signal (restarts s l z n) = absurd (false≢true s)

  Ends-wraps :
      {r : Pass}
      → p.index + 1 ≡ size p
      → Ends m true (put p.name (get_or p.values 0 "") acc) ps r
      → Ends (suc m) true acc (p ∷ ps) (pass_cons (reset_position p) r)
  unfolding pass_cons reset_position
  Ends-wraps h (completes {ps' = ps'} e l d n) =
      completes
        (e
          ∙ sym (
              combination-digit _ 0 (number ps + 1) p (lists_of ps) acc (omega arith)
                (omega arith)))
        (ap (◌∷◌ (p.name, p.values)) l) (omega arith, d) (omega (arith, ap (λ t. size p * t) n))
  Ends-wraps h (restarts s l z n) =
      restarts refl (ap (◌∷◌ (p.name, p.values)) l) (omega arith, z)
        (omega (arith, ap (λ t. size p * t) n))

module _ (msb index : ℕ) (acc : GoMap String) (p : PayloadIterator)
    (ps : List PayloadIterator) where
  -- At the most significant place, without a signal and with one.
  loop_top :
      msb ≡ index
      → p.index < size p
      → Zeros ps
      → Ends 0 false acc (p ∷ ps) (clusterbomb_loop msb index false false acc (p ∷ ps))
  unfolding pass_cons stepped
  loop_top e h z =
      let a' = put p.name (get_or p.values p.index "") acc in
      rw (loop_reads msb index false acc p ps h, loop-Zeros msb (index + 1) a' ps (omega arith) z)
        (completes
          (sym (
            combination-digit _ p.index 0 p (lists_of ps) acc h
              (omega (arith, ap (λ t. size p * t) (number-Zeros ps z)))))
          refl (h, z) (omega arith))

  loop_top_full :
      msb ≡ index
      → p.index + 1 ≡ size p
      → Zeros ps
      → Ends 0 true acc (p ∷ ps) (clusterbomb_loop msb index true false acc (p ∷ ps))
  unfolding increment_position
  loop_top_full e h z =
      rw
        (
          loop_signal msb index false acc p ps,
          ← e,
          loop_restarts msb false acc (increment_position p) ps h,
        )
        (restarts refl refl (omega arith, z)
          (omega (arith, ap (λ t. size p * t) (number-Zeros ps z))))

-- A pass over the digits up to place `m`, which the list reaches, ends in one of the two ways.
pub loop-Ends :
    (m msb index : ℕ) (signal : Bool) (acc : GoMap String) (ps : List PayloadIterator)
    → msb ≡ index + m
    → m < length ps
    → Digits m ps
    → Ends m signal acc ps (clusterbomb_loop msb index signal false acc ps)
unfolding increment_position reset_position stepped
loop-Ends m msb index signal acc [] e b h = absurd (omega arith)
loop-Ends zero msb index false acc (p ∷ ps) e b (h, z) =
    loop_top msb index acc p ps (omega arith) h z
loop-Ends zero msb index true acc (p ∷ ps) e b (h, z) = elim (dec_lt (p.index + 1) (size p)) [
  | yes more ↦ rw (loop_signal msb index false acc p ps) (
      Ends-signal 0 acc p ps
        (loop_top msb index acc (increment_position p) ps (omega arith) more z))
  | no full ↦ loop_top_full msb index acc p ps (omega arith) (omega arith) z
]
loop-Ends (suc m) msb index false acc (p ∷ ps) e b (h, t) =
    rw (loop_reads msb index false acc p ps h) (
      Ends-reads m acc p ps h (
        loop-Ends m msb (index + 1) false (put p.name (get_or p.values p.index "") acc) ps
          (omega arith) (omega arith) t))
loop-Ends (suc m) msb index true acc (p ∷ ps) e b (h, t) =
    let p' = increment_position p in
    let reads =
      loop-Ends m msb (index + 1) false (put p.name (get_or p.values (p.index + 1) "") acc) ps
        (omega arith) (omega arith) t in
    let wraps =
      loop-Ends m msb (index + 1) true (put p.name (get_or p.values 0 "") acc) ps (omega arith)
        (omega arith) t in
    rw (loop_signal msb index false acc p ps) (elim (dec_lt (p.index + 1) (size p)) [
      | yes more ↦
          rw (loop_reads msb index false acc p' ps more)
            (Ends-signal (suc m) acc p ps (Ends-reads m acc p' ps more reads))
      | no full ↦
          rw (loop_wraps msb index false acc p' ps (omega arith) (omega arith) (omega arith))
            (Ends-wraps m acc p ps (omega arith) wraps)
    ])
