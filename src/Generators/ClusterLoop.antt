-- ===== src/Generators/ClusterLoop.antt =====
-- One pass of the loop of `clusterbombValue`, on the digits behind the lowest one: it reads the
-- combination at the number that the digits hold, after the carry.
use native.Mathlib.Nat.{zero-mod, zero-div}
use webapp_sec_tools.Prelude.{
  ℕ, suc, ◌+◌, ◌<◌, String, Bool, true, false, List, [], ◌∷◌, ◌≡◌, refl, get_or, get_elem?-get_or,
  arith,
}
use webapp_sec_tools.Prelude.GoMap.{GoMap, put}
use webapp_sec_tools.Generators.Iterator.{PayloadIterator, increment_position, reset_position}
use webapp_sec_tools.Generators.Values.{
  Pass, complete, restart, pass_cons, clusterbomb_loop, stepped,
}
use webapp_sec_tools.Generators.Odometer.{
  combination, lists_of, size, number, radix, Zeros, Digits, ZerosFrom,
}

-- A step at a payload that has a value: it is read, and the loop goes on without a signal.
pub loop_reads :
    (msb index : ℕ) (first : Bool) (acc : GoMap String) (p : PayloadIterator)
    (ps : List PayloadIterator)
    → p.index < size p
    → clusterbomb_loop msb index false first acc (p ∷ ps)
      ≡ pass_cons (stepped first p) (
          clusterbomb_loop msb
            (index + 1)
            false
            false
            (put p.name (get_or p.values p.index "") acc)
            ps)
unfolding clusterbomb_loop
loop_reads msb index first acc p ps h = ground (arith, get_elem?-get_or p.values p.index "" h)

-- A step at a payload that is at its end, below the most significant one: it wraps, and signals.
pub loop_wraps :
    (msb index : ℕ) (first : Bool) (acc : GoMap String) (p : PayloadIterator)
    (ps : List PayloadIterator)
    → p.index ≡ size p
    → 0 < size p
    → index < msb
    → clusterbomb_loop msb index false first acc (p ∷ ps)
      ≡ pass_cons
          (stepped first (reset_position p))
          (clusterbomb_loop msb (index + 1) true false (put p.name (get_or p.values 0 "") acc) ps)
unfolding clusterbomb_loop
loop_wraps msb index first acc p ps e pos h = ground (arith, get_elem?-get_or p.values 0 "" pos)

pub loop_restarts :
    (msb : ℕ) (first : Bool) (acc : GoMap String) (p : PayloadIterator) (ps : List PayloadIterator)
    → p.index ≡ size p
    → clusterbomb_loop msb msb false first acc (p ∷ ps) ≡ restart (p ∷ ps)
unfolding clusterbomb_loop
loop_restarts msb first acc p ps e = ground arith

-- A signal is an increment before the step.
pub loop_signal :
    (msb index : ℕ) (first : Bool) (acc : GoMap String) (p : PayloadIterator)
    (ps : List PayloadIterator)
    → clusterbomb_loop msb index true first acc (p ∷ ps)
      ≡ clusterbomb_loop msb index false first acc (increment_position p ∷ ps)
unfolding clusterbomb_loop
loop_signal msb index first acc p ps = refl

-- Behind the most significant place all digits are zero, and are read as they are.
pub loop-Zeros :
    (msb index : ℕ) (acc : GoMap String) (ps : List PayloadIterator)
    → msb < index
    → Zeros ps
    → clusterbomb_loop msb index false false acc ps ≡ complete (combination 0 (lists_of ps) acc) ps
unfolding clusterbomb_loop pass_cons stepped
loop-Zeros msb index acc [] h z = refl
loop-Zeros msb index acc (p ∷ ps) h (i, pos, z) = ground (
  arith,
  loop_reads msb index false acc p ps,
  zero-mod (size p),
  zero-div (size p),
  loop-Zeros msb (index + 1) (put p.name (get_or p.values 0 "") acc) ps,
)

abbrev pub bit : Bool → ℕ
bit true = 1
bit false = 0

-- How a pass ends: with the combination at `k`, the digits holding `k`; or by a carry past place
-- `m`, behind which all digits are zero.
pub data Ends (m : ℕ) (signal : Bool) (acc : GoMap String) (ps : List PayloadIterator)
    : Pass → Type 0 where
  completes :
      {r : GoMap String} {ps' : List PayloadIterator}
      → r ≡ combination (number ps + bit signal) (lists_of ps) acc
      → lists_of ps' ≡ lists_of ps
      → Digits m ps'
      → number ps' ≡ number ps + bit signal
      → Ends m signal acc ps (complete r ps')
  restarts :
      {ps' : List PayloadIterator}
      → signal ≡ true
      → lists_of ps' ≡ lists_of ps
      → ZerosFrom (suc m) ps'
      → number ps + 1 ≡ radix (suc m) (lists_of ps)
      → Ends m signal acc ps (restart ps')
