-- ===== src/Generators/ClusterBomb.antt =====
-- `clusterbombValue` as a counter: call `k` returns combination `k`.
use webapp_sec_tools.Prelude.{
  ℕ, zero, suc, ◌+◌, ◌<◌, ◌≤◌, ◌^◌, String, true, false, List, [], ◌≡◌, refl, sym, ap, ◌∙◌, length,
  arith,
}
use mathlib.Core.Path.{subst}
use native.Mathlib.Decide.{dec_lt}
use webapp_sec_tools.Prelude.GoMap.{GoMap}
use webapp_sec_tools.Generators.Iterator.{
  PayloadIterator, Iterator, cluster_bomb, next, exhausted, int_lt,
}
use webapp_sec_tools.Generators.Values.{
  Pass, complete, restart, clusterbomb_loop, iterator_reset, clusterbomb_value,
}
use webapp_sec_tools.Generators.Odometer.{
  combination, combinations, lists_of, length-lists_of, length-same, number, number-UnitAt, radix,
  radix_all, ZerosFrom, UnitAt, Ready,
}
use webapp_sec_tools.Generators.ClusterTurn.{Turns, turned, carried, loop-Ready}
use webapp_sec_tools.Generators.ClusterReset.{reset-UnitAt, loop-UnitAt}

-- Between two calls of `Value` on a clusterbomb iterator over the lists `g`.
pub record Counts (g : GoMap (List String)) (i : Iterator) : Type 0 where
  pub is_cluster : i.attack_type ≡ cluster_bomb
  pub same_lists : lists_of i.payloads ≡ g
  pub holds : number i.payloads ≡ i.position
  pub all : i.total ≡ combinations g
  pub top : i.msb_iterator < length i.payloads
  pub digits : Ready i.msb_iterator i.payloads

pub int_lt-small : (a b : ℕ) → a < 2 ^ 63 → b < 2 ^ 63 → a < b → int_lt a b ≡ true
int_lt-small a b h k l = ground arith

pub int_lt-small_ge : (a b : ℕ) → a < 2 ^ 63 → b < 2 ^ 63 → b ≤ a → int_lt a b ≡ false
int_lt-small_ge a b h k l = ground arith

restarted : Iterator → List PayloadIterator → Iterator
restarted i ps = record i {
  msb_iterator = i.msb_iterator + 1;
  payloads = iterator_reset (i.msb_iterator + 1) 0 ps;
}

-- The two ways on from a pass, while the position is below the total.
module _ (fuel : ℕ) (i : Iterator) (more : int_lt i.position i.total ≡ true) where
  value-complete :
      {m : GoMap String} {ps : List PayloadIterator}
      → clusterbomb_loop i.msb_iterator 0 false true [] i.payloads ≡ complete m ps
      → clusterbomb_value (suc fuel) i
        ≡ (next m, record i { payloads = ps; position = i.position + 1 })
  unfolding clusterbomb_value
  value-complete e = rw (more, e)

  value-restart :
      {ps : List PayloadIterator}
      → clusterbomb_loop i.msb_iterator 0 false true [] i.payloads ≡ restart ps
      → clusterbomb_value (suc fuel) i ≡ clusterbomb_value fuel (restarted i ps)
  unfolding clusterbomb_value restarted
  value-restart e = rw (more, e)

module _ (g : GoMap (List String)) where
  abbrev Counted : ℕ → Iterator → Type 0
  Counted fuel i =
      (i' : Iterator) × (clusterbomb_value fuel i ≡ (next (combination i.position g []), i'))
      × Counts g i'
      × (i'.position ≡ i.position + 1)

  -- What the call needs of the pass that it makes first.
  record Starts (i : Iterator) : Type 0 where
    is_cluster : i.attack_type ≡ cluster_bomb
    same_lists : lists_of i.payloads ≡ g
    holds : number i.payloads ≡ i.position
    all : i.total ≡ combinations g
    top : i.msb_iterator < length i.payloads
    fits : combinations g < 2 ^ 63
    left : i.position < i.total

  -- A carry past the most significant place leaves a place above it, while combinations are left.
  top_left :
      (i : Iterator)
      → Starts i
      → number i.payloads ≡ radix (suc i.msb_iterator) (lists_of i.payloads)
      → suc i.msb_iterator < length i.payloads
  top_left i s n = elim (dec_lt (suc i.msb_iterator) (length i.payloads)) [
    | yes h ↦ h
    | no h ↦
        let short : length (lists_of i.payloads) ≤ suc i.msb_iterator =
          omega (arith, length-lists_of i.payloads) in
        absurd (
          omega (
            arith,
            s.left,
            s.all,
            s.holds,
            n,
            ap combinations s.same_lists,
            radix_all (suc i.msb_iterator) (lists_of i.payloads) short,
          ))
  ]

  Starts-restarted :
      (i : Iterator) (ps : List PayloadIterator)
      → Starts i
      → lists_of ps ≡ lists_of i.payloads
      → ZerosFrom (suc i.msb_iterator) ps
      → number i.payloads ≡ radix (suc i.msb_iterator) (lists_of i.payloads)
      → Starts (restarted i ps)
        × UnitAt (suc i.msb_iterator) (iterator_reset (i.msb_iterator + 1) 0 ps)
  unfolding restarted
  Starts-restarted i ps s l z n =
      let m = i.msb_iterator in
      let below : suc m < length ps = omega (
        arith,
        top_left i s n,
        ap (length {0}) l,
        length-lists_of ps,
        length-lists_of i.payloads,
      ) in
      let (u, l') = reset-UnitAt (suc m) (m + 1) 0 ps (omega arith) below z in
      let ps' = iterator_reset (m + 1) 0 ps in
      (
        record {
          is_cluster = s.is_cluster;
          same_lists = l' ∙ l ∙ s.same_lists;
          holds = number-UnitAt (suc m) ps' u ∙ ap (radix (suc m)) (l' ∙ l) ∙ sym n ∙ s.holds;
          all = s.all;
          top = omega (arith, below, ap (length {0}) l', length-lists_of ps, length-lists_of ps');
          fits = s.fits;
          left = s.left;
        },
        u,
      )

  same_combination :
      (i : Iterator)
      → Starts i
      → combination (number i.payloads) (lists_of i.payloads) [] ≡ combination i.position g []
  same_combination i s =
      ap (λ k. combination k (lists_of i.payloads) []) s.holds
      ∙ ap (λ h. combination i.position h []) s.same_lists

  running : (i : Iterator) → Starts i → int_lt i.position i.total ≡ true
  running i s =
      int_lt-small i.position i.total (omega (arith, s.left, s.all, s.fits))
        (omega (arith, s.all, s.fits)) s.left

  value_after :
      (fuel : ℕ) (i : Iterator) (r : Pass)
      → Starts i
      → clusterbomb_loop i.msb_iterator 0 false true [] i.payloads ≡ r
      → Turns i.msb_iterator i.payloads r
      → length i.payloads ≤ i.msb_iterator + suc fuel
      → Counted (suc fuel) i
  unfolding restarted
  value_after fuel i r s e (turned {r = m} {ps' = ps'} v l d n) b =
      let i' : Iterator = record i { payloads = ps'; position = i.position + 1 } in
      (
        i',
        value-complete fuel i (running i s) e
            ∙ ap (λ c. (c, i')) (ap next (v ∙ same_combination i s)),
        record {
          is_cluster = s.is_cluster;
          same_lists = l ∙ s.same_lists;
          holds = omega (arith, n, s.holds);
          all = s.all;
          top =
              omega
                (arith, s.top, ap (length {0}) l, length-lists_of ps', length-lists_of i.payloads);
          digits = d;
        },
        refl,
      )
  value_after zero i r s e (carried {ps' = ps'} l z n) b = absurd (omega (arith, top_left i s n))
  value_after (suc fuel) i r s e (carried {ps' = ps'} l z n) b =
      let (s', u) = Starts-restarted i ps' s l z n in
      let j = restarted i ps' in
      let same = length-same j.payloads i.payloads (s'.same_lists ∙ sym s.same_lists) in
      let q : suc i.msb_iterator ≡ i.msb_iterator + 1 = omega arith in
      let turns =
        subst (λ t. Turns t j.payloads (clusterbomb_loop t 0 false true [] j.payloads)) q
          (loop-UnitAt i.msb_iterator j.payloads (omega (arith, same, top_left i s n)) u) in
      let (i', e', c, p) =
        value_after fuel j (clusterbomb_loop j.msb_iterator 0 false true [] j.payloads) s' refl
          turns (omega (arith, same)) in
      (i', value-restart (suc fuel) i (running i s) e ∙ e', c, p)

  -- A call between two others: it returns the combination at the position, and moves on by one.
  pub value-Counts :
      (fuel : ℕ) (i : Iterator)
      → Counts g i
      → combinations g < 2 ^ 63
      → i.position < combinations g
      → length g ≤ fuel
      → Counted (suc fuel) i
  value-Counts fuel i c fits left b =
      value_after fuel i _
        (record {
          is_cluster = c.is_cluster;
          same_lists = c.same_lists;
          holds = c.holds;
          all = c.all;
          top = c.top;
          fits = fits;
          left = omega (arith, c.all);
        })
        refl (loop-Ready i.msb_iterator i.payloads c.top c.digits)
        (omega (arith, ap (length {0}) c.same_lists, length-lists_of i.payloads))

  -- Behind the last combination the call says so, and changes nothing.
  pub value-exhausted :
      (fuel : ℕ) (i : Iterator)
      → Counts g i
      → combinations g < 2 ^ 63
      → i.position ≡ combinations g
      → clusterbomb_value (suc fuel) i ≡ (exhausted, i)
  unfolding clusterbomb_value
  value-exhausted fuel i c fits e = rw (
      int_lt-small_ge i.position i.total (omega arith) (omega (arith, c.all))
        (omega (arith, c.all)))
