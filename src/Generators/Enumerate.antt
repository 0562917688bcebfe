-- ===== src/Generators/Enumerate.antt =====
-- What the callers' loop over `Value` gives, for a clusterbomb iterator from `NewIterator`.
use webapp_sec_tools.Prelude.{
  ℕ, zero, suc, ◌+◌, ◌*◌, ◌%◌, ◌<◌, ◌≤◌, ◌^◌, String, List, [], ◌∷◌, ◌≡◌, refl, ap, ◌∙◌, length,
  get_or, arith, map, some, range_from, get_elem?, get_elem?-range_from,
}
use native.Mathlib.Nat.{mul_assoc, mul-le-mul_left}
use mathlib.Core.Option
use webapp_sec_tools.Prelude.Digits.{mod-mul-mod, mod_digit, div_digit}
use webapp_sec_tools.Prelude.GoMap.{GoMap, put}
use webapp_sec_tools.Generators.Iterator.{
  PayloadIterator, Iterator, cluster_bomb, next, exhausted, fresh_payload, product_lengths,
  new_iterator, int_mod,
}
use webapp_sec_tools.Generators.Values.{
  clusterbomb_value, value_of_type, next_value, collect, said_false,
}
use webapp_sec_tools.Generators.Odometer.{
  combination, combinations, lists_of, length-lists_of, number-Zeros, Zeros, NonEmpty, Ready,
}
use webapp_sec_tools.Generators.ClusterBomb.{Counts, value-Counts, value-exhausted}

-- The count wraps as the machine's product does.
product_lengths_mod :
    (c : ℕ) (ps : List PayloadIterator)
    → c < int_mod
    → product_lengths c ps ≡ (c * combinations (lists_of ps)) % int_mod
unfolding product_lengths
product_lengths_mod c [] h = omega arith
product_lengths_mod c (p ∷ ps) h =
    product_lengths_mod ((c * length p.values) % int_mod) ps (omega arith)
    ∙ mod-mul-mod (c * length p.values) (combinations (lists_of ps)) int_mod
    ∙ ap (λ t. t % int_mod) (mul_assoc c (length p.values) (combinations (lists_of ps)))

pub lists_of-fresh : (g : GoMap (List String)) → lists_of (map fresh_payload g) ≡ g
unfolding fresh_payload
lists_of-fresh [] = refl
lists_of-fresh ((name, values) ∷ g) = ap (◌∷◌ (name, values)) (lists_of-fresh g)

Zeros-fresh : (g : GoMap (List String)) → NonEmpty g → Zeros (map fresh_payload g)
unfolding fresh_payload
Zeros-fresh [] h = tt
Zeros-fresh ((name, values) ∷ g) (pos, h) = (refl, pos, Zeros-fresh g h)

Zeros-Ready : (ps : List PayloadIterator) → Zeros ps → Ready 0 ps
Zeros-Ready [] z = tt
Zeros-Ready (p ∷ ps) (i, pos, z) = (omega arith, pos, z)

-- `NewIterator` starts the count at zero.
pub new_iterator-Counts :
    (g : GoMap (List String))
    → 0 < length g
    → NonEmpty g
    → combinations g < 2 ^ 63
    → (i : Iterator) × (new_iterator cluster_bomb g ≡ some i) × Counts g i × (i.position ≡ 0)
unfolding new_iterator
new_iterator-Counts g pos ne fits =
    let ps = map fresh_payload g in
    let z = Zeros-fresh g ne in
    (
      _,
      refl,
      record {
        is_cluster = refl;
        same_lists = lists_of-fresh g;
        holds = number-Zeros ps z;
        all =
            (product_lengths_mod 1 ps (omega arith)
              ∙ omega (arith, ap combinations (lists_of-fresh g)));
        top = omega (arith, length-lists_of ps, ap (length {0}) (lists_of-fresh g));
        digits = Zeros-Ready ps z;
      },
      refl,
    )

pub next_value-cluster :
    (i : Iterator)
    → i.attack_type ≡ cluster_bomb
    → next_value i ≡ clusterbomb_value (suc (length i.payloads)) i
unfolding next_value
next_value-cluster i e = ap (λ t. value_of_type t (suc (length i.payloads)) i) e

-- The loop of a caller, a call at a time.
pub collect-next :
    (rounds : ℕ) (i : Iterator) {i' : Iterator} {m : GoMap String}
    → next_value i ≡ (next m, i')
    → {ms : List (GoMap String)} → collect rounds i' ≡ (ms, said_false)
    → collect (suc rounds) i ≡ (m ∷ ms, said_false)
unfolding collect
collect-next rounds i {m = m} e h =
    rw (collect, e)
      (ap (λ r. (m ∷ (collect rounds r.1).0, (collect rounds r.1).1)) e
        ∙ ap (λ r. (m ∷ r.0, r.1)) h)

pub collect-exhausted :
    (rounds : ℕ) (i : Iterator) {i' : Iterator}
    → next_value i ≡ (exhausted, i')
    → collect (suc rounds) i ≡ ([], said_false)
unfolding collect
collect-exhausted rounds i e = rw (collect, e) refl

collect-Counts :
    (g : GoMap (List String)) (left rounds : ℕ) (i : Iterator)
    → Counts g i
    → combinations g < 2 ^ 63
    → i.position + left ≡ combinations g
    → left < rounds
    → collect rounds i ≡ (map (λ k. combination k g []) (range_from i.position left), said_false)
collect-Counts g left zero i c fits e b = elim b [ ]
collect-Counts g zero (suc rounds) i c fits e b = collect-exhausted rounds i (
    next_value-cluster i c.is_cluster
    ∙ value-exhausted g (length i.payloads) i c fits (omega arith))
collect-Counts g (suc left) (suc rounds) i c fits e b =
    let enough : length g ≤ length i.payloads =
      omega (arith, ap (length {0}) c.same_lists, length-lists_of i.payloads) in
    let (i', v, c', p) = value-Counts g (length i.payloads) i c fits (omega arith) enough in
    collect-next rounds i (next_value-cluster i c.is_cluster ∙ v) (
      collect-Counts g left rounds i' c' fits (omega arith) (omega arith)
      ∙ ap (λ s. (map (λ k. combination k g []) (range_from s left), said_false)) p)

-- A clusterbomb iterator over at least one list, none of them empty, with fewer than 2^63
-- combinations: a caller that goes on until `Value` says false is given combination 0, 1, … up to the
-- last, one for each call, in mixed-radix order with the first list fastest; then `Value` says false,
-- without a panic.
pub clusterbomb_enumerates :
    (g : GoMap (List String)) (rounds : ℕ)
    → 0 < length g
    → NonEmpty g
    → combinations g < 2 ^ 63
    → combinations g < rounds
    → Option.map (collect rounds) (new_iterator cluster_bomb g)
      ≡ some (map (λ k. combination k g []) (range_from 0 (combinations g)), said_false)
clusterbomb_enumerates g rounds pos ne fits b =
    let (i, e, c, p) = new_iterator-Counts g pos ne fits in
    rw e (
      ap some (
        collect-Counts g (combinations g) rounds i c fits (omega arith) b
        ∙ ap (λ s. (map (λ k. combination k g []) (range_from s (combinations g)), said_false)) p))

-- One element of each list: `ds` holds its places.
abbrev pub Places : List ℕ → GoMap (List String) → Type 0
Places [] [] = Unit
Places [] (e ∷ g) = ⊥
Places (d ∷ ds) [] = ⊥
Places (d ∷ ds) ((name, values) ∷ g) = (d < length values) × Places ds g

abbrev pub choose : List ℕ → GoMap (List String) → GoMap String → GoMap String
choose [] g acc = acc
choose (d ∷ ds) [] acc = acc
choose (d ∷ ds) ((name, values) ∷ g) acc = choose ds g (put name (get_or values d "") acc)

abbrev pub rank : List ℕ → GoMap (List String) → ℕ
rank [] g = 0
rank (d ∷ ds) [] = 0
rank (d ∷ ds) ((name, values) ∷ g) = d + length values * rank ds g

combination-rank :
    (ds : List ℕ) (g : GoMap (List String)) (acc : GoMap String)
    → Places ds g
    → (combination (rank ds g) g acc ≡ choose ds g acc) × (rank ds g < combinations g)
combination-rank [] [] acc h = (refl, omega arith)
combination-rank [] (e ∷ g) acc h = elim h [ ]
combination-rank (d ∷ ds) [] acc h = elim h [ ]
combination-rank (d ∷ ds) ((name, values) ∷ g) acc (b, h) =
    let n = length values in
    let (e, l) = combination-rank ds g (put name (get_or values d "") acc) h in
    (
      rw (mod_digit d n (rank ds g) b, div_digit d n (rank ds g) b) e,
      omega (arith, mul-le-mul_left n l),
    )

-- A clusterbomb iterator over at least one list, none of them empty, with fewer than 2^63
-- combinations: every choice of one element from each list is returned, by the call whose number is
-- the choice's rank, to a caller that goes on until `Value` says false.
pub clusterbomb_reaches :
    (ds : List ℕ) (g : GoMap (List String)) (rounds : ℕ)
    → 0 < length g
    → NonEmpty g
    → combinations g < 2 ^ 63
    → combinations g < rounds
    → Places ds g
    → Option.map (λ i. get_elem? (collect rounds i).0 (rank ds g)) (new_iterator cluster_bomb g)
      ≡ some (some (choose ds g []))
clusterbomb_reaches ds g rounds pos ne fits b places =
    let (i, e, c, p) = new_iterator-Counts g pos ne fits in
    let (chosen, below) = combination-rank ds g [] places in
    let all = ap (λ r. r.0) (collect-Counts g (combinations g) rounds i c fits (omega arith) b) in
    rw e (
      ap some (
        ap (λ ms. get_elem? ms (rank ds g)) all
        ∙ get_elem?-range_from (λ k. combination k g []) i.position (combinations g) (rank ds g)
            below
        ∙ ap some (ap (λ k. combination k g []) (omega arith) ∙ chosen)))
