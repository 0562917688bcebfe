-- ===== src/RequestGenerator/Payloads.antt =====
-- The requests of a template with clusterbomb payloads: nextValue() of
-- pkg/protocols/http/request_generator.go over the iterator of
-- pkg/protocols/common/generators/generators.go.
use webapp_sec_tools.Prelude.{
  ℕ, zero, suc, ◌+◌, ◌*◌, ◌<◌, ◌≤◌, ◌^◌, String, Bool, false, some, List, [], ◌∷◌, ◌++◌, ◌≡◌, refl,
  ap, ◌∙◌, subst, length, length-append, length-map, length-range_from, map, range_from, arith, All,
}
use webapp_sec_tools.Prelude.GoMap.{GoMap}
use webapp_sec_tools.Prelude.GoSet.{has}
use webapp_sec_tools.Generators.Iterator.{Iterator, cluster_bomb, new_iterator}
use webapp_sec_tools.Generators.Values.{next_value as iterator_value}
use webapp_sec_tools.Generators.Odometer.{combination, combinations, length-lists_of, NonEmpty}
use webapp_sec_tools.Generators.ClusterBomb.{Counts, value-Counts, value-exhausted}
use webapp_sec_tools.Generators.Enumerate.{new_iterator-Counts, next_value-cluster}
use webapp_sec_tools.RequestGenerator.Generator.{new_generator, mark, copy, requests}
use webapp_sec_tools.RequestGenerator.Rounds.{Gives, ended, given, round, marks, all_rounds}
use webapp_sec_tools.RequestGenerator.Sent.{requests-all_rounds}

Counts-Gives :
    (g : GoMap (List String)) (left : ℕ) (i : Iterator)
    → Counts g i
    → combinations g < 2 ^ 63
    → i.position + left ≡ combinations g
    → Gives iterator_value i (map (λ k. combination k g []) (range_from i.position left))
Counts-Gives g zero i c fits e =
    let v =
      next_value-cluster i c.is_cluster
      ∙ value-exhausted g (length i.payloads) i c fits (omega arith) in
    ended i i i v v
Counts-Gives g (suc left) i c fits e =
    let enough : length g ≤ length i.payloads =
      omega (arith, ap (length {0}) c.same_lists, length-lists_of i.payloads) in
    let (i', v, c', p) = value-Counts g (length i.payloads) i c fits (omega arith) enough in
    given i i' (combination i.position g []) _ (next_value-cluster i c.is_cluster ∙ v) (
      subst (λ s. Gives iterator_value i' (map (λ k. combination k g []) (range_from s left))) p
        (Counts-Gives g left i' c' fits (omega arith)))

abbrev pub with_payloads : GoMap String → String → String × GoMap String
with_payloads m r = (r, copy (some m))

-- Every request with each of the payloads.
abbrev pub product : List String → List (GoMap String) → List (String × GoMap String)
product sequence [] = []
product sequence (m ∷ ms) = map (with_payloads m) sequence ++ product sequence ms

module _ (once : String → Bool) where
  round-map :
      (m : GoMap String) (rs : List String)
      → All (λ r. once r ≡ false) rs
      → (round once m [] rs ≡ map (λ r. (r, m)) rs) × (marks once [] rs ≡ [])
  unfolding mark has
  round-map m [] a = (refl, refl)
  round-map m (r ∷ rs) (e, a) = let (p, q) = round-map m rs a in (rw (e, p) refl, rw e q)

  all_rounds-product :
      (sequence : List String) (ms : List (GoMap String))
      → All (λ r. once r ≡ false) sequence
      → all_rounds once sequence [] ms ≡ product sequence ms
  all_rounds-product sequence [] a = refl
  all_rounds-product sequence (m ∷ ms) a =
      let (p, q) = round-map (copy (some m)) sequence a in
      rw (p, q, all_rounds-product sequence ms a) refl

  length-product :
      (sequence : List String) (ms : List (GoMap String))
      → length (product sequence ms) ≡ length sequence * length ms
  length-product sequence [] = omega arith
  length-product sequence (m ∷ ms) = omega (
    arith,
    length-append (map (with_payloads m) sequence) (product sequence ms),
    length-map sequence (with_payloads m),
    length-product sequence ms,
  )

  -- With a clusterbomb over at least one list, none of them empty, with fewer than 2^63 combinations, and
  -- no request with `@once`: the callers' loop sends every request with every combination, combination by
  -- combination in mixed-radix order; fuel above the number of requests times that of combinations is
  -- enough.
  pub requests-clusterbomb :
      (fuel : ℕ) (sequence : List String) (g : GoMap (List String))
      → 0 < length g
      → NonEmpty g
      → combinations g < 2 ^ 63
      → All (λ r. once r ≡ false) sequence
      → length sequence * combinations g < fuel
      → (i : Iterator) × (new_iterator cluster_bomb g ≡ some i)
        × (requests iterator_value once fuel sequence (new_generator i (length g) false)
            ≡ some
                (product sequence (map (λ k. combination k g []) (range_from 0 (combinations g)))))
  requests-clusterbomb fuel sequence g pos ne fits a b =
      let (i, e, c, p) = new_iterator-Counts g pos ne fits in
      let ms = map (λ k. combination k g []) (range_from 0 (combinations g)) in
      let gives : Gives iterator_value i ms =
        subst
          (λ s.
            Gives iterator_value i (map (λ k. combination k g []) (range_from s (combinations g))))
          p (Counts-Gives g (combinations g) i c fits (omega (arith, p))) in
      let q = all_rounds-product sequence ms a in
      (
        i,
        e,
        requests-all_rounds iterator_value once fuel sequence i (length g) ms pos gives (
              rw q (
                omega (
                  arith,
                  length-product sequence ms,
                  ap (λ (t : ℕ). length sequence * t)
                      (length-map (range_from 0 (combinations g)) (λ (k : ℕ). combination k g [])
                        ∙ length-range_from 0 (combinations g)),
                )))
            ∙ ap some q,
      )
