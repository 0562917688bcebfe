-- ===== src/RequestGenerator/Rounds.antt =====
-- The rounds in which nextValue() of pkg/protocols/http/request_generator.go walks the requests, and the
-- payloads that its iterator gives.
use webapp_sec_tools.Prelude.{
  ℕ, suc, ◌+◌, ◌<◌, String, Bool, true, false, Option, none, some, List, [], ◌∷◌, ◌++◌, ◌≡◌, refl,
  ap, length, drop, arith, if◌then◌else◌, Bool-cases, inl, inr,
}
use webapp_sec_tools.Prelude.GoMap.{GoMap}
use webapp_sec_tools.Prelude.GoSet.{GoSet, has, add}
use webapp_sec_tools.Generators.Iterator.{Next, next, exhausted}
use webapp_sec_tools.RequestGenerator.Generator.{scan, mark, copy}

-- The payloads that an iterator gives, up to its end, where it stays.
pub data Gives {S : Type 0} (value : S → Next × S) : S → List (GoMap String) → Type 0 where
  ended :
      (s s' s'' : S) → value s ≡ (exhausted, s') → value s' ≡ (exhausted, s'') → Gives value s []
  given :
      (s s' : S) (m : GoMap String) (ms : List (GoMap String))
      → value s ≡ (next m, s')
      → Gives value s' ms
      → Gives value s (m ∷ ms)

positive : (x : String) (rs : List String) → 0 < length (x ∷ rs)
positive x rs = omega arith

module _ (once : String → Bool) where
  -- The requests of one round that are not marked yet, with the payloads; a request with `@once` is
  -- marked when it is sent.
  abbrev pub round : GoMap String → GoSet → List String → List (String × GoMap String)
  round m marked [] = []
  round m marked (r ∷ rs) =
      let rest = round m (mark once r marked) rs in if has r marked then rest else (r, m) ∷ rest

  abbrev pub marks : GoSet → List String → GoSet
  marks marked [] = marked
  marks marked (r ∷ rs) = marks (mark once r marked) rs

  -- A round for each of the payloads.
  abbrev pub all_rounds : List String → GoSet → List (GoMap String) → List (String × GoMap String)
  all_rounds sequence marked [] = []
  all_rounds sequence marked (m ∷ ms) =
      round (copy (some m)) marked sequence ++ all_rounds sequence (marks marked sequence) ms

  mark-marked : (r : String) (marked : GoSet) → has r marked ≡ true → mark once r marked ≡ marked
  unfolding mark add
  mark-marked r marked h = ground arith

  pub scan-none :
      (m : GoMap String) (marked : GoSet) (rs : List String) (i : ℕ)
      → scan marked rs i ≡ none
      → (round m marked rs ≡ []) × (marks marked rs ≡ marked)
  unfolding scan
  scan-none m marked [] i e = (refl, refl)
  scan-none m marked (r ∷ rs) i e = elim (Bool-cases (has r marked)) [
    | inl h ↦
        let (p, q) = scan-none m marked rs (i + 1) (ground (arith, e)) in
        rw (mark-marked r marked h, h) (p, q)
    | inr h ↦ ground (arith, e)
  ]

  -- Behind the request that was found the round goes on with the rest.
  pub scan-some :
      (m : GoMap String) (marked : GoSet) (rs : List String) (i : ℕ) (r : String) (k : ℕ)
      → scan marked rs i ≡ some (r, k)
      → (d : ℕ) × (k ≡ i + d)
        × (d < length rs)
        × (round m marked rs ≡ (r, m) ∷ round m (mark once r marked) (drop (suc d) rs))
        × (marks marked rs ≡ marks (mark once r marked) (drop (suc d) rs))
  unfolding scan
  scan-some m marked [] i r k e = ground (arith, e)
  scan-some m marked (x ∷ rs) i r k e = elim (Bool-cases (has x marked)) [
    | inl h ↦
        let (d, p, b, q, u) = scan-some m marked rs (i + 1) r k (ground (arith, e)) in
        (
          suc d,
          omega arith,
          omega arith,
          rw (mark-marked x marked h, h) q,
          rw (mark-marked x marked h) u,
        )
    | inr h ↦ first_one (ground (arith, e)) h
  ]
    where
      first_one :
          ◌≡◌ {A = Option (String × ℕ)} (some (x, i)) (some (r, k))
          → has x marked ≡ false
          → (d : ℕ) × (k ≡ i + d)
            × (d < length (x ∷ rs))
            × (round m marked (x ∷ rs)
                ≡ (r, m) ∷ round m (mark once r marked) (drop (suc d) (x ∷ rs)))
            × (marks marked (x ∷ rs) ≡ marks (mark once r marked) (drop (suc d) (x ∷ rs)))
      first_one f h =
          let same =
            ap (λ (o : Option (String × ℕ)). elim o as (λ p. String) [ none ↦ x | some (y, n) ↦ y ])
              f in
          let here =
            ap (λ (o : Option (String × ℕ)). elim o as (λ p. ℕ) [ none ↦ i | some (y, n) ↦ n ]) f in
          (0, omega (arith, here), positive x rs, rw h (rw same refl), rw same refl)

  pub all_rounds-marked :
      (sequence : List String) (marked : GoSet) (ms : List (GoMap String))
      → scan marked sequence 0 ≡ none
      → all_rounds sequence marked ms ≡ []
  all_rounds-marked sequence marked [] e = refl
  all_rounds-marked sequence marked (m ∷ ms) e =
      let (p, q) = scan-none (copy (some m)) marked sequence 0 e in
      rw (p, q) (all_rounds-marked sequence marked ms e)
