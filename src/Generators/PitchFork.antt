-- ===== src/Generators/PitchFork.antt =====
-- The calls of `pitchforkValue`, of pkg/protocols/common/generators/generators.go.
use native.Mathlib.Decide.{dec_lt}
use mathlib.Core.Path.{subst}
use webapp_sec_tools.Prelude.{
  ℕ, zero, suc, ◌+◌, ◌<◌, ◌≤◌, String, List, [], ◌∷◌, ◌≡◌, refl, sym, ap, ◌∙◌, length, get_or,
  get_elem?-get_or, arith, map, some, range_from, ltb, if◌then◌else◌,
}
use webapp_sec_tools.Prelude.GoMap.{GoMap, put}
use webapp_sec_tools.Generators.Iterator.{
  PayloadIterator, Iterator, pitch_fork, next, exhausted, increment_position, fresh_payload,
  min_lengths, new_iterator,
}
use webapp_sec_tools.Generators.Values.{
  swept, stopped, pitchfork_loop, pitchfork_value, value_of_type, next_value, collect, said_false,
}
use webapp_sec_tools.Generators.Odometer.{lists_of, size}
use webapp_sec_tools.Generators.Enumerate.{collect-next, collect-exhausted, lists_of-fresh}

-- The `k`-th value of each list, written over `acc`.
abbrev pub row : ℕ → GoMap (List String) → GoMap String → GoMap String
row k [] acc = acc
row k ((name, values) ∷ g) acc = row k g (put name (get_or values k "") acc)

-- The least of `count` and the lengths.
abbrev pub shortest : ℕ → GoMap (List String) → ℕ
shortest count [] = count
shortest count ((name, values) ∷ g) =
    shortest (if ltb (length values) count then length values else count) g

abbrev Longer : ℕ → GoMap (List String) → Type 0
Longer k [] = Unit
Longer k ((name, values) ∷ g) = (k < length values) × Longer k g

-- All payloads stand at place `k`.
abbrev Aligned : ℕ → List PayloadIterator → Type 0
Aligned k [] = Unit
Aligned k (p ∷ ps) = (p.index ≡ k) × Aligned k ps

loop-Longer :
    (k : ℕ) (acc : GoMap String) (ps : List PayloadIterator)
    → Aligned k ps
    → Longer k (lists_of ps)
    → (ps' : List PayloadIterator) × (pitchfork_loop acc ps ≡ swept (row k (lists_of ps) acc) ps')
      × Aligned (k + 1) ps'
      × (lists_of ps' ≡ lists_of ps)
unfolding pitchfork_loop
loop-Longer k acc [] a l = ([], refl, tt, refl)
loop-Longer k acc (p ∷ ps) (i, a) (b, l) =
    let (ps', e, a', s) = loop-Longer k (put p.name (get_or p.values k "") acc) ps a l in
    (
      increment_position p ∷ ps',
      ground (arith, get_elem?-get_or p.values k "" b),
      (omega arith, a'),
      ap (◌∷◌ (p.name, p.values)) s,
    )

loop-not-Longer :
    (k : ℕ) (acc : GoMap String) (ps : List PayloadIterator)
    → Aligned k ps
    → ¬ Longer k (lists_of ps)
    → (ps' : List PayloadIterator) × (pitchfork_loop acc ps ≡ stopped ps')
unfolding pitchfork_loop
loop-not-Longer k acc [] a l = absurd (l tt)
loop-not-Longer k acc (p ∷ ps) (i, a) l = elim (dec_lt k (size p)) [
  | yes b ↦
      let (ps', e) =
        loop-not-Longer k (put p.name (get_or p.values k "") acc) ps a (λ h. l (b, h)) in
      (increment_position p ∷ ps', ground (arith, get_elem?-get_or p.values k "" b))
  | no b ↦ (p ∷ ps, ground arith)
]

-- The shortest list bounds the places that all lists have.
shortest-le : (count : ℕ) (g : GoMap (List String)) → shortest count g ≤ count
shortest-le count [] = omega arith
shortest-le count ((name, values) ∷ g) =
    ground (arith, shortest-le (if ltb (length values) count then length values else count) g)

Longer-lt : (k count : ℕ) (g : GoMap (List String)) → k < shortest count g → Longer k g
Longer-lt k count [] h = tt
Longer-lt k count ((name, values) ∷ g) h =
    let least = if ltb (length values) count then length values else count in
    (ground (arith, shortest-le least g), Longer-lt k least g h)

lt-Longer :
    (k : ℕ) (g : GoMap (List String)) (count : ℕ) → k < count → Longer k g → k < shortest count g
lt-Longer k [] count h l = h
lt-Longer k ((name, values) ∷ g) count h (b, l) =
    lt-Longer k g (if ltb (length values) count then length values else count) (ground arith) l

Aligned-fresh : (g : GoMap (List String)) → Aligned 0 (map fresh_payload g)
unfolding fresh_payload
Aligned-fresh [] = tt
Aligned-fresh (e ∷ g) = (refl, Aligned-fresh g)

record Rows (g : GoMap (List String)) (i : Iterator) : Type 0 where
  is_pitch : i.attack_type ≡ pitch_fork
  same_lists : lists_of i.payloads ≡ g
  aligned : Aligned i.position i.payloads

next_value-pitch : (i : Iterator) → i.attack_type ≡ pitch_fork → next_value i ≡ pitchfork_value i
unfolding next_value
next_value-pitch i e = ap (λ t. value_of_type t (suc (length i.payloads)) i) e

value_row :
    (g : GoMap (List String)) (i : Iterator)
    → Rows g i
    → Longer i.position g
    → (i' : Iterator) × (next_value i ≡ (next (row i.position g []), i'))
      × Rows g i'
      × (i'.position ≡ i.position + 1)
unfolding pitchfork_value
value_row g i r l =
    let l' : Longer i.position (lists_of i.payloads) =
      subst (Longer i.position) (sym r.same_lists) l in
    let (ps', e, a, s) = loop-Longer i.position [] i.payloads r.aligned l' in
    let i' : Iterator = record i { payloads = ps'; position = i.position + 1 } in
    (
      i',
      next_value-pitch i r.is_pitch
          ∙ rw (e, pitchfork_value) (ap (λ h. (next (row i.position h []), i')) r.same_lists),
      record { is_pitch = r.is_pitch; same_lists = s ∙ r.same_lists; aligned = a },
      refl,
    )

value_end :
    (g : GoMap (List String)) (i : Iterator)
    → Rows g i
    → ¬ Longer i.position g
    → (i' : Iterator) × (next_value i ≡ (exhausted, i'))
unfolding pitchfork_value
value_end g i r l =
    let l' : ¬ Longer i.position (lists_of i.payloads) =
      λ h. l (subst (Longer i.position) r.same_lists h) in
    let (ps', e) = loop-not-Longer i.position [] i.payloads r.aligned l' in
    (record i { payloads = ps' }, next_value-pitch i r.is_pitch ∙ rw (e, pitchfork_value))

collect-Rows :
    (g : GoMap (List String)) (count left rounds : ℕ) (i : Iterator)
    → Rows g i
    → i.position + left ≡ shortest count g
    → i.position + left < count + 1
    → ((k : ℕ) → Longer k g → k < count)
    → left < rounds
    → collect rounds i ≡ (map (λ k. row k g []) (range_from i.position left), said_false)
collect-Rows g count left zero i r e b bound m = elim m [ ]
collect-Rows g count zero (suc rounds) i r e b bound m =
    let over : ¬ Longer i.position g =
      λ l. omega (arith, lt-Longer i.position g count (bound i.position l) l) in
    let (i', v) = value_end g i r over in collect-exhausted rounds i v
collect-Rows g count (suc left) (suc rounds) i r e b bound m =
    let (i', v, r', p) = value_row g i r (Longer-lt i.position count g (omega arith)) in
    collect-next rounds i v (
      collect-Rows g count left rounds i' r' (omega arith) (omega arith) bound (omega arith)
      ∙ ap (λ s. (map (λ k. row k g []) (range_from s left), said_false)) p)

min_lengths-shortest :
    (count : ℕ) (ps : List PayloadIterator) → min_lengths count ps ≡ shortest count (lists_of ps)
unfolding min_lengths
min_lengths-shortest count [] = refl
min_lengths-shortest count (p ∷ ps) =
    min_lengths-shortest (if ltb (length p.values) count then length p.values else count) ps

-- A pitchfork iterator over lists that begin with `values`: a caller that goes on until `Value` says
-- false is given row 0, 1, … up to the end of the shortest list, then `Value` says false without a
-- panic, and `Total` is the number of rows.
pub pitchfork_enumerates :
    (name : String) (values : List String) (g : GoMap (List String)) (rounds : ℕ)
    → shortest (length values) g < rounds
    → (i : Iterator) × (new_iterator pitch_fork ((name, values) ∷ g) ≡ some i)
      × (i.total ≡ shortest (length values) g)
      × (collect rounds i ≡ (
        map (λ k. row k ((name, values) ∷ g) []) (range_from 0 (shortest (length values) g)),
        said_false,
      ))
unfolding new_iterator
pitchfork_enumerates name values g rounds b =
    let all = (name, values) ∷ g in
    let n = length values in
    let ps = map fresh_payload all in
    let total = min_lengths n ps in
    let i : Iterator = record {
      attack_type = pitch_fork;
      position = 0;
      msb_iterator = 0;
      total = total;
      payloads = ps;
    } in
    let same : shortest n all ≡ shortest n g = ground arith in
    (
      i,
      refl,
      min_lengths-shortest n ps ∙ ap (shortest n) (lists_of-fresh all) ∙ same,
      collect-Rows all n (shortest n g) rounds i
          (record { is_pitch = refl; same_lists = lists_of-fresh all; aligned = Aligned-fresh all })
          (omega arith) (omega (arith, shortest-le n g)) (λ k l. l.0) b,
    )
