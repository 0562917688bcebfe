-- ===== src/Generators/BatteringRam.antt =====
-- The calls of `batteringRamValue`, of pkg/protocols/common/generators/generators.go.
use mathlib.Core.Path.{subst}
use native.Mathlib.Decide.{dec_lt}
use mathlib.Core.List.{append_assoc}
use webapp_sec_tools.Prelude.{
  ℕ, zero, suc, ◌+◌, ◌<◌, ◌≤◌, String, List, [], ◌∷◌, ◌++◌, ◌≡◌, refl, sym, ap, ◌∙◌, length,
  length-append, length-map, get_elem?, get_or, get_elem?-get_or, set, drop, arith, map, some,
}
use webapp_sec_tools.Prelude.GoMap.{GoMap, put}
use webapp_sec_tools.Generators.Iterator.{
  PayloadIterator, Iterator, battering_ram, Next, next, exhausted, increment_position,
  fresh_payload, sum_lengths, new_iterator,
}
use webapp_sec_tools.Generators.Values.{
  battering_ram_value, value_of_type, next_value, collect, said_false,
}
use webapp_sec_tools.Generators.Odometer.{lists_of, size}
use webapp_sec_tools.Generators.Enumerate.{collect-next, collect-exhausted, lists_of-fresh}

abbrev pub single : String → String → GoMap String
single name v = put name v []

-- One map for each value of each list, in order.
abbrev pub singles : GoMap (List String) → List (GoMap String)
singles [] = []
singles ((name, values) ∷ g) = map (single name) values ++ singles g

abbrev Unread : List PayloadIterator → Type 0
Unread [] = Unit
Unread (p ∷ ps) = (p.index ≡ 0) × Unread ps

-- Where the iterator stands: it has passed `before`, and reads `now`; `left` is what it has yet to
-- return.
record Stands (i : Iterator) (left : List (GoMap String)) : Type 0 where
  before : List PayloadIterator
  now : PayloadIterator
  after : List PayloadIterator
  is_ram : i.attack_type ≡ battering_ram
  payloads_are : i.payloads ≡ before ++ now ∷ after
  at_now : i.msb_iterator ≡ length before
  unread : Unread after
  left_is : left ≡ map (single now.name) (drop now.index now.values) ++ singles (lists_of after)

drop-lt : (k : ℕ) (xs : List String) → k < length xs → drop k xs ≡ get_or xs k "" ∷ drop (k + 1) xs
drop-lt k [] h = elim h [ ]
drop-lt zero (x ∷ xs) h = ground arith
drop-lt (suc k) (x ∷ xs) h = drop-lt k xs (omega arith) ∙ ground arith

drop-ge : (k : ℕ) (xs : List String) → length xs ≤ k → drop k xs ≡ []
drop-ge zero [] h = refl
drop-ge (suc k) [] h = refl
drop-ge zero (x ∷ xs) h = elim h [ ]
drop-ge (suc k) (x ∷ xs) h = drop-ge k xs (omega arith)

get_elem?-append :
    (xs ys : List PayloadIterator) (y : PayloadIterator)
    → get_elem? (xs ++ y ∷ ys) (length xs) ≡ some y
get_elem?-append [] ys y = refl
get_elem?-append (x ∷ xs) ys y = get_elem?-append xs ys y

set-append :
    (xs ys : List PayloadIterator) (y z : PayloadIterator)
    → set (xs ++ y ∷ ys) (length xs) z ≡ xs ++ z ∷ ys
set-append [] ys y z = refl
set-append (x ∷ xs) ys y z = ap (◌∷◌ x) (set-append xs ys y z)

-- What a call does where `left` is still to be returned.
data Delivers (left : List (GoMap String)) (r : Next × Iterator) : Type 0 where
  gives :
      (m : GoMap String) (rest : List (GoMap String)) (i' : Iterator)
      → left ≡ m ∷ rest
      → r ≡ (next m, i')
      → Stands i' rest
      → Delivers left r
  ends : (i' : Iterator) → left ≡ [] → r ≡ (exhausted, i') → Delivers left r

passed : Iterator → Iterator
passed i = record i { msb_iterator = i.msb_iterator + 1 }

module _ (fuel : ℕ) (i : Iterator) (p : PayloadIterator)
    (at : get_elem? i.payloads i.msb_iterator ≡ some p) where
  value-reads :
      p.index < size p
      → battering_ram_value (suc fuel) i ≡ (
        next (single p.name (get_or p.values p.index "")),
        record i {
          payloads = set i.payloads i.msb_iterator (increment_position p);
          position = i.position + 1;
        },
      )
  unfolding battering_ram_value
  value-reads h =
      rw (at, battering_ram_value) (ground (arith, get_elem?-get_or p.values p.index "" h))

  value-last :
      size p ≤ p.index
      → i.msb_iterator + 1 ≡ length i.payloads
      → battering_ram_value (suc fuel) i ≡ (exhausted, passed i)
  unfolding battering_ram_value passed
  value-last h e = rw (at, battering_ram_value) (ground arith)

  value-passes :
      size p ≤ p.index
      → i.msb_iterator + 1 < length i.payloads
      → battering_ram_value (suc fuel) i ≡ battering_ram_value fuel (passed i)
  unfolding battering_ram_value passed
  value-passes h e = rw (at, battering_ram_value) (ground arith)

at_elem :
    (i : Iterator) (before after : List PayloadIterator) (now : PayloadIterator)
    → i.payloads ≡ before ++ now ∷ after
    → i.msb_iterator ≡ length before
    → get_elem? i.payloads i.msb_iterator ≡ some now
at_elem i before after now e a =
    ap (λ ps. get_elem? ps i.msb_iterator) e
    ∙ ap (get_elem? (before ++ now ∷ after)) a
    ∙ get_elem?-append before after now

-- The list that is read has a value.
value-Delivers :
    (fuel : ℕ) (i : Iterator) (before after : List PayloadIterator) (now : PayloadIterator)
    → i.attack_type ≡ battering_ram
    → i.payloads ≡ before ++ now ∷ after
    → i.msb_iterator ≡ length before
    → Unread after
    → now.index < size now
    → Delivers
        (map (single now.name) (drop now.index now.values) ++ singles (lists_of after))
        (battering_ram_value (suc fuel) i)
unfolding increment_position
value-Delivers fuel i before after now t e a u h =
    let rest =
      map (single now.name) (drop (now.index + 1) now.values) ++ singles (lists_of after) in
    gives (single now.name (get_or now.values now.index "")) rest _
      (ap (λ l. map (single now.name) l ++ singles (lists_of after))
        (drop-lt now.index now.values h))
      (value-reads fuel i now (at_elem i before after now e a) h)
      (record {
        before = before;
        now = increment_position now;
        after = after;
        is_ram = t;
        payloads_are =
            ap (λ ps. set ps i.msb_iterator (increment_position now)) e
            ∙ ap (λ k. set (before ++ now ∷ after) k (increment_position now)) a
            ∙ set-append before after now (increment_position now);
        at_now = a;
        unread = u;
        left_is = refl;
      })

delivers :
    (fuel : ℕ) (i : Iterator) (before after : List PayloadIterator) (now : PayloadIterator)
    → i.attack_type ≡ battering_ram
    → i.payloads ≡ before ++ now ∷ after
    → i.msb_iterator ≡ length before
    → Unread after
    → length after < fuel
    → Delivers
        (map (single now.name) (drop now.index now.values) ++ singles (lists_of after))
        (battering_ram_value fuel i)
unfolding passed
delivers zero i before after now t e a u f = elim f [ ]
delivers (suc fuel) i before [] now t e a u f = elim (dec_lt now.index (size now)) [
  | yes h ↦ value-Delivers fuel i before [] now t e a u h
  | no h ↦ ends (passed i) (rw (drop-ge now.index now.values (omega arith))) (
      value-last fuel i now (at_elem i before [] now e a) (omega arith)
        (omega (arith, ap (length {0}) e, length-append before (now ∷ []))))
]
delivers (suc fuel) i before (q ∷ after) now t e a (z, u) f = elim (dec_lt now.index (size now)) [
  | yes h ↦ value-Delivers fuel i before (q ∷ after) now t e a (z, u) h
  | no h ↦
      let e' = e ∙ sym (append_assoc before (now ∷ []) (q ∷ after)) in
      let later =
        delivers fuel (passed i) (before ++ now ∷ []) after q t e'
          (omega (arith, length-append before (now ∷ []))) u (omega arith) in
      let tail = singles (lists_of after) in
      let same =
        ap (λ l. map (single now.name) l ++ (map (single q.name) q.values ++ tail))
          (drop-ge now.index now.values (omega arith))
        ∙ ap (λ k. map (single q.name) (drop k q.values) ++ tail) (sym z) in
      rw
        (value-passes fuel i now (at_elem i before (q ∷ after) now e a) (omega arith)
          (omega (arith, ap (length {0}) e, length-append before (now ∷ q ∷ after))))
        (subst (λ l. Delivers l (battering_ram_value fuel (passed i))) (sym same) later)
]

next_value-ram :
    (i : Iterator)
    → i.attack_type ≡ battering_ram
    → next_value i ≡ battering_ram_value (suc (length i.payloads)) i
unfolding next_value
next_value-ram i e = ap (λ t. value_of_type t (suc (length i.payloads)) i) e

Delivers-Stands :
    (i : Iterator) (left : List (GoMap String)) → Stands i left → Delivers left (next_value i)
Delivers-Stands i left s =
    rw (next_value-ram i s.is_ram, s.left_is)
      (delivers (suc (length i.payloads)) i s.before s.after s.now s.is_ram s.payloads_are s.at_now
        s.unread
        (omega (arith, ap (length {0}) s.payloads_are, length-append s.before (s.now ∷ s.after))))

collect-Stands :
    (rounds : ℕ) (i : Iterator) (left : List (GoMap String))
    → Stands i left
    → length left < rounds
    → collect rounds i ≡ (left, said_false)
collect-Stands zero i left s b = elim b [ ]
collect-Stands (suc rounds) i left s b = elim (Delivers-Stands i left s) [
  | gives m rest i' e v s' ↦
      collect-next rounds i v (collect-Stands rounds i' rest s' (omega (arith, ap (length {0}) e)))
      ∙ ap (λ l. (l, said_false)) (sym e)
  | ends i' e v ↦ collect-exhausted rounds i v ∙ ap (λ l. (l, said_false)) (sym e)
]

sum_lengths-singles :
    (count : ℕ) (ps : List PayloadIterator)
    → sum_lengths count ps ≡ count + length (singles (lists_of ps))
unfolding sum_lengths
sum_lengths-singles count [] = omega arith
sum_lengths-singles count (p ∷ ps) = omega (
  arith,
  sum_lengths-singles (count + length p.values) ps,
  length-append (map (single p.name) p.values) (singles (lists_of ps)),
  length-map p.values (single p.name),
)

Unread-fresh : (g : GoMap (List String)) → Unread (map fresh_payload g)
unfolding fresh_payload
Unread-fresh [] = tt
Unread-fresh (e ∷ g) = (refl, Unread-fresh g)

-- A battering ram iterator over lists that begin with `values`: a caller that goes on until `Value`
-- says false is given every value of every list, in order, then `Value` says false without a panic, and
-- `Total` is the number of values.
pub batteringram_enumerates :
    (name : String) (values : List String) (g : GoMap (List String)) (rounds : ℕ)
    → length (singles ((name, values) ∷ g)) < rounds
    → (i : Iterator) × (new_iterator battering_ram ((name, values) ∷ g) ≡ some i)
      × (i.total ≡ length (singles ((name, values) ∷ g)))
      × (collect rounds i ≡ (singles ((name, values) ∷ g), said_false))
unfolding new_iterator
batteringram_enumerates name values g rounds b =
    let all = (name, values) ∷ g in
    let ps = map fresh_payload all in
    let i : Iterator = record {
      attack_type = battering_ram;
      position = 0;
      msb_iterator = 0;
      total = sum_lengths 0 ps;
      payloads = ps;
    } in
    (
      i,
      refl,
      sum_lengths-singles 0 ps
          ∙ ap (λ h. 0 + length (singles h)) (lists_of-fresh all)
          ∙ omega arith,
      collect-Stands rounds i (singles all)
          (record {
            before = [];
            now = fresh_payload (name, values);
            after = map fresh_payload g;
            is_ram = refl;
            payloads_are = refl;
            at_now = refl;
            unread = Unread-fresh g;
            left_is = ap (λ h. map (single name) values ++ singles h) (sym (lists_of-fresh g));
          })
          b,
    )
