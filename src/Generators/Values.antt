-- ===== src/Generators/Values.antt =====
-- The `Value` methods of pkg/protocols/common/generators/generators.go, one for each attack type, with
-- the iterator passed explicitly. A method that calls itself takes fuel.
use webapp_sec_tools.Prelude.{
  ℕ, zero, suc, ◌+◌, String, none, some, List, [], ◌∷◌, Bool, true, false, not, ◌&&◌, ltb, ◌==◌,
  if◌then◌else◌, length, get_elem?, set,
}
use webapp_sec_tools.Prelude.GoMap.{GoMap, put}
use webapp_sec_tools.Generators.Iterator.{
  PayloadIterator, Iterator, AttackType, unspecified, battering_ram, pitch_fork, cluster_bomb, Next,
  next, exhausted, panic, out_of_fuel, has_next, reset_position, increment_position, value, int_lt,
}

unfoldable pub battering_ram_value : ℕ → Iterator → Next × Iterator
unfolding has_next value increment_position
battering_ram_value zero i = (out_of_fuel, i)
battering_ram_value (suc fuel) i = elim (get_elem? i.payloads i.msb_iterator) [
  | none ↦ (panic, i)
  | some payload ↦
      let i' = record i { msb_iterator = i.msb_iterator + 1 } in
      let again = battering_ram_value fuel i' in
      if not (has_next payload)
      then (if i'.msb_iterator == length i.payloads then (exhausted, i') else again)
      else elim (value payload) [
        | none ↦ (panic, i)
        | some v ↦ (
          next (put payload.name v []),
          record i {
            payloads = set i.payloads i.msb_iterator (increment_position payload);
            position = i.position + 1;
          },
        )
      ]
]

-- The loop of `pitchforkValue`: the payloads that it has passed are advanced even where a later one
-- is at its end.
pub data Sweep : Type 0 where
  swept : GoMap String → List PayloadIterator → Sweep
  stopped : List PayloadIterator → Sweep
  faulted : List PayloadIterator → Sweep

unfoldable pub sweep_cons : PayloadIterator → Sweep → Sweep
sweep_cons p (swept m ps) = swept m (p ∷ ps)
sweep_cons p (stopped ps) = stopped (p ∷ ps)
sweep_cons p (faulted ps) = faulted (p ∷ ps)

unfoldable pub pitchfork_loop : GoMap String → List PayloadIterator → Sweep
unfolding has_next value increment_position sweep_cons
pitchfork_loop acc [] = swept acc []
pitchfork_loop acc (p ∷ ps) = if not (has_next p) then stopped (p ∷ ps) else elim (value p) [
  | none ↦ faulted (p ∷ ps)
  | some v ↦ sweep_cons (increment_position p) (pitchfork_loop (put p.name v acc) ps)
]

unfoldable pub pitchfork_value : Iterator → Next × Iterator
unfolding pitchfork_loop
pitchfork_value i = elim (pitchfork_loop [] i.payloads) [
  | swept m ps ↦ (next m, record i { payloads = ps; position = i.position + 1 })
  | stopped ps ↦ (exhausted, record i { payloads = ps })
  | faulted ps ↦ (panic, record i { payloads = ps })
]

-- The loop of `clusterbombValue` over the payloads from `index` on. `restart` is the branch that
-- carries past the most significant list in use; the payloads are as the loop has left them.
pub data Pass : Type 0 where
  complete : GoMap String → List PayloadIterator → Pass
  restart : List PayloadIterator → Pass
  fault : List PayloadIterator → Pass

unfoldable pub pass_cons : PayloadIterator → Pass → Pass
pass_cons p (complete m ps) = complete m (p ∷ ps)
pass_cons p (restart ps) = restart (p ∷ ps)
pass_cons p (fault ps) = fault (p ∷ ps)

-- The payload after `if signalNext`, after `if !p.next()` and after `if first`.
unfoldable pub signalled : Bool → PayloadIterator → PayloadIterator
unfolding increment_position
signalled signal p = if signal then increment_position p else p

unfoldable pub wrapped : PayloadIterator → PayloadIterator
unfolding has_next reset_position
wrapped p = if has_next p then p else reset_position p

unfoldable pub stepped : Bool → PayloadIterator → PayloadIterator
unfolding increment_position
stepped first p = if first then increment_position p else p

unfoldable pub clusterbomb_loop : ℕ → ℕ → Bool → Bool → GoMap String → List PayloadIterator → Pass
unfolding has_next value pass_cons signalled wrapped stepped
clusterbomb_loop msb index signal first acc [] = complete acc []
clusterbomb_loop msb index signal first acc (p ∷ ps) =
    let p' = signalled signal p in
    if not (has_next p') && index == msb then restart (p' ∷ ps) else elim (value (wrapped p')) [
      | none ↦ fault (wrapped p' ∷ ps)
      | some v ↦
          pass_cons (stepped first (wrapped p'))
            (clusterbomb_loop msb (index + 1) (not (has_next p')) false (put p.name v acc) ps)
    ]

-- clusterbombIteratorReset(), over the payloads from `index` on
unfoldable pub iterator_reset : ℕ → ℕ → List PayloadIterator → List PayloadIterator
unfolding reset_position increment_position
iterator_reset msb index [] = []
iterator_reset msb index (p ∷ ps) =
    let p' = if ltb index msb then reset_position p else p in
    (if index == msb then increment_position p' else p') ∷ iterator_reset msb (index + 1) ps

unfoldable pub clusterbomb_value : ℕ → Iterator → Next × Iterator
unfolding clusterbomb_loop iterator_reset
clusterbomb_value zero i = (out_of_fuel, i)
clusterbomb_value (suc fuel) i =
    if not (int_lt i.position i.total)
    then (exhausted, i)
    else elim (clusterbomb_loop i.msb_iterator 0 false true [] i.payloads) [
      | complete m ps ↦ (next m, record i { payloads = ps; position = i.position + 1 })
      | restart ps ↦ clusterbomb_value fuel (record i {
        msb_iterator = i.msb_iterator + 1;
        payloads = iterator_reset (i.msb_iterator + 1) 0 ps;
      })
      | fault ps ↦ (panic, record i { payloads = ps })
    ]

-- Value(), with fuel for as many calls of itself as there are payloads, and one more
unfoldable pub value_of_type : AttackType → ℕ → Iterator → Next × Iterator
unfolding battering_ram_value pitchfork_value clusterbomb_value
value_of_type unspecified fuel i = battering_ram_value fuel i
value_of_type battering_ram fuel i = battering_ram_value fuel i
value_of_type pitch_fork fuel i = pitchfork_value i
value_of_type cluster_bomb fuel i = clusterbomb_value fuel i

unfoldable pub next_value : Iterator → Next × Iterator
unfolding value_of_type
next_value i = value_of_type i.attack_type (suc (length i.payloads)) i

-- The callers' loop `for { v, ok := iterator.Value(); if !ok { break } … }`: the values of at most
-- `rounds` calls, and how the loop ends: with false, with a panic, or after the last of the calls.
pub data Ending : Type 0 where
  said_false : Ending
  panicked : Ending
  unfinished : Ending

unfoldable pub collect : ℕ → Iterator → List (GoMap String) × Ending
collect zero i = ([], unfinished)
collect (suc rounds) i =
    let (r, i') = next_value i in
    elim r [
      | next m ↦ let (ms, ending) = collect rounds i' in (m ∷ ms, ending)
      | exhausted ↦ ([], said_false)
      | panic ↦ ([], panicked)
      | out_of_fuel ↦ ([], unfinished)
    ]
