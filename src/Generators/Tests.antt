-- ===== src/Generators/Tests.antt =====
-- Runs of the payload iterators of pkg/protocols/common/generators/generators.go.
use mathlib.Core.Option.{map as option_map}
use webapp_sec_tools.Prelude.{String, some, List, [], ◌∷◌, ◌≡◌, map, range_from, get_elem?, arith}
use webapp_sec_tools.Prelude.GoMap.{GoMap}
use webapp_sec_tools.Generators.Iterator.{
  Iterator, battering_ram, pitch_fork, cluster_bomb, new_iterator, reset, fresh_payload,
}
use webapp_sec_tools.Generators.Values.{collect, next_value, said_false}
use webapp_sec_tools.Generators.Odometer.{combination}
use webapp_sec_tools.Generators.Enumerate.{clusterbomb_enumerates, clusterbomb_reaches, choose}
use webapp_sec_tools.Generators.PitchFork.{pitchfork_enumerates, row}
use webapp_sec_tools.Generators.BatteringRam.{batteringram_enumerates, singles}
use webapp_sec_tools.Generators.Reset.{reset-next_value}

abbrev lists : GoMap (List String)
lists = ("u", "a" ∷ "b" ∷ []) ∷ ("p", "1" ∷ []) ∷ ("q", "x" ∷ "y" ∷ "z" ∷ []) ∷ []

abbrev two : GoMap (List String)
two = ("p", "1" ∷ []) ∷ ("q", "x" ∷ "y" ∷ "z" ∷ []) ∷ []

clusterbomb_enumerates_example :
    option_map (collect 8) (new_iterator cluster_bomb lists)
    ≡ some (map (λ k. combination k lists []) (range_from 0 6), said_false)
clusterbomb_enumerates_example =
    clusterbomb_enumerates lists 8 (omega arith) (omega arith, (omega arith, (omega arith, tt)))
      (omega arith) (omega arith)

clusterbomb_reaches_example :
    option_map (λ i. get_elem? (collect 8 i).0 5) (new_iterator cluster_bomb lists)
    ≡ some (some (choose (1 ∷ 0 ∷ 2 ∷ []) lists []))
clusterbomb_reaches_example =
    clusterbomb_reaches (1 ∷ 0 ∷ 2 ∷ []) lists 8 (omega arith)
      (omega arith, (omega arith, (omega arith, tt))) (omega arith) (omega arith)
      (omega arith, (omega arith, (omega arith, tt)))

pitchfork_enumerates_example :
    (i : Iterator) × (new_iterator pitch_fork (("u", "a" ∷ "b" ∷ []) ∷ two) ≡ some i)
    × (i.total ≡ 1)
    × (collect 3 i
        ≡ (map (λ k. row k (("u", "a" ∷ "b" ∷ []) ∷ two) []) (range_from 0 1), said_false))
pitchfork_enumerates_example = pitchfork_enumerates "u" ("a" ∷ "b" ∷ []) two 3 (omega arith)

batteringram_enumerates_example :
    (i : Iterator) × (new_iterator battering_ram (("u", "a" ∷ "b" ∷ []) ∷ two) ≡ some i)
    × (i.total ≡ 6)
    × (collect 9 i ≡ (singles (("u", "a" ∷ "b" ∷ []) ∷ two), said_false))
batteringram_enumerates_example = batteringram_enumerates "u" ("a" ∷ "b" ∷ []) two 9 (omega arith)

abbrev midway : Iterator
midway = record {
  attack_type = cluster_bomb;
  position = 4;
  msb_iterator = 1;
  total = 6;
  payloads = map fresh_payload lists;
}

reset-next_value_example : reset (next_value midway).1 ≡ reset midway
reset-next_value_example = reset-next_value midway
