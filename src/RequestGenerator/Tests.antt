-- ===== src/RequestGenerator/Tests.antt =====
-- The requests of concrete templates.
use webapp_sec_tools.Prelude.{
  ℕ, String, Bool, false, none, some, List, [], ◌∷◌, ◌≡◌, refl, ap, map, range_from, arith, str_eq,
  length,
}
use webapp_sec_tools.Prelude.GoMap.{GoMap, put}
use webapp_sec_tools.Prelude.GoSet.{has, add}
use webapp_sec_tools.Generators.Iterator.{
  Iterator, battering_ram, pitch_fork, cluster_bomb, new_iterator, has_next, value,
  increment_position,
}
use webapp_sec_tools.Generators.Values.{
  next_value as iterator_value, value_of_type, pitchfork_value, pitchfork_loop, sweep_cons,
  battering_ram_value,
}
use webapp_sec_tools.Generators.Odometer.{combination, combinations}
use webapp_sec_tools.Operators.Execute.{merge_maps}
use webapp_sec_tools.RequestGenerator.Generator.{
  new_generator, copy, mark, requests, next_value, first_payload, advance, find_next_iteration,
  slice_from, scan, take_request, prepend,
}
use webapp_sec_tools.RequestGenerator.Rounds.{Gives, ended, given, all_rounds}
use webapp_sec_tools.RequestGenerator.Sent.{requests-all_rounds}
use webapp_sec_tools.RequestGenerator.Payloads.{product, requests-clusterbomb}

abbrev payload : String → GoMap String
payload s = ("user", s) ∷ []

-- A pitchfork over one list, which stands at a place of it.
abbrev at : ℕ → Iterator
at n = record {
  attack_type = pitch_fork;
  position = n;
  msb_iterator = 0;
  total = 2;
  payloads = record { name = "user"; values = "root" ∷ "guest" ∷ []; index = n } ∷ [];
}

abbrev logs_in_once : String → Bool
logs_in_once r = str_eq r "@once login"

at-Gives : Gives iterator_value (at 0) (payload "root" ∷ payload "guest" ∷ [])
unfolding iterator_value pitchfork_value pitchfork_loop sweep_cons has_next value increment_position
    put value_of_type
at-Gives =
    given (at 0) (at 1) (payload "root") _ refl
      (given (at 1) (at 2) (payload "guest") _ refl (ended (at 2) (at 2) (at 2) refl refl))

all_rounds_test :
    all_rounds logs_in_once ("@once login" ∷ "read" ∷ []) [] (payload "root" ∷ payload "guest" ∷ [])
    ≡ ("@once login", payload "root") ∷ ("read", payload "root") ∷ ("read", payload "guest") ∷ []
unfolding copy merge_maps mark has add put
all_rounds_test = refl

requests-all_rounds_example :
    requests iterator_value logs_in_once 4
      ("@once login" ∷ "read" ∷ [])
      (new_generator (at 0) 1 false)
    ≡ some (
        all_rounds logs_in_once
          ("@once login" ∷ "read" ∷ [])
          []
          (payload "root" ∷ payload "guest" ∷ []))
requests-all_rounds_example =
    requests-all_rounds iterator_value logs_in_once 4 ("@once login" ∷ "read" ∷ []) (at 0) 1
      (payload "root" ∷ payload "guest" ∷ []) (omega arith) at-Gives
      (omega (arith, ap (length {0}) all_rounds_test))

-- A batteringram over one value panics where the only request is marked once: Value() is called again
-- after its end.
abbrev one_value : Iterator
one_value = record {
  attack_type = battering_ram;
  position = 0;
  msb_iterator = 0;
  total = 1;
  payloads = record { name = "user"; values = "root" ∷ []; index = 0 } ∷ [];
}

panic_test :
    requests iterator_value logs_in_once 3 ("@once login" ∷ []) (new_generator one_value 1 false)
    ≡ none
unfolding requests new_generator next_value first_payload advance find_next_iteration slice_from
    scan take_request mark copy prepend merge_maps has add iterator_value battering_ram_value
    has_next value increment_position put value_of_type
panic_test = refl

abbrev users_and_words : GoMap (List String)
users_and_words = ("user", "root" ∷ "guest" ∷ []) ∷ ("word", "a" ∷ "b" ∷ "c" ∷ []) ∷ []

abbrev never : String → Bool
never r = false

requests-clusterbomb_example :
    (i : Iterator) × (new_iterator cluster_bomb users_and_words ≡ some i)
    × (requests iterator_value never 13 ("/login" ∷ "/admin" ∷ []) (new_generator i 2 false)
        ≡ some (
            product ("/login" ∷ "/admin" ∷ []) (
              map
                (λ k. combination k users_and_words [])
                (range_from 0 (combinations users_and_words)))))
requests-clusterbomb_example =
    requests-clusterbomb never 13 ("/login" ∷ "/admin" ∷ []) users_and_words (omega arith)
      (omega arith, (omega arith, tt)) (omega arith) (refl, (refl, tt)) (omega arith)
