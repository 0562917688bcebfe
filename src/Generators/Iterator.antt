-- ===== src/Generators/Iterator.antt =====
-- The payload iterator of pkg/protocols/common/generators/generators.go: `payloadIterator`, and the
-- construction and the counts of `Iterator`.
use webapp_sec_tools.Prelude.{
  ℕ, ◌+◌, ◌*◌, ◌-◌, ◌%◌, ◌^◌, String, Option, none, some, List, [], ◌∷◌, Bool, ltb, if◌then◌else◌,
  length, get_elem?, map,
}
use webapp_sec_tools.Prelude.GoMap.{GoMap}

-- `unspecified` is the zero value of the Go type, which has no name in `attackTypeMappings`.
pub data AttackType : Type 0 where
  unspecified battering_ram pitch_fork cluster_bomb : AttackType

pub record PayloadIterator : Type 0 where
  pub index : ℕ
  pub name : String
  pub values : List String

-- next()
unfoldable pub has_next : PayloadIterator → Bool
has_next i = ltb i.index (length i.values)

unfoldable pub reset_position : PayloadIterator → PayloadIterator
reset_position i = record i { index = 0 }

unfoldable pub increment_position : PayloadIterator → PayloadIterator
increment_position i = record i { index = i.index + 1 }

-- value(): `none` is the panic of an index out of range
unfoldable pub value : PayloadIterator → Option String
value i = get_elem? i.values i.index

pub record Iterator : Type 0 where
  pub attack_type : AttackType
  pub position : ℕ
  pub msb_iterator : ℕ
  pub total : ℕ
  pub payloads : List PayloadIterator

-- What `Value` returns: a map and true, nil and false, or a panic. `out_of_fuel` is the model's own.
pub data Next : Type 0 where
  next : GoMap String → Next
  exhausted : Next
  panic : Next
  out_of_fuel : Next

-- int is 64 bits wide: a number stands for its bit pattern, and the order is that of signed numbers
abbrev pub int_mod : ℕ
int_mod = 2 ^ 64

abbrev pub int_lt : ℕ → ℕ → Bool
int_lt a b = ltb ((a + 2 ^ 63) % 2 ^ 64) ((b + 2 ^ 63) % 2 ^ 64)

-- The three loops of `Total`.
unfoldable pub sum_lengths : ℕ → List PayloadIterator → ℕ
sum_lengths count [] = count
sum_lengths count (p ∷ ps) = sum_lengths (count + length p.values) ps

unfoldable pub min_lengths : ℕ → List PayloadIterator → ℕ
min_lengths count [] = count
min_lengths count (p ∷ ps) =
    min_lengths (if ltb (length p.values) count then length p.values else count) ps

unfoldable pub product_lengths : ℕ → List PayloadIterator → ℕ
product_lengths count [] = count
product_lengths count (p ∷ ps) = product_lengths ((count * length p.values) % int_mod) ps

-- Total(): `none` is the panic of `i.payloads[0]` on an empty list
unfoldable pub count_total : AttackType → List PayloadIterator → Option ℕ
unfolding sum_lengths min_lengths product_lengths
count_total unspecified ps = some 0
count_total battering_ram ps = some (sum_lengths 0 ps)
count_total pitch_fork [] = none
count_total pitch_fork (p ∷ ps) = some (min_lengths (length p.values) (p ∷ ps))
count_total cluster_bomb ps = some (product_lengths 1 ps)

-- NewIterator(): the payloads in the order in which the range over the map gives them
unfoldable pub fresh_payload : String × List String → PayloadIterator
fresh_payload (name, values) = record { index = 0; name = name; values = values }

unfoldable pub new_iterator : AttackType → GoMap (List String) → Option Iterator
unfolding fresh_payload count_total
new_iterator t g =
    let payloads = map fresh_payload g in
    elim (count_total t payloads) [
      | none ↦ none
      | some total ↦ some (record {
        attack_type = t;
        position = 0;
        msb_iterator = 0;
        total = total;
        payloads = payloads;
      })
    ]

-- Reset()
unfoldable pub reset : Iterator → Iterator
unfolding reset_position
reset i = record i { position = 0; msb_iterator = 0; payloads = map reset_position i.payloads }

-- Remaining(), where the position has not passed the total
unfoldable pub remaining : Iterator → ℕ
remaining i = i.total - i.position
