-- ===== src/Prelude/Value.antt =====
-- The values of a `map[string]interface{}` that the modelled code makes or tells apart; `other` stands
-- for a value that it only passes on.
use Prim.Native.Nat.{ℕ}
use Prim.Native.String.{String}
use mathlib.Core.List.{List}

pub data Value : Type 0 where
  text : String → Value
  texts : List String → Value
  other : ℕ → Value
