-- ===== src/Prelude/GoSet.antt =====
-- Go's `map[string]struct{}` as a list without order: `add` writes a key that is not there yet.
use mathlib.Core.Path.{◌≡◌, refl, ap}
use mathlib.Core.Bool.{Bool, true, false, ◌&&◌, ◌||◌, not}
use mathlib.Core.List.{List, [], ◌∷◌}
use Prim.Native.String.{String}
use native.Mathlib.Omega.{arith}
use text.Mathlib.TextEquality.{eq_iff}
use webapp_sec_tools.Prelude.Tests.{str_eq, if◌then◌else◌}

abbrev pub GoSet : Type 0
GoSet = List String

-- _, ok := m[k]
unfoldable pub has : String → GoSet → Bool
has k [] = false
has k (j ∷ s) = str_eq j k || has k s

-- if _, ok := m[k]; !ok { m[k] = struct{}{} }
unfoldable pub add : String → GoSet → GoSet
unfolding has
add k s = if has k s then s else k ∷ s

-- delete(m, k)
unfoldable pub discard : String → GoSet → GoSet
discard k [] = []
discard k (j ∷ s) = let rest = discard k s in if str_eq j k then rest else j ∷ rest

-- A loop that adds the keys of a list.
unfoldable pub add_all : List String → GoSet → GoSet
add_all [] s = s
add_all (k ∷ ks) s = add_all ks (add k s)

pub has-eq : (k j : String) (s : GoSet) → str_eq k j ≡ true → has k s ≡ has j s
has-eq k j s h = ap (λ t. has t s) ((eq_iff k j).0 h)

pub has-add : (k j : String) (s : GoSet) → has j (add k s) ≡ (str_eq k j || has j s)
unfolding add
has-add k j s = ground (arith, has-eq k j s)

pub has-add_all :
    (k : String) (ks : List String) (s : GoSet) → has k (add_all ks s) ≡ (has k ks || has k s)
unfolding add_all has
has-add_all k [] s = refl
has-add_all k (j ∷ ks) s = ground (arith, has-add_all k ks (add j s), has-add j k s)

pub has-discard : (k j : String) (s : GoSet) → has j (discard k s) ≡ (not (str_eq k j) && has j s)
unfolding has discard
has-discard k j [] = ground arith
has-discard k j (i ∷ s) = ground (arith, has-discard k j s, eq_iff i k, eq_iff i j, eq_iff k j)
