-- ===== src/Prelude/NumSet.antt =====
-- Go's `map[uint32]struct{}`, and the sets of an enumeration, as lists of numbers without order.
use Prim.Native.Nat.{ℕ}
use mathlib.Core.Path.{◌≡◌, refl}
use mathlib.Core.Bool.{Bool, false, ◌&&◌, ◌||◌, not}
use mathlib.Core.List.{List, [], ◌∷◌}
use native.Mathlib.Omega.{arith}
use webapp_sec_tools.Prelude.Tests.{◌==◌, if◌then◌else◌}

abbrev pub NumSet : Type 0
NumSet = List ℕ

-- _, ok := m[n]
unfoldable pub has_number : ℕ → NumSet → Bool
has_number n [] = false
has_number n (m ∷ s) = m == n || has_number n s

-- m[n] = struct{}{}
unfoldable pub add_number : ℕ → NumSet → NumSet
unfolding has_number
add_number n s = if has_number n s then s else n ∷ s

-- delete(m, n)
unfoldable pub discard_number : ℕ → NumSet → NumSet
discard_number n [] = []
discard_number n (m ∷ s) = let rest = discard_number n s in if m == n then rest else m ∷ rest

pub has_number-add :
    (n k : ℕ) (s : NumSet) → has_number k (add_number n s) ≡ (n == k || has_number k s)
unfolding add_number has_number
has_number-add n k s = added n k s
  where
    added :
        (n k : ℕ) (s : NumSet)
        → has_number k (if has_number n s then s else n ∷ s) ≡ (n == k || has_number k s)
    added n k [] = refl
    added n k (m ∷ s) = ground (arith, added n k s)

pub has_number-discard :
    (n k : ℕ) (s : NumSet) → has_number k (discard_number n s) ≡ (not (n == k) && has_number k s)
unfolding discard_number has_number
has_number-discard n k [] = ground arith
has_number-discard n k (m ∷ s) = ground (arith, has_number-discard n k s)
