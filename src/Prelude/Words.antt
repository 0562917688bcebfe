-- ===== src/Prelude/Words.antt =====
-- Go's int32 as its 32 bits.
use Prim.Native.Nat.{ℕ, ◌+◌, ◌%◌, ◌^◌, ◌<◌}
use mathlib.Core.Path.{◌≡◌}
use mathlib.Core.Bool.{Bool}
use native.Mathlib.Omega.{arith}
use webapp_sec_tools.Prelude.Tests.{leb}

-- int32(n)
abbrev pub int32 : ℕ → ℕ
int32 n = n % 2 ^ 32

-- The sign bit flipped: the order of the words is then that of the signed numbers.
abbrev pub int32_key : ℕ → ℕ
int32_key a = (a + 2 ^ 31) % 2 ^ 32

-- a >= b, signed
abbrev pub int32_ge : ℕ → ℕ → Bool
int32_ge a b = leb (int32_key b) (int32_key a)

pub int32_ge-leb : (a b : ℕ) → a < 2 ^ 31 → b < 2 ^ 31 → int32_ge a b ≡ leb b a
int32_ge-leb a b h k = ground arith
