-- ===== src/Prelude/Digits.antt =====
-- Mixed-radix digits: division and remainder of `i + n * v`, where `i` is a digit below `n`.
use Prim.Native.Nat.{ℕ, zero, ◌+◌, ◌*◌, ◌/◌, ◌%◌, ◌<◌}
use mathlib.Core.Path.{◌≡◌, sym, ap, ◌∙◌}
use native.Mathlib.Nat.{
  add-mul-mod_self_left, add-mul-div_left, mod-add-div, mod-eq_of_lt, div-eq_of_lt,
}
use native.Mathlib.Omega.{arith}

pub mod_digit : (i n v : ℕ) → i < n → (i + n * v) % n ≡ i
mod_digit i n v h = add-mul-mod_self_left i n v ∙ mod-eq_of_lt h

pub div_digit : (i n v : ℕ) → i < n → (i + n * v) / n ≡ v
div_digit i n v h =
    let pos : zero < n = omega arith in
    let e : (i + n * v) / n ≡ i / n + v = add-mul-div_left i v pos in
    let z : i / n ≡ 0 = div-eq_of_lt h in omega arith

-- A factor may be reduced first.
pub mod-mul-mod : (x k m : ℕ) → (x % m * k) % m ≡ (x * k) % m
mod-mul-mod x k m =
    sym (add-mul-mod_self_left (x % m * k) m (x / m * k))
    ∙ ap (λ t. t % m) (omega (arith, ap (λ t. t * k) (mod-add-div x m)))
