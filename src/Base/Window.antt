-- ===== src/Base/Window.antt =====
-- Slots of a circular buffer: two numbers less than its length apart have different slots.
use Prim.Native.Nat.{ℕ, suc, ◌+◌, ◌*◌, ◌/◌, ◌%◌, ◌≤◌, ◌<◌}
use mathlib.Core.Logic.{◌≢◌}
use native.Mathlib.Nat.{div-add-mod, mul-le-mul_left}
use native.Mathlib.Decide.{dec_le}
use native.Mathlib.Omega.{arith}

pub mod-ne : (a b n : ℕ) → a < b → b < a + n → a % n ≢ b % n
mod-ne a b n lo hi e = elim (dec_le (b / n) (a / n)) [
  | yes h ↦
      let k : n * (b / n) ≤ n * (a / n) = mul-le-mul_left n h in
      absurd (omega (arith, k, e, div-add-mod a n, div-add-mod b n))
  | no h ↦
      let h' : suc (a / n) ≤ b / n = omega arith in
      let k : n * suc (a / n) ≤ n * (b / n) = mul-le-mul_left n h' in
      absurd (omega (arith, k, e, div-add-mod a n, div-add-mod b n))
]
