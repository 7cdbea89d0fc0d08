-- ===== src/Base/Bits.antt =====
-- Masks: `x & (2 ^ k - 1)` keeps the low digits, so it is the remainder by `2 ^ k`.
use Prim.Native.Nat.{
  ℕ, zero, suc, ◌+◌, ◌-◌, ◌*◌, ◌/◌, ◌%◌, ◌^◌, ◌≤◌, ◌<◌, min, bit_and, digits, bit_and-bitwise,
}
use mathlib.Core.Path.{◌≡◌, sym, ap, ◌∙◌}
use native.Mathlib.Nat.{
  add-mul-mod_self_left, div-add-mod, mod-eq_of_lt, mod-lt, mod-one, mul_assoc, one-le-pow,
  pow-succ', zero-mod,
}
use native.Mathlib.Omega.{arith}

-- The lowest digit apart.
mod-double : (a m : ℕ) → 0 < m → a % (2 * m) ≡ a / 2 % m * 2 + a % 2
mod-double a m some_m =
    let r = a / 2 % m * 2 + a % 2 in
    let low : a / 2 % m < m = mod-lt (a / 2) some_m in
    let regroup : 2 * m * (a / 2 / m) ≡ 2 * (m * (a / 2 / m)) = mul_assoc 2 m (a / 2 / m) in
    let split : a ≡ r + 2 * m * (a / 2 / m) = omega (arith, div-add-mod (a / 2) m, regroup) in
    ap (λ n. n % (2 * m)) split
    ∙ add-mul-mod_self_left r (2 * m) (a / 2 / m)
    ∙ mod-eq_of_lt (omega arith)

-- With as many rounds as the number, or more, the digits that the mask lets through make up the
-- remainder.
digits-mask :
    (rounds k a : ℕ) → a ≤ rounds → digits (λ b. zero) min rounds a (2 ^ k - 1) ≡ a % 2 ^ k
digits-mask zero k zero h = sym (zero-mod (2 ^ k))
digits-mask zero k (suc a) h = absurd (omega arith)
digits-mask (suc rounds) k zero h = sym (zero-mod (2 ^ k))
digits-mask (suc rounds) zero (suc a) h =
    omega (
      arith,
      digits-mask rounds zero (suc a / 2) (omega arith),
      mod-one (suc a),
      mod-one (suc a / 2),
    )
digits-mask (suc rounds) (suc k) (suc a) h =
    let some_pow : 1 ≤ 2 ^ k = one-le-pow k 2 (omega arith) in
    let whole : suc a % 2 ^ suc k ≡ suc a / 2 % 2 ^ k * 2 + suc a % 2 =
      ap (λ n. suc a % n) (pow-succ' 2 k) ∙ mod-double (suc a) (2 ^ k) some_pow in
    let half : (2 ^ suc k - 1) / 2 ≡ 2 ^ k - 1 = omega (arith, pow-succ' 2 k) in
    let odd : (2 ^ suc k - 1) % 2 ≡ 1 = omega (arith, pow-succ' 2 k) in
    let rest = digits-mask rounds k (suc a / 2) (omega arith) in
    rw (half, odd, rest, whole) (omega arith)

pub bit_and_mask : (k a : ℕ) → bit_and a (2 ^ k - 1) ≡ a % 2 ^ k
bit_and_mask k a = bit_and-bitwise a (2 ^ k - 1) ∙ digits-mask a k a (omega arith)
