-- ===== src/Base/Mask.antt =====
-- `x & m` at a mask `m` of ones is a remainder.
use Prim.Native.Nat.{ℕ, zero, suc, ◌+◌, ◌*◌, ◌/◌, ◌%◌, ◌≤◌, bit_and, bit_and-bitwise, digits, min}
use mathlib.Core.Path.{◌≡◌, refl, ◌∙◌}
use native.Mathlib.Omega.{arith}

-- The mask of `k` ones, and the `k` lowest digits of a number.
mask : ℕ → ℕ
mask zero = 0
mask (suc k) = mask k * 2 + 1

low : ℕ → ℕ → ℕ
low zero a = 0
low (suc k) a = low k (a / 2) * 2 + a % 2

low_zero : (k : ℕ) → low k 0 ≡ 0
unfolding low
low_zero zero = refl
low_zero (suc k) = omega (arith, low_zero k)

digits-zero : (n a : ℕ) → digits (λ b. zero) min n a 0 ≡ 0
digits-zero zero a = refl
digits-zero (suc n) zero = refl
digits-zero (suc n) (suc a) = omega (arith, digits-zero n (suc a / 2))

digits-mask : (n k a : ℕ) → a ≤ n → digits (λ b. zero) min n a (mask k) ≡ low k a
unfolding mask low
digits-mask zero k zero h = omega (arith, low_zero k)
digits-mask zero k (suc a) h = absurd (omega arith)
digits-mask (suc n) zero a h = digits-zero (suc n) a
digits-mask (suc n) (suc k) zero h = omega (arith, low_zero (suc k))
digits-mask (suc n) (suc k) (suc a) h =
    let half : (mask k * 2 + 1) / 2 ≡ mask k = omega arith in
    let one : (mask k * 2 + 1) % 2 ≡ 1 = omega arith in
    rw (half, one) (omega (arith, digits-mask n k (suc a / 2) (omega arith)))

low-thirteen : (a : ℕ) → low 13 a ≡ a % 8192
unfolding low
low-thirteen a = omega arith

pub bit_and_thirteen : (a : ℕ) → bit_and a 0x1fff ≡ a % 8192
unfolding mask
bit_and_thirteen a = bit_and-bitwise a 0x1fff ∙ digits-mask a 13 a (omega arith) ∙ low-thirteen a
