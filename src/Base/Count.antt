-- ===== src/Base/Count.antt =====
-- How many of the numbers below a bound pass a test.
use native.Mathlib.Decide.{ℕ_discrete}
use Prim.Native.Nat.{ℕ, zero, suc, ◌+◌, ◌≤◌, ◌<◌}
use mathlib.Core.Path.{◌≡◌, refl}
use mathlib.Core.Logic.{◌≢◌}
use mathlib.Core.Bool.{Bool, true, false}
use native.Mathlib.Omega.{arith}
use tao_p4code.Base.Test.{if◌then◌else◌}

unfoldable pub count_below : (ℕ → Bool) → ℕ → ℕ
count_below f zero = 0
count_below f (suc n) = count_below f n + (if f n then 1 else 0)

pub count_below-le : (f : ℕ → Bool) (n : ℕ) → count_below f n ≤ n
unfolding count_below
count_below-le f zero = omega arith
count_below-le f (suc n) = ground (arith, count_below-le f n)

pub count_below-ext :
    (f g : ℕ → Bool) (n : ℕ) → ((i : ℕ) → i < n → g i ≡ f i) → count_below g n ≡ count_below f n
unfolding count_below
count_below-ext f g zero same = refl
count_below-ext f g (suc n) same =
    rw (same n (omega arith), count_below-ext f g n (λ i h. same i (omega arith)))

-- One number more passes.
pub count_below-add :
    (f g : ℕ → Bool) (n k : ℕ)
    → k < n
    → f k ≡ false
    → g k ≡ true
    → ((i : ℕ) → i ≢ k → g i ≡ f i)
    → count_below g n ≡ count_below f n + 1
unfolding count_below
count_below-add f g zero k low off on same = absurd (omega arith)
count_below-add f g (suc n) k low off on same = elim (ℕ_discrete n k) [
  | yes e ↦ rw (count_below-ext f g n (λ i h. same i (omega arith)), e, off, on) (omega arith)
  | no ne ↦ rw (count_below-add f g n k (omega arith) off on same, same n ne) (omega arith)
]

-- A number that passes is counted.
pub count_below-pos : (f : ℕ → Bool) (n k : ℕ) → k < n → f k ≡ true → 0 < count_below f n
unfolding count_below
count_below-pos f zero k low on = absurd (omega arith)
count_below-pos f (suc n) k low on = elim (ℕ_discrete n k) [
  | yes e ↦ rw (e, on) (omega arith)
  | no ne ↦ omega (arith, count_below-pos f n k (omega arith) on)
]

-- If none passes, the count is 0.
pub count_below-none :
    (f : ℕ → Bool) (n : ℕ) → ((i : ℕ) → i < n → f i ≡ false) → count_below f n ≡ 0
unfolding count_below
count_below-none f zero none = refl
count_below-none f (suc n) none =
    rw (none n (omega arith), count_below-none f n (λ i h. none i (omega arith)))
