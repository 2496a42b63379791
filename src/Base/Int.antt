-- ===== src/Base/Int.antt =====
-- C's signed results: error codes are negative, and a test `ret < 0` reads the sign.
use Prim.Native.Nat.{ℕ, zero, suc, ◌+◌, ◌-◌, ◌%◌, ◌^◌}
use mathlib.Core.Bool.{Bool, true, false}
use tao_p4code.Base.Test.{◌==◌}

-- `negsuc n` is -(n + 1).
pub data ℤ : Type 0 where
  pos : ℕ → ℤ
  negsuc : ℕ → ℤ

abbrev pub is_neg : ℤ → Bool
is_neg (pos n) = false
is_neg (negsuc n) = true

abbrev pub is_zero : ℤ → Bool
is_zero (pos n) = n == 0
is_zero (negsuc n) = false

-- The negative of an index, as the error codes are formed.
abbrev pub neg_of : ℕ → ℤ
neg_of n = elim n [ zero ↦ pos 0 | suc m ↦ negsuc m ]

-- `n++` and `n--` on a signed counter.
abbrev pub suc_ℤ : ℤ → ℤ
suc_ℤ (pos n) = pos (n + 1)
suc_ℤ (negsuc n) = elim n [ zero ↦ pos 0 | suc m ↦ negsuc m ]

abbrev pub pred_ℤ : ℤ → ℤ
pred_ℤ (pos n) = elim n [ zero ↦ negsuc 0 | suc m ↦ pos m ]
pred_ℤ (negsuc n) = negsuc (n + 1)

-- `n++` and `n--` on a `uint32_t`.
abbrev pub inc32 : ℕ → ℕ
inc32 n = (n + 1) % 2 ^ 32

abbrev pub dec32 : ℕ → ℕ
dec32 n = (n + 2 ^ 32 - 1) % 2 ^ 32
