-- ===== src/Prelude/Int.antt =====
-- Signed integers over the native numbers, under the library's names: return codes and C `int`.
use Prim.Native.Nat.{ℕ, zero, suc, ◌<◌}
use mathlib.Core.Path.{◌≡◌, refl}
use native.Mathlib.Omega.{arith}
use mathlib.Core.Bool.{Bool, true, false}
use thunder_chat.Prelude.Tests.{leb}

-- `negsuc n` is -(n + 1).
pub data ℤ : Type 0 where
  pos : ℕ → ℤ
  negsuc : ℕ → ℤ

-- `x < 0`
abbrev pub is_negative : ℤ → Bool
is_negative (pos n) = false
is_negative (negsuc n) = true

-- `x > 0`
abbrev pub is_positive : ℤ → Bool
is_positive (pos zero) = false
is_positive (pos (suc n)) = true
is_positive (negsuc n) = false

pub is_positive_pos : (n : ℕ) → 0 < n → is_positive (pos n) ≡ true
is_positive_pos zero h = absurd (omega arith)
is_positive_pos (suc n) h = refl

-- `x + 1` and `x - 1`
abbrev pub increment : ℤ → ℤ
increment (pos n) = pos (suc n)
increment (negsuc zero) = pos 0
increment (negsuc (suc n)) = negsuc n

abbrev pub decrement : ℤ → ℤ
decrement (pos zero) = negsuc 0
decrement (pos (suc n)) = pos n
decrement (negsuc n) = negsuc (suc n)

-- `x >= y`
abbrev pub at_least : ℤ → ℤ → Bool
at_least (pos m) (pos n) = leb n m
at_least (pos m) (negsuc n) = true
at_least (negsuc m) (pos n) = false
at_least (negsuc m) (negsuc n) = leb m n
