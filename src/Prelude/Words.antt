-- ===== src/Prelude/Words.antt =====
-- Conversions between machine integers: `uint64_t`, `int`, and the usual arithmetic conversions.
use Prim.Native.Nat.{ℕ, ◌+◌, ◌-◌, ◌%◌, ◌^◌, ◌<◌}
use mathlib.Core.Path.{◌≡◌}
use mathlib.Core.Logic.{◌≢◌}
use native.Mathlib.Omega.{arith}
use thunder_chat.Prelude.Tests.{ltb, if◌then◌else◌}

-- `(uint64_t)(int)x`: the low 32 bits, sign-extended to 64.
unfoldable pub int_of_u64 : ℕ → ℕ
int_of_u64 x = let low = x % 2 ^ 32 in if ltb low (2 ^ 31) then low else low + (2 ^ 64 - 2 ^ 32)

pub int_of_u64_small : (x : ℕ) → x < 2 ^ 31 → int_of_u64 x ≡ x
unfolding int_of_u64
int_of_u64_small x h = ground arith

pub int_of_u64_large : (x : ℕ) → 2 ^ 31 - 1 < x → x < 2 ^ 64 - 2 ^ 31 → int_of_u64 x ≢ x
unfolding int_of_u64
int_of_u64_large x h k = ground arith

pub int_of_u64_between : (x y : ℕ) → 2 ^ 31 - 1 < y → y < 2 ^ 64 - 2 ^ 31 → int_of_u64 x ≢ y
unfolding int_of_u64
int_of_u64_between x y h k = ground arith
