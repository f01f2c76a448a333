-- ===== src/Base/Words.antt =====
-- 256-bit and 64-bit words as native numbers. The operators of U256 wrap around; the methods with
-- `saturating` in their name stop at the ends of the range.
use Prim.Native.Nat.{ℕ, ◌+◌, ◌-◌, ◌*◌, ◌%◌, ◌^◌, ◌≤◌, ◌<◌, min}
use mathlib.Core.Path.{◌≡◌}
use native.Mathlib.Omega.{arith}

abbrev pub u64_max : ℕ
u64_max = 2 ^ 64 - 1

abbrev pub u256_max : ℕ
u256_max = 2 ^ 256 - 1

-- `+`, `-` and `*` of U256.
unfoldable pub add_u256 : ℕ → ℕ → ℕ
add_u256 a b = (a + b) % 2 ^ 256

unfoldable pub sub_u256 : ℕ → ℕ → ℕ
sub_u256 a b = (a + 2 ^ 256 - b) % 2 ^ 256

unfoldable pub mul_u256 : ℕ → ℕ → ℕ
mul_u256 a b = (a * b) % 2 ^ 256

unfoldable pub saturating_mul_u256 : ℕ → ℕ → ℕ
saturating_mul_u256 a b = min (a * b) u256_max

-- `saturating_to::<u64>()`.
unfoldable pub saturating_to_u64 : ℕ → ℕ
saturating_to_u64 n = min n u64_max

pub sub_u256-add_u256 : (a b : ℕ) → a < 2 ^ 256 → b < 2 ^ 256 → sub_u256 (add_u256 a b) b ≡ a
unfolding sub_u256 add_u256
sub_u256-add_u256 a b ha hb = omega arith

pub sub_u256_exact : (a b : ℕ) → a < 2 ^ 256 → b ≤ a → sub_u256 a b ≡ a - b
unfolding sub_u256
sub_u256_exact a b ha hb = omega arith
