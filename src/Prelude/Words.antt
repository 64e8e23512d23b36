-- ===== src/Prelude/Words.antt =====
-- Unsigned 32-bit and 16-bit arithmetic of a release build: it wraps around.
use Prim.Native.Nat.{ℕ, ◌+◌, ◌-◌, ◌%◌, ◌^◌, ◌<◌, ◌≤◌}
use mathlib.Core.Path.{◌≡◌}
use native.Mathlib.Omega.{arith}

-- `a + b` and `a - b` on `u32`
unfoldable pub add32 : ℕ → ℕ → ℕ
add32 a b = (a + b) % 2 ^ 32

unfoldable pub sub32 : ℕ → ℕ → ℕ
sub32 a b = (a + 2 ^ 32 - b) % 2 ^ 32

-- `n as u32`, `n as u16`
unfoldable pub as_u32 : ℕ → ℕ
as_u32 n = n % 2 ^ 32

unfoldable pub as_u16 : ℕ → ℕ
as_u16 n = n % 2 ^ 16

pub sub32-le : (a b : ℕ) → b ≤ a → a < 2 ^ 32 → sub32 a b ≡ a - b
unfolding sub32
sub32-le a b h w = omega arith

pub add32-lt : (a b : ℕ) → a + b < 2 ^ 32 → add32 a b ≡ a + b
unfolding add32
add32-lt a b h = omega arith
