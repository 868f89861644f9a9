-- ===== src/Common/Word.antt =====
-- Go's `int64` as its two's complement pattern, a number below 2 ^ 64.
use Prim.Native.Nat.{ℕ, ◌+◌, ◌-◌, ◌*◌, ◌%◌, ◌^◌, ◌≤◌, ◌<◌}
use mathlib.Core.Path.{◌≡◌}
use mathlib.Core.Bool.{Bool, ◌&&◌, true, false}
use native.Mathlib.Omega.{arith}
use runtimelua.Common.Tests.{ltb}

-- `a - b` and `a * b`, wrapped.
unfoldable pub sub64 : ℕ → ℕ → ℕ
sub64 a b = (a + 2 ^ 64 - b % 2 ^ 64) % 2 ^ 64

unfoldable pub mul64 : ℕ → ℕ → ℕ
mul64 a b = a * b % 2 ^ 64

-- `a > 0`: the pattern is not 0 and its sign bit is clear.
unfoldable pub is_pos64 : ℕ → Bool
is_pos64 a = ltb 0 a && ltb a (2 ^ 63)

-- A value that is not negative.
abbrev pub IsNat64 : ℕ → Type 0
IsNat64 a = a < 2 ^ 63

pub is_pos64-sub64 :
    (a b : ℕ) → IsNat64 a → IsNat64 b → b < a → (sub64 a b ≡ a - b) × (is_pos64 (sub64 a b) ≡ true)
unfolding sub64 is_pos64
is_pos64-sub64 a b ha hb h = ground arith

pub not-is_pos64-sub64 : (a b : ℕ) → IsNat64 a → IsNat64 b → a ≤ b → is_pos64 (sub64 a b) ≡ false
unfolding sub64 is_pos64
not-is_pos64-sub64 a b ha hb h = ground arith
