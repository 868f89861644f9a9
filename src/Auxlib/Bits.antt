-- ===== src/Auxlib/Bits.antt =====
-- auxlib/bit32.go and auxlib/bit64.go: the words, and how a function of theirs ends.
pub mod Digits
pub mod Fields
pub mod Shifts
use runtimelua.Common.{
  ℕ, ◌+◌, ◌-◌, ◌*◌, ◌/◌, ◌%◌, ◌^◌, Bool, if◌then◌else◌, ltb, leb, Option, none, some, List,
}
use runtimelua.Lua.{LValue}

-- What the functions call: the checks of gopher-lua, whose `none` is the error that they raise, on
-- `int64` and `int` as patterns of 64 bits; Go's conversions of a float64 to the unsigned types, and
-- `uint32(math.Pow(2, float64(n))-1)`.
pub record Checks : Type 0 where
  pub check_int64 : ℕ → List LValue → Option ℕ
  pub check_int : ℕ → List LValue → Option ℕ
  pub check_number : ℕ → List LValue → Option ℕ
  pub opt_int64 : ℕ → ℕ → List LValue → Option ℕ
  pub opt_int : ℕ → ℕ → List LValue → Option ℕ
  pub to_uint32 : ℕ → ℕ
  pub to_uint64 : ℕ → ℕ
  pub ones : ℕ → ℕ

-- How a function ends: with the number that `LNumber` makes of an unsigned integer, with a boolean,
-- with an error about the type of an argument, or with "trying to access non-existent bits".
pub data Pushed : Type 0 where
  pushed : ℕ → Pushed
  pushed_bool : Bool → Pushed
  type_error : ℕ → Pushed
  no_such_bits : Pushed

-- `uint32(a)` of an integer, and `n < 0` and `n * -1` on an int.
unfoldable pub uint32 : ℕ → ℕ
uint32 a = a % 2 ^ 32

unfoldable pub is_negative : ℕ → Bool
is_negative n = leb (2 ^ 63) n

unfoldable pub negated : ℕ → ℕ
negated n = (2 ^ 64 - n) % 2 ^ 64

-- `a << k` and `a >> k` on words of `w` bits: a shift by the width or more leaves nothing.
unfoldable pub shift_left : ℕ → ℕ → ℕ → ℕ
shift_left w a k = if ltb k w then a * 2 ^ k % 2 ^ w else 0

unfoldable pub shift_right : ℕ → ℕ → ℕ → ℕ
shift_right w a k = if ltb k w then a / 2 ^ k else 0
