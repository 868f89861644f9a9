-- ===== src/Auxlib/Bit32.antt =====
-- auxlib/bit32.go: the twelve functions of the Lua module bit32.
use runtimelua.Common.{
  ℕ, ◌+◌, ◌-◌, ◌%◌, ◌^◌, Bool, Bytes, codes, not, ◌||◌, ◌&&◌, none, some, List, [], ◌∷◌,
  if◌then◌else◌, ltb, ◌==◌, bit_and, bit_or, bit_xor,
}
use runtimelua.Lua.{LValue, nil, bool, number, string, function, handle, table}
use runtimelua.Auxlib.Bits.{
  Checks, Pushed, pushed, pushed_bool, type_error, no_such_bits, uint32, is_negative, negated,
  shift_left, shift_right,
}

-- `Bit32Default64`.
abbrev pub default64 : ℕ
default64 = 2 ^ 32 - 1

-- The arguments behind the first one, which the loops read up to a nil or the end.
unfoldable pub rest_of : List LValue → List LValue
rest_of [] = []
rest_of (a ∷ args) = args

-- The loop `for { val := l.Get(next); … }` from the argument `next` on.
unfoldable pub fold : (o : Checks) (op : ℕ → ℕ → ℕ) (next : ℕ) (args : List LValue) (a : ℕ) → Pushed
fold o op next [] a = pushed a
fold o op next (nil ∷ rest) a = pushed a
fold o op next (number p ∷ rest) a = fold o op (next + 1) rest (op a (o.to_uint32 p))
fold o op next (bool b ∷ rest) a = type_error next
fold o op next (string s ∷ rest) a = type_error next
fold o op next (function f ∷ rest) a = type_error next
fold o op next (handle h ∷ rest) a = type_error next
fold o op next (table es ∷ rest) a = type_error next

unfoldable pub fold_from : Checks → (ℕ → ℕ → ℕ) → ℕ → List LValue → Pushed
unfolding rest_of uint32
fold_from o op start args = elim (o.opt_int64 1 start args) [
  | none ↦ type_error 1
  | some a ↦ fold o op 2 (rest_of args) (uint32 a)
]

unfoldable pub band : Checks → List LValue → Pushed
band o args = fold_from o bit_and default64 args

unfoldable pub bor : Checks → List LValue → Pushed
bor o args = fold_from o bit_or 0 args

unfoldable pub bxor : Checks → List LValue → Pushed
bxor o args = fold_from o bit_xor 0 args

-- `l.Push(lua.LBool(a != 0))`, where `band` pushes the number.
unfoldable pub finish_test : Pushed → Pushed
finish_test (pushed a) = pushed_bool (not (a == 0))
finish_test r = r

unfoldable pub btest : Checks → List LValue → Pushed
unfolding finish_test
btest o args = finish_test (fold_from o bit_and default64 args)

unfoldable pub bnot : Checks → List LValue → Pushed
unfolding uint32
bnot o args = elim (o.check_int64 1 args) [
  | none ↦ type_error 1
  | some a ↦ pushed (bit_xor (uint32 a) (2 ^ 32 - 1))
]

-- `a := uint32(l.CheckInt64(1)); n := l.CheckInt(2)`, and a number made of them.
unfoldable pub with_count : Checks → List LValue → (ℕ → ℕ → ℕ) → Pushed
unfolding uint32
with_count o args f = elim (o.check_int64 1 args) [
  | none ↦ type_error 1
  | some a ↦ elim (o.check_int 2 args) [ none ↦ type_error 2 | some n ↦ pushed (f (uint32 a) n) ]
]

unfoldable pub shifted_left : ℕ → ℕ → ℕ
unfolding uint32 is_negative negated shift_left shift_right
shifted_left a n =
    if is_negative n then shift_right 32 a (uint32 (negated n)) else shift_left 32 a (uint32 n)

unfoldable pub lshift : Checks → List LValue → Pushed
unfolding with_count
lshift o args = with_count o args shifted_left

unfoldable pub shifted_right : ℕ → ℕ → ℕ
unfolding uint32 is_negative negated shift_left shift_right
shifted_right a n =
    if is_negative n then shift_left 32 a (uint32 (negated n)) else shift_right 32 a (uint32 n)

unfoldable pub rshift : Checks → List LValue → Pushed
unfolding with_count
rshift o args = with_count o args shifted_right

-- `32-n` is an int that wraps.
unfoldable pub arithmetic_right : Checks → ℕ → ℕ → ℕ
unfolding uint32 is_negative negated shift_left shift_right
arithmetic_right o a n =
    if is_negative n
    then shift_left 32 a (uint32 (negated n))
    else if not (shift_right 32 a 31 == 0)
    then bit_or (shift_right 32 a (uint32 n))
        (shift_left 32 (o.ones n) (uint32 ((2 ^ 64 + 32 - n) % 2 ^ 64)))
    else shift_right 32 a (uint32 n)

unfoldable pub arshift : Checks → List LValue → Pushed
unfolding with_count
arshift o args = with_count o args (arithmetic_right o)

-- `bits.RotateLeft32`: `s := uint(k) & 31; return x<<s | x>>(32-s)`.
unfoldable pub rotate_left32 : ℕ → ℕ → ℕ
unfolding shift_left shift_right
rotate_left32 x k = let s = k % 32 in bit_or (shift_left 32 x s) (shift_right 32 x (32 - s))

unfoldable pub lrotate : Checks → List LValue → Pushed
unfolding with_count
lrotate o args = with_count o args rotate_left32

unfoldable pub rrotate : Checks → List LValue → Pushed
unfolding with_count negated
rrotate o args = with_count o args (λ a n. rotate_left32 a (negated n))

-- `offset < 0 || offset > 31 || width < 1 || width > 32 || (offset+width) > 32`, on int.
unfoldable pub no_field : ℕ → ℕ → Bool
unfolding is_negative
no_field offset width =
    is_negative offset
    || ltb 31 offset
    || (is_negative width || width == 0)
    || (not (is_negative width) && ltb 32 width)
    || ltb 32 (offset + width)

-- `1<<uint32(width) - 1`, on uint32.
unfoldable pub mask : ℕ → ℕ
unfolding uint32 shift_left
mask width = (shift_left 32 1 (uint32 width) + 2 ^ 32 - 1) % 2 ^ 32

unfoldable pub extracted : ℕ → ℕ → ℕ → ℕ
unfolding uint32 shift_right mask
extracted a offset width = bit_and (shift_right 32 a (uint32 offset)) (mask width)

unfoldable pub extract : Checks → List LValue → Pushed
unfolding no_field extracted uint32
extract o args = elim (o.check_int64 1 args) [
  | none ↦ type_error 1
  | some a ↦ elim (o.check_int 2 args) [
    | none ↦ type_error 2
    | some offset ↦ elim (o.opt_int 3 1 args) [
      | none ↦ type_error 3
      | some width ↦
          if no_field offset width then no_such_bits else pushed (extracted (uint32 a) offset width)
    ]
  ]
]

-- `a = a ^ (((a >> offset) & mask) << offset)`, and
-- `v = ((v << (32-width)) >> (32-width)) << offset`.
unfoldable pub replaced : ℕ → ℕ → ℕ → ℕ → ℕ
unfolding extracted uint32 shift_left shift_right
replaced a v offset width =
    let cleared = bit_xor a (shift_left 32 (extracted a offset width) (uint32 offset)) in
    let s = uint32 (32 - width) in
    bit_or cleared (shift_left 32 (shift_right 32 (shift_left 32 v s) s) (uint32 offset))

unfoldable pub replace : Checks → List LValue → Pushed
unfolding no_field replaced uint32
replace o args = elim (o.check_int64 1 args) [
  | none ↦ type_error 1
  | some a ↦ elim (o.check_int64 2 args) [
    | none ↦ type_error 2
    | some v ↦ elim (o.check_int 3 args) [
      | none ↦ type_error 3
      | some offset ↦ elim (o.opt_int 4 1 args) [
        | none ↦ type_error 4
        | some width ↦
            if no_field offset width
            then no_such_bits
            else pushed (replaced (uint32 a) (uint32 v) offset width)
      ]
    ]
  ]
]

-- The table that names the functions of the library.
unfoldable pub bit32_funcs : List (Bytes × (Checks → List LValue → Pushed))
bit32_funcs =
    (codes "arshift", arshift)
    ∷ (codes "band", band)
    ∷ (codes "bnot", bnot)
    ∷ (codes "bor", bor)
    ∷ (codes "btest", btest)
    ∷ (codes "bxor", bxor)
    ∷ (codes "extract", extract)
    ∷ (codes "replace", replace)
    ∷ (codes "lrotate", lrotate)
    ∷ (codes "lshift", lshift)
    ∷ (codes "rrotate", rrotate)
    ∷ (codes "rshift", rshift)
    ∷ []
