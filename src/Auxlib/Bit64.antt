-- ===== src/Auxlib/Bit64.antt =====
-- auxlib/bit64.go: the six functions of the Lua module bit64.
use runtimelua.Common.{
  ℕ, ◌-◌, ◌^◌, none, some, List, [], ◌∷◌, Bytes, codes, bit_and, bit_or, bit_xor,
}
use runtimelua.Lua.{LValue}
use runtimelua.Auxlib.Bits.{Checks, Pushed, pushed, type_error, shift_left, shift_right}

-- `lhs, rhs := l.CheckInt64(1), l.CheckInt64(2)`, and a number made of their words.
unfoldable pub with_words : Checks → List LValue → (ℕ → ℕ → ℕ) → Pushed
with_words o args f = elim (o.check_int64 1 args) [
  | none ↦ type_error 1
  | some lhs ↦ elim (o.check_int64 2 args) [ none ↦ type_error 2 | some rhs ↦ pushed (f lhs rhs) ]
]

unfoldable pub brshift : Checks → List LValue → Pushed
unfolding with_words shift_right
brshift o args = with_words o args (shift_right 64)

unfoldable pub blshift : Checks → List LValue → Pushed
unfolding with_words shift_left
blshift o args = with_words o args (shift_left 64)

unfoldable pub band : Checks → List LValue → Pushed
unfolding with_words
band o args = with_words o args bit_and

-- The right side is a float64 that is converted.
unfoldable pub bor : Checks → List LValue → Pushed
bor o args = elim (o.check_int64 1 args) [
  | none ↦ type_error 1
  | some lhs ↦ elim (o.check_number 2 args) [
    | none ↦ type_error 2
    | some rhs ↦ pushed (bit_or lhs (o.to_uint64 rhs))
  ]
]

unfoldable pub bxor : Checks → List LValue → Pushed
unfolding with_words
bxor o args = with_words o args bit_xor

unfoldable pub bnot : Checks → List LValue → Pushed
bnot o args = elim (o.check_int64 1 args) [
  | none ↦ type_error 1
  | some a ↦ pushed (bit_xor a (2 ^ 64 - 1))
]

-- The table that names the functions of the library.
unfoldable pub bit64_funcs : List (Bytes × (Checks → List LValue → Pushed))
bit64_funcs =
    (codes "brshift", brshift)
    ∷ (codes "blshift", blshift)
    ∷ (codes "band", band)
    ∷ (codes "bnot", bnot)
    ∷ (codes "bxor", bxor)
    ∷ (codes "bor", bor)
    ∷ []
