-- ===== src/Tests/Bits.antt =====
-- Runs of the functions on bits, and the theorems about them at concrete arguments.
use runtimelua.Common.{
  ℕ, zero, suc, ◌+◌, ◌*◌, ◌/◌, ◌-◌, ◌^◌, ◌≤◌, ◌<◌, ◌≡◌, refl, arith, Option, none, some, List, [],
  ◌∷◌, ◌⊎◌,
}
use runtimelua.Lua.{LValue, nil, number, string}
use runtimelua.Auxlib.Bits.{Checks, pushed, type_error}
use runtimelua.Auxlib.Bit32
use runtimelua.Auxlib.Bit32.{arshift, bit32_funcs}
use runtimelua.Auxlib.Bit64
use runtimelua.Auxlib.Bitfields
use runtimelua.Auxlib.Rotations
use runtimelua.Auxlib.SignShift

abbrev nth : ℕ → List LValue → Option ℕ
nth (suc zero) (number p ∷ rest) = some p
nth (suc (suc i)) (_ ∷ rest) = nth (suc i) rest
nth _ _ = none

-- Checks that take a pattern for the integer itself.
abbrev checks : Checks
checks = record {
  check_int64 = nth;
  check_int = nth;
  check_number = nth;
  opt_int64 = λ i start args. elim (nth i args) [ none ↦ some start | some a ↦ some a ];
  opt_int = λ i start args. elim (nth i args) [ none ↦ some start | some a ↦ some a ];
  to_uint32 = λ p. p;
  to_uint64 = λ p. p;
  ones = λ n. 2 ^ n - 1;
}

abbrev word : ℕ
word = 0xabcd1234

abbrev field_args : List LValue
field_args = number word ∷ number 0x75 ∷ number 8 ∷ number 4 ∷ []

abbrev back_args : List LValue
back_args = number 0xabcd1534 ∷ number 8 ∷ number 4 ∷ []

extract-replace_example :
    (Bit32.replace checks field_args ≡ pushed 0xabcd1534)
    × (Bit32.extract checks back_args ≡ pushed 5)
extract-replace_example =
    Bitfields.extract-replace checks field_args back_args word 0x75 8 4 (omega arith) (omega arith)
      refl refl refl refl refl refl refl

rrotate-lrotate_example :
    (Bit32.lrotate checks (number word ∷ number 40 ∷ []) ≡ pushed 0xcd1234ab)
    × (Bit32.rrotate checks (number 0xcd1234ab ∷ number 40 ∷ []) ≡ pushed word)
rrotate-lrotate_example =
    Rotations.rrotate-lrotate checks (number word ∷ number 40 ∷ [])
      (number 0xcd1234ab ∷ number 40 ∷ []) word 40 (omega arith) refl refl refl refl

arshift_lem_example :
    ((40 ≤ 32)
      × (Bit32.arshift checks (number word ∷ number 40 ∷ [])
          ≡ pushed ((word + (2 ^ 40 - 1) * 2 ^ 32) / 2 ^ 40)))
    ⊎ ((32 < 40) × (Bit32.arshift checks (number word ∷ number 40 ∷ []) ≡ pushed 0))
arshift_lem_example =
    SignShift.arshift_lem checks (number word ∷ number 40 ∷ []) word 40 (λ k h. refl) (omega arith)
      (omega arith) refl refl

abbrev three_words : List LValue
three_words = number 12 ∷ number 10 ∷ number 9 ∷ nil ∷ number 1 ∷ []

band_run : Bit32.band checks three_words ≡ pushed 8
unfolding Bit32.band Bit32.fold_from Bit32.fold
band_run = refl

bor_fails : Bit32.bor checks (number 12 ∷ number 10 ∷ string [] ∷ []) ≡ type_error 3
unfolding Bit32.bor Bit32.fold_from Bit32.fold
bor_fails = refl

arshift_back : Bit32.arshift checks (number 0x80000000 ∷ number 31 ∷ []) ≡ pushed 0xffffffff
unfolding Bit32.arshift Bit32.with_count Bit32.arithmetic_right
arshift_back = refl

blshift_drops : Bit64.blshift checks (number (2 ^ 63 + 1) ∷ number 1 ∷ []) ≡ pushed 2
unfolding Bit64.blshift Bit64.with_words
blshift_drops = refl
