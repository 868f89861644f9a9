-- ===== src/Auxlib/Bitwise.antt =====
-- band, btest, bor and bxor of auxlib/bit32.go, bit by bit.
use Prim.Native.Nat.{min, max, differ}
use runtimelua.Common.{
  ℕ, zero, suc, ◌+◌, ◌/◌, ◌%◌, ◌^◌, ◌<◌, ◌≡◌, refl, ap, ◌∙◌, arith, ◌⊎◌, inl, inr, not, ◌==◌,
  Option, none, some, Option-cases, List, [], ◌∷◌, map, bit_and, bit_or, bit_xor,
}
use runtimelua.Lua.{LValue, nil, bool, number, string, function, handle, table}
use runtimelua.Auxlib.Bits.{Checks, pushed, pushed_bool, type_error, uint32}
use runtimelua.Auxlib.Bits.Digits.{Splits, bit_and-Splits, bit_or-Splits, bit_xor-Splits}
use runtimelua.Auxlib.Bit32.{
  fold, fold_from, finish_test, rest_of, band, bor, bxor, btest, default64,
}

-- The bit `i` of a word.
abbrev pub bit : ℕ → ℕ → ℕ
bit a zero = a % 2
bit a (suc i) = bit (a / 2) i

-- The words of the arguments up to a nil or the end, if they are all numbers.
abbrev pub words : Checks → List LValue → Option (List ℕ)
words o [] = some []
words o (nil ∷ rest) = some []
words o (number p ∷ rest) = elim (words o rest) [
  | none ↦ none
  | some ps ↦ some (o.to_uint32 p ∷ ps)
]
words o (_ ∷ rest) = none

-- How many numbers come first.
abbrev pub numbers_before : List LValue → ℕ
numbers_before [] = 0
numbers_before (number p ∷ rest) = suc (numbers_before rest)
numbers_before (_ ∷ rest) = 0

abbrev pub fold_all : (ℕ → ℕ → ℕ) → ℕ → List ℕ → ℕ
fold_all op a [] = a
fold_all op a (p ∷ ps) = fold_all op (op a p) ps

fold_lem :
    (o : Checks) (op : ℕ → ℕ → ℕ) (next : ℕ) (args : List LValue) (a : ℕ) (ps : List ℕ)
    → words o args ≡ some ps
    → fold o op next args a ≡ pushed (fold_all op a ps)
unfolding fold
fold_lem o op next [] a ps h = ground (arith, h)
fold_lem o op next (nil ∷ rest) a ps h = ground (arith, h)
fold_lem o op next (number p ∷ rest) a ps h = elim (Option-cases (words o rest)) [
  | inl is ↦ absurd (ground (arith, h, is))
  | inr (qs, is) ↦ ground (arith, h, is, fold_lem o op (next + 1) rest (op a (o.to_uint32 p)) qs is)
]
fold_lem o op next (bool b ∷ rest) a ps h = absurd (ground (arith, h))
fold_lem o op next (string s ∷ rest) a ps h = absurd (ground (arith, h))
fold_lem o op next (function f ∷ rest) a ps h = absurd (ground (arith, h))
fold_lem o op next (handle f ∷ rest) a ps h = absurd (ground (arith, h))
fold_lem o op next (table es ∷ rest) a ps h = absurd (ground (arith, h))

module _ (op digit : ℕ → ℕ → ℕ) (step : Splits op digit)
    (small : (x y : ℕ) → x < 2 → y < 2 → digit x y < 2) where
  bit-op : (i a b : ℕ) → bit (op a b) i ≡ digit (bit a i) (bit b i)
  bit-op zero a b = omega (arith, step a b, small (a % 2) (b % 2))
  bit-op (suc i) a b = ap (λ n. bit n i) half ∙ bit-op i (a / 2) (b / 2)
    where
      half : op a b / 2 ≡ op (a / 2) (b / 2)
      half = omega (arith, step a b, small (a % 2) (b % 2))

  bit-fold_all :
      (i a : ℕ) (ps : List ℕ)
      → bit (fold_all op a ps) i ≡ fold_all digit (bit a i) (map (λ p. bit p i) ps)
  bit-fold_all i a [] = refl
  bit-fold_all i a (p ∷ ps) =
      bit-fold_all i (op a p) ps ∙ ap (λ n. fold_all digit n (map (λ p. bit p i) ps)) (bit-op i a p)

  fold_from-bits :
      (o : Checks) (start : ℕ) (args : List LValue) (a : ℕ) (ps : List ℕ)
      → o.opt_int64 1 start args ≡ some a
      → words o (rest_of args) ≡ some ps
      → (r : ℕ) × (fold_from o op start args ≡ pushed r)
        × ((i : ℕ) → bit r i ≡ fold_all digit (bit (a % 2 ^ 32) i) (map (λ p. bit p i) ps))
  unfolding fold_from uint32
  fold_from-bits o start args a ps h hs = (
    fold_all op (a % 2 ^ 32) ps,
    rw (fold_from, h) (fold_lem o op 2 (rest_of args) (a % 2 ^ 32) ps hs),
    λ i. bit-fold_all i (a % 2 ^ 32) ps,
  )

differ-small : (x y : ℕ) → x < 2 → y < 2 → differ x y < 2
differ-small zero y h h' = h'
differ-small (suc x) zero h h' = h
differ-small (suc x) (suc y) h h' = differ-small x y (omega arith) (omega arith)

fold-type_error :
    (o : Checks) (op : ℕ → ℕ → ℕ) (next : ℕ) (args : List LValue) (a : ℕ)
    → words o args ≡ none
    → fold o op next args a ≡ type_error (next + numbers_before args)
unfolding fold
fold-type_error o op next [] a h = absurd (ground (arith, h))
fold-type_error o op next (nil ∷ rest) a h = absurd (ground (arith, h))
fold-type_error o op next (number p ∷ rest) a h = elim (Option-cases (words o rest)) [
  | inl is ↦
      fold-type_error o op (next + 1) rest (op a (o.to_uint32 p)) is ∙ ap type_error (omega arith)
  | inr (qs, is) ↦ absurd (ground (arith, h, is))
]
fold-type_error o op next (bool b ∷ rest) a h = ap type_error (omega arith)
fold-type_error o op next (string s ∷ rest) a h = ap type_error (omega arith)
fold-type_error o op next (function f ∷ rest) a h = ap type_error (omega arith)
fold-type_error o op next (handle f ∷ rest) a h = ap type_error (omega arith)
fold-type_error o op next (table es ∷ rest) a h = ap type_error (omega arith)

fold_from-type_error :
    (o : Checks) (op : ℕ → ℕ → ℕ) (start : ℕ) (args : List LValue) (a : ℕ)
    → o.opt_int64 1 start args ≡ some a
    → words o (rest_of args) ≡ none
    → fold_from o op start args ≡ type_error (2 + numbers_before (rest_of args))
unfolding fold_from uint32
fold_from-type_error o op start args a h hs =
    rw (fold_from, h) (fold-type_error o op 2 (rest_of args) (a % 2 ^ 32) hs)

-- What band, bor, bxor and btest make of the bits: each bit of the number that is pushed is the
-- digit's operation on this bit of the arguments, and btest tests the number of band.
abbrev pub BitByBit : Checks → List LValue → ℕ → List ℕ → Type 0
BitByBit o args a ps =
    ((r : ℕ) × (band o args ≡ pushed r)
      × (btest o args ≡ pushed_bool (not (r == 0)))
      × ((i : ℕ) → bit r i ≡ fold_all min (bit a i) (map (λ p. bit p i) ps)))
    × ((r : ℕ) × (bor o args ≡ pushed r)
        × ((i : ℕ) → bit r i ≡ fold_all max (bit a i) (map (λ p. bit p i) ps)))
    × ((r : ℕ) × (bxor o args ≡ pushed r)
        × ((i : ℕ) → bit r i ≡ fold_all differ (bit a i) (map (λ p. bit p i) ps)))

-- band, bor, bxor and btest with a first argument that is a number: if the others up to a nil or the
-- end are numbers, they work on the words bit by bit; if one is not, all four raise an error about
-- the type of the first that is not.
pub bitwise_lem :
    (o : Checks) (args : List LValue) (a : ℕ)
    → ((start : ℕ) → o.opt_int64 1 start args ≡ some a)
    → ((ps : List ℕ) × (words o (rest_of args) ≡ some ps) × BitByBit o args (a % 2 ^ 32) ps)
      ⊎ ((words o (rest_of args) ≡ none)
          × (band o args ≡ type_error (2 + numbers_before (rest_of args)))
          × (btest o args ≡ type_error (2 + numbers_before (rest_of args)))
          × (bor o args ≡ type_error (2 + numbers_before (rest_of args)))
          × (bxor o args ≡ type_error (2 + numbers_before (rest_of args))))
unfolding band bor bxor btest finish_test
bitwise_lem o args a h = elim (Option-cases (words o (rest_of args))) [
  | inl bad ↦
      let e = fold_from-type_error o bit_and default64 args a (h default64) bad in
      inr (
        bad,
        e,
        ap finish_test e,
        fold_from-type_error o bit_or 0 args a (h 0) bad,
        fold_from-type_error o bit_xor 0 args a (h 0) bad,
      )
  | inr (ps, good) ↦
      let (r, is, bits) =
        fold_from-bits bit_and min bit_and-Splits (λ x y lt lt'. omega arith) o default64 args a ps
          (h default64) good in
      inl (
        ps,
        good,
        (
          (r, is, ap finish_test is, bits),
          fold_from-bits bit_or max bit_or-Splits (λ x y lt lt'. omega arith) o 0 args a ps (h 0)
              good,
          fold_from-bits bit_xor differ bit_xor-Splits differ-small o 0 args a ps (h 0) good,
        ),
      )
]
