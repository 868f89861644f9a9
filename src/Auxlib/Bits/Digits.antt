-- ===== src/Auxlib/Bits/Digits.antt =====
-- The native operations on bits, whose recursion counts digits, as equations for the lowest digit.
use Prim.Native.Nat.{
  min, max, differ, digits, bitwise, bit_and, bit_or, bit_xor, bit_and-bitwise, bit_or-bitwise,
  bit_xor-bitwise,
}
use native.Mathlib.Nat.{zero-add, suc-add}
use runtimelua.Common.{ℕ, zero, suc, ◌+◌, ◌-◌, ◌*◌, ◌/◌, ◌%◌, ◌≤◌, ◌≡◌, refl, sym, ap, ◌∙◌, arith}

-- What the lowest digits and the others make of two numbers.
abbrev pub Splits : (ℕ → ℕ → ℕ) → (ℕ → ℕ → ℕ) → Type 0
Splits op digit = (a b : ℕ) → op a b ≡ digit (a % 2) (b % 2) + 2 * op (a / 2) (b / 2)

module _ (rest : ℕ → ℕ) (digit : ℕ → ℕ → ℕ) where
  one_more : (n a b : ℕ) → a ≤ n → digits rest digit (suc n) a b ≡ digits rest digit n a b
  one_more zero zero b h = refl
  one_more zero (suc a) b h = absurd (omega arith)
  one_more (suc n) zero b h = refl
  one_more (suc n) (suc a) b h =
      ap (λ high. high * 2 + digit (suc a % 2) (b % 2))
        (one_more n (suc a / 2) (b / 2) (omega arith))

  spare : (d a b : ℕ) → digits rest digit (d + a) a b ≡ digits rest digit a a b
  spare zero a b = ap (λ n. digits rest digit n a b) (zero-add a)
  spare (suc d) a b =
      ap (λ n. digits rest digit n a b) (suc-add d a)
      ∙ one_more (d + a) a b (omega arith)
      ∙ spare d a b

  lowest :
      (a b : ℕ)
      → bitwise rest digit (suc a) b
        ≡ digit (suc a % 2) (b % 2) + 2 * bitwise rest digit (suc a / 2) (b / 2)
  lowest a b =
      let half = suc a / 2 in
      let count : a - half + half ≡ a = omega arith in
      let same =
        sym (ap (λ n. digits rest digit n half (b / 2)) count) ∙ spare (a - half) half (b / 2) in
      omega (arith, same)

pub bit_and-Splits : Splits bit_and min
bit_and-Splits zero b = simp bit_and-bitwise (omega arith)
bit_and-Splits (suc a) b = simp bit_and-bitwise (lowest (λ y. 0) min a b)

pub bit_or-Splits : Splits bit_or max
bit_or-Splits zero b = simp bit_or-bitwise (omega arith)
bit_or-Splits (suc a) b = simp bit_or-bitwise (lowest (λ y. y) max a b)

pub bit_xor-Splits : Splits bit_xor differ
bit_xor-Splits zero b = simp bit_xor-bitwise (omega arith)
bit_xor-Splits (suc a) b = simp bit_xor-bitwise (lowest (λ y. y) differ a b)
