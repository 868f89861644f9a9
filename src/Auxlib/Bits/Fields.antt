-- ===== src/Auxlib/Bits/Fields.antt =====
-- The operations on bits as arithmetic, where their operands are fields of a word.
use native.Mathlib.Nat.{mul-add, two-pow-succ, one-le-pow, div-add-mod', mod-lt}
use Prim.Native.Nat.{bit_and, bit_or, bit_xor, differ, max, min}
use runtimelua.Common.{
  ℕ, zero, suc, ◌+◌, ◌-◌, ◌*◌, ◌/◌, ◌%◌, ◌^◌, ◌≤◌, ◌<◌, ◌≡◌, refl, sym, ap, ◌∙◌, arith,
}
use runtimelua.Auxlib.Bits.Digits.{Splits, bit_and-Splits, bit_or-Splits, bit_xor-Splits}

by_halves : (P : ℕ → Type 0) → P 0 → ((n : ℕ) → P (suc n / 2) → P (suc n)) → (n : ℕ) → P n
by_halves P base step n = below n n (omega arith)
  where
    below : (fuel a : ℕ) → a ≤ fuel → P a
    below fuel zero h = base
    below zero (suc a) h = absurd (omega arith)
    below (suc fuel) (suc a) h = step a (below fuel (suc a / 2) (omega arith))

shifted_twice : (n high : ℕ) → high * 2 ^ n + high * 2 ^ n ≡ high * 2 ^ suc n
shifted_twice n high =
    sym (mul-add high (2 ^ n) (2 ^ n)) ∙ ap (λ m. high * m) (sym (two-pow-succ n))

-- The operations at 0 and on equal numbers.
module _ (op digit : ℕ → ℕ → ℕ) (splits : Splits op digit) (base : op 0 0 ≡ 0) where
  op-zero : ((x : ℕ) → x < 2 → digit x 0 ≡ x) → (a : ℕ) → op a 0 ≡ a
  op-zero h =
      by_halves _ base (λ n ih. omega (arith, splits (suc n) 0, ih, h (suc n % 2) (omega arith)))

  zero-op : ((x : ℕ) → x < 2 → digit 0 x ≡ x) → (a : ℕ) → op 0 a ≡ a
  zero-op h =
      by_halves _ base (λ n ih. omega (arith, splits 0 (suc n), ih, h (suc n % 2) (omega arith)))

  op-zero_zero : ((x : ℕ) → x < 2 → digit x 0 ≡ 0) → (a : ℕ) → op a 0 ≡ 0
  op-zero_zero h =
      by_halves _ base (λ n ih. omega (arith, splits (suc n) 0, ih, h (suc n % 2) (omega arith)))

  op_self : ((x : ℕ) → x < 2 → digit x x ≡ 0) → (a : ℕ) → op a a ≡ 0
  op_self h =
      by_halves _ base
        (λ n ih. omega (arith, splits (suc n) (suc n), ih, h (suc n % 2) (omega arith)))

  -- The bits above the `k` low ones, and these, are worked on apart.
  op-fields :
      (k x y r s a b : ℕ)
      → a ≡ x * 2 ^ k + r
      → b ≡ y * 2 ^ k + s
      → r < 2 ^ k
      → s < 2 ^ k
      → op a b ≡ op x y * 2 ^ k + op r s
  op-fields zero x y r s a b ea eb hr hs =
      let ax : a ≡ x = omega arith in
      let by : b ≡ y = omega arith in
      let rz : r ≡ 0 = omega arith in
      let sz : s ≡ 0 = omega arith in
      omega (arith, ap (λ n. op n b) ax, ap (op x) by, ap (λ n. op n s) rz, ap (op 0) sz, base)
  op-fields (suc k) x y r s a b ea eb hr hs =
      let px = shifted_twice k x in
      let py = shifted_twice k y in
      let digit_a : a % 2 ≡ r % 2 = omega arith in
      let digit_b : b % 2 ≡ s % 2 = omega arith in
      omega (
        arith,
        splits a b,
        splits r s,
        ap (λ n. digit n (b % 2)) digit_a,
        ap (digit (r % 2)) digit_b,
        shifted_twice k (op x y),
        op-fields k x y (r / 2) (s / 2) (a / 2) (b / 2) (omega arith) (omega arith) (omega arith)
            (omega arith),
      )

differ-zero : (a : ℕ) → differ a 0 ≡ a
differ-zero zero = refl
differ-zero (suc a) = refl

differ_self : (a : ℕ) → differ a a ≡ 0
differ_self zero = refl
differ_self (suc a) = differ_self a

bit_or-zero : (a : ℕ) → bit_or a 0 ≡ a
bit_or-zero = op-zero bit_or max bit_or-Splits refl (λ x h. omega arith)

zero-bit_or : (a : ℕ) → bit_or 0 a ≡ a
zero-bit_or = zero-op bit_or max bit_or-Splits refl (λ x h. omega arith)

pub bit_or_fields : (k q r : ℕ) → r < 2 ^ k → bit_or (q * 2 ^ k) r ≡ q * 2 ^ k + r
bit_or_fields k q r small = omega (
  arith,
  op-fields bit_or max bit_or-Splits refl k q 0 0 r (q * 2 ^ k) r (omega arith) (omega arith)
      (omega arith) small,
  ap (λ n. n * 2 ^ k) (bit_or-zero q),
  zero-bit_or r,
)

pub bit_or_low : (k q r : ℕ) → r < 2 ^ k → bit_or r (q * 2 ^ k) ≡ q * 2 ^ k + r
bit_or_low k q r small = omega (
  arith,
  op-fields bit_or max bit_or-Splits refl k 0 q r 0 r (q * 2 ^ k) (omega arith) (omega arith) small
      (omega arith),
  bit_or-zero r,
  ap (λ n. n * 2 ^ k) (zero-bit_or q),
)

pub bit_or_above :
    (k x y r : ℕ) → r < 2 ^ k → bit_or (x * 2 ^ k + r) (y * 2 ^ k) ≡ bit_or x y * 2 ^ k + r
bit_or_above k x y r small = omega (
  arith,
  op-fields bit_or max bit_or-Splits refl k x y r 0 (x * 2 ^ k + r) (y * 2 ^ k) (omega arith)
      (omega arith) small (omega arith),
  bit_or-zero r,
)

bit_xor-zero : (a : ℕ) → bit_xor a 0 ≡ a
bit_xor-zero = op-zero bit_xor differ bit_xor-Splits refl (λ x h. differ-zero x)

pub bit_xor_fields : (k q r : ℕ) → r < 2 ^ k → bit_xor (q * 2 ^ k + r) r ≡ q * 2 ^ k
bit_xor_fields k q r small = omega (
  arith,
  op-fields bit_xor differ bit_xor-Splits refl k q 0 r r (q * 2 ^ k + r) r (omega arith)
      (omega arith) small small,
  ap (λ n. n * 2 ^ k) (bit_xor-zero q),
  op_self bit_xor differ bit_xor-Splits refl (λ x h. differ_self x) r,
)

pub bit_xor_above :
    (k x y r : ℕ) → r < 2 ^ k → bit_xor (x * 2 ^ k + r) (y * 2 ^ k) ≡ bit_xor x y * 2 ^ k + r
bit_xor_above k x y r small = omega (
  arith,
  op-fields bit_xor differ bit_xor-Splits refl k x y r 0 (x * 2 ^ k + r) (y * 2 ^ k) (omega arith)
      (omega arith) small (omega arith),
  bit_xor-zero r,
)

and-ones : (k r : ℕ) → r < 2 ^ k → bit_and r (2 ^ k - 1) ≡ r
and-ones zero r small = let is : r ≡ 0 = omega arith in omega (arith, ap (λ n. bit_and n 0) is)
and-ones (suc k) r small =
    let two = shifted_twice k 1 in
    let pos = one-le-pow k 2 (omega arith) in
    let half : (2 ^ suc k - 1) / 2 ≡ 2 ^ k - 1 = omega arith in
    let odd : (2 ^ suc k - 1) % 2 ≡ 1 = omega arith in
    omega (
      arith,
      bit_and-Splits r (2 ^ suc k - 1),
      ap (min (r % 2)) odd,
      ap (bit_and (r / 2)) half,
      and-ones k (r / 2) (omega arith),
    )

-- A mask of `k` low bits is the remainder by `2 ^ k`.
pub bit_and_mask : (k a : ℕ) → bit_and a (2 ^ k - 1) ≡ a % 2 ^ k
bit_and_mask k a =
    let pos = one-le-pow k 2 (omega arith) in
    let low = mod-lt a pos in
    omega (
      arith,
      op-fields bit_and min bit_and-Splits refl k (a / 2 ^ k) 0 (a % 2 ^ k) (2 ^ k - 1) a
          (2 ^ k - 1) (sym (div-add-mod' a (2 ^ k))) (omega arith) low (omega arith),
      ap (λ n. n * 2 ^ k)
          (op-zero_zero bit_and min bit_and-Splits refl (λ x h. omega arith) (a / 2 ^ k)),
      and-ones k (a % 2 ^ k) low,
    )
