-- ===== src/Auxlib/SignShift.antt =====
-- arshift of auxlib/bit32.go, as arithmetic.
use native.Mathlib.Nat.{add-mul-div_right, add_comm, mul_assoc, mod-eq_of_lt, mul_comm}
use runtimelua.Common.{
  List, some, ℕ, ◌+◌, ◌-◌, ◌*◌, ◌/◌, ◌%◌, ◌^◌, ◌≤◌, ◌<◌, ◌≡◌, ◌⊎◌, inl, inr, Bool-cases, ltb→lt,
  ltb→ge, sym, ap, ◌∙◌, arith, false, ltb, ◌==◌, bit_or,
}
use runtimelua.Lua.{LValue}
use runtimelua.Auxlib.Bits.{Checks, pushed, uint32, shift_left, shift_right, is_negative}
use runtimelua.Auxlib.Bits.Fields.{bit_or_low}
use runtimelua.Auxlib.Bits.Shifts.{two-pow-pos, pow_parts, shift_left_high, shift_right_lem}
use runtimelua.Auxlib.Rotations.{high-bound, with_count_lem}
use runtimelua.Auxlib.Bit32.{arithmetic_right, arshift}

not_negative : (n : ℕ) → n < 2 ^ 32 → is_negative n ≡ false
unfolding is_negative
not_negative n h = ground arith

sign_set : (a : ℕ) → 2 ^ 31 ≤ a → a < 2 ^ 32 → (shift_right 32 a 31 == 0) ≡ false
unfolding shift_right
sign_set a h h' = ground arith

nothing : (a k : ℕ) → 32 ≤ k → shift_right 32 a k ≡ 0
unfolding shift_right
nothing a k h = ground arith

nothing_left : (a k : ℕ) → 32 ≤ k → shift_left 32 a k ≡ 0
unfolding shift_left
nothing_left a k h = ground arith

arithmetic_right-shifts :
    (o : Checks) (a n y z : ℕ)
    → 2 ^ 31 ≤ a
    → a < 2 ^ 32
    → n < 2 ^ 32
    → shift_right 32 a n ≡ y
    → shift_left 32 (o.ones n) ((2 ^ 64 + 32 - n) % 2 ^ 64 % 2 ^ 32) ≡ z
    → arithmetic_right o a n ≡ bit_or y z
unfolding arithmetic_right uint32
arithmetic_right-shifts o a n y z sign ha hn ey ez =
    let en : n % 2 ^ 32 ≡ n = omega arith in
    let plus = not_negative n hn in let set = sign_set a sign ha in cc

-- The shifted word with its sign bit repeated.
sign_extended :
    (a n : ℕ) → n ≤ 32 → (a + (2 ^ n - 1) * 2 ^ 32) / 2 ^ n ≡ (2 ^ n - 1) * 2 ^ (32 - n) + a / 2 ^ n
sign_extended a n h =
    ap (λ m. (a + m) / 2 ^ n)
      (ap (λ m. (2 ^ n - 1) * m) (sym (pow_parts n h) ∙ mul_comm (2 ^ n) (2 ^ (32 - n)))
        ∙ sym (mul_assoc (2 ^ n - 1) (2 ^ (32 - n)) (2 ^ n)))
    ∙ add-mul-div_right a ((2 ^ n - 1) * 2 ^ (32 - n)) (two-pow-pos n)
    ∙ add_comm (a / 2 ^ n) ((2 ^ n - 1) * 2 ^ (32 - n))

module _ (o : Checks) (a n : ℕ) (sign : 2 ^ 31 ≤ a) (ha : a < 2 ^ 32) where
  within :
      n ≤ 32 → o.ones n ≡ 2 ^ n - 1 → arithmetic_right o a n ≡ (a + (2 ^ n - 1) * 2 ^ 32) / 2 ^ n
  within h ones =
      arithmetic_right-shifts o a n _ _ sign ha (omega arith) (shift_right_lem a n ha h) left
      ∙ bit_or_low (32 - n) (2 ^ n - 1) (a / 2 ^ n) (high-bound a (32 - n) n ha (omega arith))
      ∙ sym (sign_extended a n h)
    where
      small : (2 ^ n - 1) % 2 ^ n ≡ 2 ^ n - 1
      small = let pos = two-pow-pos n in mod-eq_of_lt (omega arith)

      count : (2 ^ 64 + 32 - n) % 2 ^ 64 % 2 ^ 32 ≡ 32 - n
      count = omega arith

      left :
          shift_left 32 (o.ones n) ((2 ^ 64 + 32 - n) % 2 ^ 64 % 2 ^ 32)
          ≡ (2 ^ n - 1) * 2 ^ (32 - n)
      left =
          ap (λ m. shift_left 32 m ((2 ^ 64 + 32 - n) % 2 ^ 64 % 2 ^ 32)) ones
          ∙ ap (shift_left 32 (2 ^ n - 1)) count
          ∙ shift_left_high (2 ^ n - 1) n h
          ∙ ap (λ m. m * 2 ^ (32 - n)) small

  beyond : 32 < n → n < 2 ^ 32 → arithmetic_right o a n ≡ 0
  beyond h hn =
      arithmetic_right-shifts o a n 0 0 sign ha hn (nothing a n (omega arith))
        (nothing_left (o.ones n) _ (omega arith))

-- arshift of a word whose sign bit is set, by a count from 0 on: up to 32 it pushes the word that
-- is shifted with its sign bit repeated; above, to 2 ^ 32, it pushes 0.
pub arshift_lem :
    (o : Checks) (args : List LValue) (a n : ℕ)
    → ((k : ℕ) → k ≤ 32 → o.ones k ≡ 2 ^ k - 1)
    → 2 ^ 31 ≤ a % 2 ^ 32
    → n < 2 ^ 32
    → o.check_int64 1 args ≡ some a
    → o.check_int 2 args ≡ some n
    → ((n ≤ 32) × (arshift o args ≡ pushed ((a % 2 ^ 32 + (2 ^ n - 1) * 2 ^ 32) / 2 ^ n)))
      ⊎ ((32 < n) × (arshift o args ≡ pushed 0))
unfolding arshift
arshift_lem o args a n ones sign hn h h2 =
    let is = with_count_lem o args (arithmetic_right o) a n h h2 in
    elim (Bool-cases (ltb 32 n)) [
      | inl t ↦ inr (
        ltb→lt 32 n t,
        is ∙ ap pushed (beyond o (a % 2 ^ 32) n sign (omega arith) (ltb→lt 32 n t) hn),
      )
      | inr t ↦ inl (
        ltb→ge 32 n t,
        is
            ∙ ap pushed (
                within o (a % 2 ^ 32) n sign (omega arith) (ltb→ge 32 n t)
                  (ones n (ltb→ge 32 n t))),
      )
    ]
