-- ===== src/Auxlib/Rotations.antt =====
-- lrotate, rrotate and arshift of auxlib/bit32.go, as arithmetic.
use native.Mathlib.Nat.{
  mod-lt, mod-eq_of_lt, div-add-mod', div-lt_iff_lt-mul, mul-add-div_right, div-eq_of_lt, add-zero,
  mul-add-mod_self_right, mul_comm,
}
use runtimelua.Common.{
  List, some, ℕ, ◌+◌, ◌-◌, ◌*◌, ◌/◌, ◌%◌, ◌^◌, ◌<◌, ◌≡◌, inl, inr, Bool-cases, refl, sym, ap, subst,
  ◌∙◌, arith, ◌==◌, bit_or,
}
use runtimelua.Lua.{LValue}
use runtimelua.Auxlib.Bits.{Checks, pushed, uint32, shift_left, shift_right, negated}
use runtimelua.Auxlib.Bits.Fields.{bit_or_fields}
use runtimelua.Auxlib.Bits.Shifts.{
  two-pow-pos, pow_parts, shift_left_high, shift_right_lem, mul-add-lt,
}
use runtimelua.Auxlib.Bit32.{rotate_left32, lrotate, rrotate, with_count}

-- The word `x` with its `s` high bits below the `t` others.
abbrev pub turned : ℕ → ℕ → ℕ → ℕ
turned x s t = x % 2 ^ t * 2 ^ s + x / 2 ^ t

pub high-bound : (x s t : ℕ) → x < 2 ^ 32 → s + t ≡ 32 → x / 2 ^ t < 2 ^ s
high-bound x s t hx parts =
    (div-lt_iff_lt-mul (two-pow-pos t)).1 (subst (λ n. x < n) (sym whole) hx)
  where
    ht : 32 - s ≡ t
    ht = omega arith

    whole : 2 ^ s * 2 ^ t ≡ 2 ^ 32
    whole = subst (λ n. 2 ^ s * 2 ^ n ≡ 2 ^ 32) ht (pow_parts s (omega arith))

rotate_left32-shifts :
    (x k s t y z : ℕ)
    → k % 32 ≡ s
    → 32 - s ≡ t
    → shift_left 32 x s ≡ y
    → shift_right 32 x t ≡ z
    → rotate_left32 x k ≡ bit_or y z
unfolding rotate_left32
rotate_left32-shifts x k s t y z es et ey ez = cc

-- A rotation by `k` bits.
rotate_left32_lem :
    (x k s t : ℕ) → x < 2 ^ 32 → k % 32 ≡ s → s + t ≡ 32 → rotate_left32 x k ≡ turned x s t
rotate_left32_lem x k s t hx is parts =
    rotate_left32-shifts x k s t _ _ is ht left (shift_right_lem x t hx (omega arith))
    ∙ bit_or_fields s (x % 2 ^ t) (x / 2 ^ t) (high-bound x s t hx parts)
  where
    ht : 32 - s ≡ t
    ht = omega arith

    hs : 32 - t ≡ s
    hs = omega arith

    left : shift_left 32 x s ≡ x % 2 ^ t * 2 ^ s
    left = subst (λ n. shift_left 32 x n ≡ x % 2 ^ t * 2 ^ n) hs (shift_left_high x t (omega arith))

turned-bound : (x s t : ℕ) → x < 2 ^ 32 → s + t ≡ 32 → turned x s t < 2 ^ 32
turned-bound x s t hx parts =
    subst (λ n. turned x s t < n)
      (ap (λ n. 2 ^ n * 2 ^ s) ht ∙ mul_comm (2 ^ (32 - s)) (2 ^ s) ∙ pow_parts s (omega arith))
      (mul-add-lt (x % 2 ^ t) (2 ^ t) (x / 2 ^ t) (2 ^ s) (mod-lt x (two-pow-pos t))
        (high-bound x s t hx parts))
  where
    ht : t ≡ 32 - s
    ht = omega arith

turned-turned : (x s t : ℕ) → x < 2 ^ 32 → s + t ≡ 32 → turned (turned x s t) t s ≡ x
turned-turned x s t hx parts =
    ap (λ n. n * 2 ^ t + turned x s t / 2 ^ s)
      (mul-add-mod_self_right (x % 2 ^ t) (2 ^ s) (x / 2 ^ t) ∙ mod-eq_of_lt high)
    ∙ ap (λ n. x / 2 ^ t * 2 ^ t + n)
        (mul-add-div_right (two-pow-pos s) (x % 2 ^ t) (x / 2 ^ t)
          ∙ ap (λ n. x % 2 ^ t + n) (div-eq_of_lt high)
          ∙ add-zero (x % 2 ^ t))
    ∙ div-add-mod' x (2 ^ t)
  where
    high : x / 2 ^ t < 2 ^ s
    high = high-bound x s t hx parts

-- The rotation back, by the negated count.
rotate-back :
    (x n : ℕ) → x < 2 ^ 32 → n < 2 ^ 64 → rotate_left32 (rotate_left32 x n) (negated n) ≡ x
unfolding negated
rotate-back x n hx hn = elim (Bool-cases (n % 32 == 0)) [
  | inl t ↦
      let none = rotate_left32_lem x n 0 32 hx (ground arith) refl ∙ whole in
      ap (λ y. rotate_left32 y ((2 ^ 64 - n) % 2 ^ 64)) none
      ∙ rotate_left32_lem x _ 0 32 hx (ground arith) refl
      ∙ whole
  | inr t ↦
      let s = n % 32 in
      let sum : s + (32 - s) ≡ 32 = omega arith in
      let sum' : 32 - s + s ≡ 32 = omega arith in
      ap (λ y. rotate_left32 y ((2 ^ 64 - n) % 2 ^ 64))
        (rotate_left32_lem x n s (32 - s) hx refl sum)
      ∙ rotate_left32_lem (turned x s (32 - s)) _ (32 - s) s (turned-bound x s (32 - s) hx sum)
          (ground arith) sum'
      ∙ turned-turned x s (32 - s) hx sum
]
  where
    whole : turned x 0 32 ≡ x
    whole = omega arith

pub with_count_lem :
    (o : Checks) (args : List LValue) (f : ℕ → ℕ → ℕ) (a n : ℕ)
    → o.check_int64 1 args ≡ some a
    → o.check_int 2 args ≡ some n
    → with_count o args f ≡ pushed (f (a % 2 ^ 32) n)
unfolding with_count uint32
with_count_lem o args f a n h h2 = rw (with_count, h, h2) refl

-- lrotate moves the high bits of the word, as many as the remainder of the count by 32, below the
-- others; and rrotate by the same count, on the number that lrotate pushes, gives the word back.
pub rrotate-lrotate :
    (o : Checks) (args back : List LValue) (a n : ℕ)
    → n < 2 ^ 64
    → o.check_int64 1 args ≡ some a
    → o.check_int 2 args ≡ some n
    → o.check_int64 1 back ≡ some (turned (a % 2 ^ 32) (n % 32) (32 - n % 32))
    → o.check_int 2 back ≡ some n
    → (lrotate o args ≡ pushed (turned (a % 2 ^ 32) (n % 32) (32 - n % 32)))
      × (rrotate o back ≡ pushed (a % 2 ^ 32))
unfolding lrotate rrotate
rrotate-lrotate o args back a n hn h h2 k k2 =
    let x = a % 2 ^ 32 in
    let there : rotate_left32 x n ≡ turned x (n % 32) (32 - n % 32) =
      rotate_left32_lem x n (n % 32) (32 - n % 32) (omega arith) refl (omega arith) in
    let small = turned-bound x (n % 32) (32 - n % 32) (omega arith) (omega arith) in
    let again : rotate_left32 (turned x (n % 32) (32 - n % 32) % 2 ^ 32) (negated n) ≡ x =
      ap (λ y. rotate_left32 y (negated n)) (mod-eq_of_lt small ∙ sym there)
      ∙ rotate-back x n (omega arith) hn in
    (
      with_count_lem o args rotate_left32 a n h h2 ∙ ap pushed there,
      with_count_lem o back (λ x m. rotate_left32 x (negated m)) _ n k k2 ∙ ap pushed again,
    )
