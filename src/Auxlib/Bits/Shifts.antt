-- ===== src/Auxlib/Bits/Shifts.antt =====
-- Shifts of words, as arithmetic with powers of two.
use native.Mathlib.Nat.{
  mul-div_cancel, lt_of_lt_of_le, add-zero, add-suc, mul-one, mul-add-mod_self_right, mod-eq_of_lt,
  div-add-mod', add-mul, div-eq_of_lt, mod-one, one-le-pow, pow-suc, mod-lt, mul_assoc,
  pow-le-pow_right,
}
use runtimelua.Common.{
  ℕ, zero, suc, ◌+◌, ◌-◌, ◌*◌, ◌/◌, ◌%◌, ◌^◌, ◌≤◌, ◌<◌, ◌≡◌, inl, inr, Bool-cases, lt→ltb, ltb→ge,
  refl, sym, ap, subst, ◌∙◌, arith, ltb,
}
use runtimelua.Auxlib.Bits.{shift_left, shift_right}

pub two-pow-le : (i j : ℕ) → i ≤ j → 2 ^ i ≤ 2 ^ j
two-pow-le i j h = pow-le-pow_right (omega arith) h

pub two-pow-pos : (k : ℕ) → 0 < 2 ^ k
two-pow-pos k = one-le-pow k 2 (omega arith)

pub mul-lt : (x p q : ℕ) → x < p → 0 < q → x * q < p * q
mul-lt x p q h hq = grind arith

pub pow_add : (n k : ℕ) → 2 ^ (n + k) ≡ 2 ^ n * 2 ^ k
pow_add n zero = ap (λ m. 2 ^ m) (add-zero n) ∙ sym (mul-one (2 ^ n))
pow_add n (suc k) =
    ap (λ m. 2 ^ m) (add-suc n k)
    ∙ pow-suc 2 (n + k)
    ∙ ap (λ m. m * 2) (pow_add n k)
    ∙ mul_assoc (2 ^ n) (2 ^ k) 2
    ∙ ap (λ m. 2 ^ n * m) (sym (pow-suc 2 k))

-- The two parts of 2 ^ 32 at `k`.
pub pow_parts : (k : ℕ) → k ≤ 32 → 2 ^ k * 2 ^ (32 - k) ≡ 2 ^ 32
pow_parts k h = sym (pow_add k (32 - k)) ∙ ap (λ n. 2 ^ n) whole
  where
    whole : k + (32 - k) ≡ 32
    whole = omega arith

pub mul-mod-mul : (v p q : ℕ) → 0 < p → 0 < q → v * q % (p * q) ≡ v % p * q
mul-mod-mul v p q hp hq =
    ap (λ n. n % (p * q)) parts
    ∙ mul-add-mod_self_right (v / p) (p * q) (v % p * q)
    ∙ mod-eq_of_lt small
  where
    parts : v * q ≡ v / p * (p * q) + v % p * q
    parts =
        ap (λ n. n * q) (sym (div-add-mod' v p))
        ∙ add-mul (v / p * p) (v % p) q
        ∙ ap (λ n. n + v % p * q) (mul_assoc (v / p) p q)

    small : v % p * q < p * q
    small = mul-lt (v % p) p q (mod-lt v hp) hq

pub shift_right_lem : (a k : ℕ) → a < 2 ^ 32 → k ≤ 32 → shift_right 32 a k ≡ a / 2 ^ k
unfolding shift_right
shift_right_lem a k ha h = elim (Bool-cases (ltb k 32)) [
  | inl t ↦ rw t refl
  | inr t ↦ rw t (sym (div-eq_of_lt (lt_of_lt_of_le ha (two-pow-le 32 k (ltb→ge k 32 t)))))
]

-- `v << (32 - k)` drops the bits of `v` from `k` on.
pub shift_left_high : (v k : ℕ) → k ≤ 32 → shift_left 32 v (32 - k) ≡ v % 2 ^ k * 2 ^ (32 - k)
unfolding shift_left
shift_left_high v zero h = rw mod-one refl
shift_left_high v (suc k) h = rw (lt→ltb (32 - suc k) 32 (omega arith)) (
    ap (λ n. v * 2 ^ (32 - suc k) % n) (sym (pow_parts (suc k) h))
    ∙ mul-mod-mul v (2 ^ suc k) (2 ^ (32 - suc k)) (two-pow-pos (suc k)) (two-pow-pos (32 - suc k)))

pub fits : (n : ℕ) → n ≤ 32 → n < 2 ^ 32
fits n h = omega arith

-- A field of `width` bits at `offset`.
pub shift_field :
    (f offset width : ℕ)
    → f < 2 ^ width
    → offset + width ≤ 32
    → 0 < width
    → shift_left 32 f offset ≡ f * 2 ^ offset
unfolding shift_left
shift_field f offset width small h some_width =
    rw (lt→ltb offset 32 (omega arith)) (mod-eq_of_lt (lt_of_lt_of_le less whole))
  where
    less : f * 2 ^ offset < 2 ^ width * 2 ^ offset
    less = mul-lt f (2 ^ width) (2 ^ offset) small (two-pow-pos offset)

    whole : 2 ^ width * 2 ^ offset ≤ 2 ^ 32
    whole =
        subst (λ (n : ℕ). n ≤ 2 ^ 32) (pow_add width offset)
          (two-pow-le (width + offset) 32 (omega arith))

-- The low `width` bits of `v`.
pub low_bits :
    (v width : ℕ)
    → width ≤ 32
    → shift_right 32 (shift_left 32 v (32 - width)) (32 - width) ≡ v % 2 ^ width
low_bits v width h =
    ap (λ n. shift_right 32 n (32 - width)) (shift_left_high v width h)
    ∙ shift_right_lem (v % 2 ^ width * 2 ^ (32 - width)) (32 - width) small (omega arith)
    ∙ mul-div_cancel (v % 2 ^ width) (two-pow-pos (32 - width))
  where
    small : v % 2 ^ width * 2 ^ (32 - width) < 2 ^ 32
    small =
        subst (λ n. v % 2 ^ width * 2 ^ (32 - width) < n) (pow_parts width h)
          (mul-lt (v % 2 ^ width) (2 ^ width) (2 ^ (32 - width)) (mod-lt v (two-pow-pos width))
            (two-pow-pos (32 - width)))

pub mul-add-lt : (x m r p : ℕ) → x < m → r < p → x * p + r < m * p
mul-add-lt x m r p h h' = grind arith
