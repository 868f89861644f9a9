-- ===== src/Auxlib/Bitfields.antt =====
-- extract and replace of auxlib/bit32.go, as arithmetic on the three fields of a word.
use native.Mathlib.Nat.{
  mul-add-div_right, add-zero, mul-add-mod_self_right, mod-eq_of_lt, div-add-mod', div-eq_of_lt,
  mod-lt, mod-mod, mul_comm, mul_assoc, div-lt_iff_lt-mul,
}
use runtimelua.Common.{
  List, some, ℕ, ◌+◌, ◌-◌, ◌*◌, ◌/◌, ◌%◌, ◌^◌, ◌≤◌, ◌<◌, ◌≡◌, inl, inr, Bool-cases, ltb→lt, ltb→ge,
  refl, sym, ap, subst, ◌∙◌, arith, false, ltb, bit_or, bit_xor,
}
use runtimelua.Lua.{LValue}
use runtimelua.Auxlib.Bits.{Checks, pushed, uint32, shift_left, shift_right, is_negative}
use runtimelua.Auxlib.Bits.Fields.{
  bit_and_mask, bit_or_fields, bit_or_above, bit_xor_fields, bit_xor_above,
}
use runtimelua.Auxlib.Bits.Shifts.{
  two-pow-le, two-pow-pos, pow_add, pow_parts, shift_right_lem, fits, shift_field, low_bits,
  mul-add-lt,
}
use runtimelua.Auxlib.Bit32.{no_field, mask, extracted, replaced, extract, replace}

mask_lem : (width : ℕ) → width ≤ 32 → mask width ≡ 2 ^ width - 1
unfolding mask uint32 shift_left
mask_lem width h = elim (Bool-cases (ltb width 32)) [
  | inl t ↦
      let small = two-pow-le width 31 (omega (arith, ltb→lt width 32 t)) in
      let big = two-pow-pos width in rw (mod-eq_of_lt (fits width h), t) (omega arith)
  | inr t ↦
      let is : width ≡ 32 = omega (arith, ltb→ge width 32 t) in
      subst (λ (n : ℕ). mask n ≡ 2 ^ n - 1) (sym is) refl
]

extracted_lem :
    (a offset width : ℕ)
    → a < 2 ^ 32
    → offset + width ≤ 32
    → extracted a offset width ≡ a / 2 ^ offset % 2 ^ width
unfolding extracted uint32
extracted_lem a offset width ha h =
    rw
      (
        mod-eq_of_lt (fits offset (omega arith)),
        mask_lem width (omega arith),
        shift_right_lem a offset ha (omega arith),
      )
      (bit_and_mask width (a / 2 ^ offset))

fields_replaced :
    (a g offset width : ℕ)
    → g < 2 ^ width
    → bit_or (bit_xor a (a / 2 ^ offset % 2 ^ width * 2 ^ offset)) (g * 2 ^ offset)
      ≡ (a / 2 ^ offset / 2 ^ width * 2 ^ width + g) * 2 ^ offset + a % 2 ^ offset
fields_replaced a g offset width small =
    ap (λ n. bit_or (bit_xor n (f * 2 ^ offset)) (g * 2 ^ offset)) parts
    ∙ ap (λ n. bit_or n (g * 2 ^ offset))
        (bit_xor_above offset (h * 2 ^ width + f) f r below
          ∙ ap (λ n. n * 2 ^ offset + r)
              (bit_xor_fields width h f (mod-lt (a / 2 ^ offset) (two-pow-pos width))))
    ∙ bit_or_above offset (h * 2 ^ width) g r below
    ∙ ap (λ n. n * 2 ^ offset + r) (bit_or_fields width h g small)
  where
    h : ℕ
    h = a / 2 ^ offset / 2 ^ width

    f : ℕ
    f = a / 2 ^ offset % 2 ^ width

    r : ℕ
    r = a % 2 ^ offset

    below : r < 2 ^ offset
    below = mod-lt a (two-pow-pos offset)

    parts : a ≡ (h * 2 ^ width + f) * 2 ^ offset + r
    parts = sym (
        ap (λ n. n * 2 ^ offset + r) (div-add-mod' (a / 2 ^ offset) (2 ^ width))
        ∙ div-add-mod' a (2 ^ offset))

replaced-shifts :
    (a v offset width x g y z : ℕ)
    → offset + width ≤ 32
    → extracted a offset width ≡ x
    → shift_right 32 (shift_left 32 v (32 - width)) (32 - width) ≡ g
    → shift_left 32 x offset ≡ y
    → shift_left 32 g offset ≡ z
    → replaced a v offset width ≡ bit_or (bit_xor a y) z
unfolding replaced uint32
replaced-shifts a v offset width x g y z h ex eg ey ez =
    let eo = mod-eq_of_lt (fits offset (omega arith)) in
    let es = mod-eq_of_lt (fits (32 - width) (omega arith)) in cc

-- What `replace` pushes is the word `a` with the `width` bits at `offset` replaced by the lowest
-- ones of `v`: the bits above and below are those of `a`.
pub replaced_lem :
    (a v offset width : ℕ)
    → a < 2 ^ 32
    → 0 < width
    → offset + width ≤ 32
    → replaced a v offset width
      ≡ (a / 2 ^ offset / 2 ^ width * 2 ^ width + v % 2 ^ width) * 2 ^ offset + a % 2 ^ offset
replaced_lem a v offset width ha some_width h =
    let small = mod-lt v (two-pow-pos width) in
    replaced-shifts a v offset width _ _ _ _ h (extracted_lem a offset width ha h)
      (low_bits v width (omega arith))
      (shift_field (a / 2 ^ offset % 2 ^ width) offset width
        (mod-lt (a / 2 ^ offset) (two-pow-pos width)) h some_width)
      (shift_field (v % 2 ^ width) offset width small h some_width)
    ∙ fields_replaced a (v % 2 ^ width) offset width small

-- The word `a` with `v` in the field.
abbrev pub put_field : ℕ → ℕ → ℕ → ℕ → ℕ
put_field a v offset width =
    (a / 2 ^ offset / 2 ^ width * 2 ^ width + v % 2 ^ width) * 2 ^ offset + a % 2 ^ offset

put_field-bound :
    (a v offset width : ℕ) → a < 2 ^ 32 → offset + width ≤ 32 → put_field a v offset width < 2 ^ 32
put_field-bound a v offset width ha h =
    subst (λ n. put_field a v offset width < n) whole
      (mul-add-lt _ (rest * 2 ^ width) (a % 2 ^ offset) (2 ^ offset)
        (mul-add-lt (a / 2 ^ offset / 2 ^ width) rest (v % 2 ^ width) (2 ^ width) high
          (mod-lt v (two-pow-pos width)))
        (mod-lt a (two-pow-pos offset)))
  where
    rest : ℕ
    rest = 2 ^ (32 - (offset + width))

    whole : rest * 2 ^ width * 2 ^ offset ≡ 2 ^ 32
    whole =
        mul_assoc rest (2 ^ width) (2 ^ offset)
        ∙ ap (λ n. rest * n) (mul_comm (2 ^ width) (2 ^ offset) ∙ sym (pow_add offset width))
        ∙ mul_comm rest (2 ^ (offset + width))
        ∙ pow_parts (offset + width) h

    high : a / 2 ^ offset / 2 ^ width < rest
    high =
        (div-lt_iff_lt-mul (two-pow-pos width)).1
          ((div-lt_iff_lt-mul (two-pow-pos offset)).1 (subst (λ n. a < n) (sym whole) ha))

no_field-fits : (offset width : ℕ) → 0 < width → offset + width ≤ 32 → no_field offset width ≡ false
unfolding no_field is_negative
no_field-fits offset width some_width h = ground arith

get-put :
    (a v offset width : ℕ) → put_field a v offset width / 2 ^ offset % 2 ^ width ≡ v % 2 ^ width
get-put a v offset width =
    ap (λ n. n % 2 ^ width)
      (mul-add-div_right (two-pow-pos offset) above (a % 2 ^ offset)
        ∙ ap (λ n. above + n) (div-eq_of_lt (mod-lt a (two-pow-pos offset)))
        ∙ add-zero above)
    ∙ mul-add-mod_self_right (a / 2 ^ offset / 2 ^ width) (2 ^ width) (v % 2 ^ width)
    ∙ mod-mod v (2 ^ width)
  where
    above : ℕ
    above = a / 2 ^ offset / 2 ^ width * 2 ^ width + v % 2 ^ width

module _ (o : Checks) (args : List LValue) (a v offset width : ℕ) (some_width : 0 < width)
    (inside : offset + width ≤ 32) where
  replace_lem :
      o.check_int64 1 args ≡ some a
      → o.check_int64 2 args ≡ some v
      → o.check_int 3 args ≡ some offset
      → o.opt_int 4 1 args ≡ some width
      → replace o args ≡ pushed (put_field (a % 2 ^ 32) (v % 2 ^ 32) offset width)
  unfolding replace uint32
  replace_lem h h' h2 h3 =
      rw (replace, h, h', h2, h3, no_field-fits offset width some_width inside)
        (ap pushed
          (replaced_lem (a % 2 ^ 32) (v % 2 ^ 32) offset width (omega arith) some_width inside))

  extract_lem :
      o.check_int64 1 args ≡ some a
      → o.check_int 2 args ≡ some offset
      → o.opt_int 3 1 args ≡ some width
      → extract o args ≡ pushed (a % 2 ^ 32 / 2 ^ offset % 2 ^ width)
  unfolding extract uint32
  extract_lem h h2 h3 =
      rw (extract, h, h2, h3, no_field-fits offset width some_width inside)
        (ap pushed (extracted_lem (a % 2 ^ 32) offset width (omega arith) inside))

-- replace puts the lowest `width` bits of its second argument at `offset` into the word of its first
-- one, and changes no other bit; and extract at the same place, on the number that replace pushes,
-- gives these bits. The field has a bit or more and lies within the 32 bits of the word.
pub extract-replace :
    (o : Checks) (args back : List LValue) (a v offset width : ℕ)
    → 0 < width
    → offset + width ≤ 32
    → o.check_int64 1 args ≡ some a
    → o.check_int64 2 args ≡ some v
    → o.check_int 3 args ≡ some offset
    → o.opt_int 4 1 args ≡ some width
    → o.check_int64 1 back ≡ some (put_field (a % 2 ^ 32) (v % 2 ^ 32) offset width)
    → o.check_int 2 back ≡ some offset
    → o.opt_int 3 1 back ≡ some width
    → (replace o args ≡ pushed (put_field (a % 2 ^ 32) (v % 2 ^ 32) offset width))
      × (extract o back ≡ pushed (v % 2 ^ 32 % 2 ^ width))
extract-replace o args back a v offset width some_width inside h h' h2 h3 k k2 k3 =
    let r = put_field (a % 2 ^ 32) (v % 2 ^ 32) offset width in
    let small : r < 2 ^ 32 =
      put_field-bound (a % 2 ^ 32) (v % 2 ^ 32) offset width (omega arith) inside in
    (
      replace_lem o args a v offset width some_width inside h h' h2 h3,
      extract_lem o back r v offset width some_width inside k k2 k3
          ∙ ap (λ n. pushed (n / 2 ^ offset % 2 ^ width)) (mod-eq_of_lt small)
          ∙ ap pushed (get-put (a % 2 ^ 32) (v % 2 ^ 32) offset width),
    )
