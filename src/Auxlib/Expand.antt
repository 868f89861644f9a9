-- ===== src/Auxlib/Expand.antt =====
-- The scanner loop of `strftime` against a recursion on the text.
use runtimelua.Common.{
  ℕ, zero, suc, ◌-◌, ◌≤◌, ◌≡◌, refl, ap, sym, ◌∙◌, true, false, some, [], ◌∷◌, ◌++◌, arith, Bytes,
  ◌==◌, length, Bool-cases, inl, inr,
}
use runtimelua.Auxlib.Strftime.{FlagScanner, new_flag_scanner, next, verb, body, loop, strftime}
use mathlib.Core.List.{append_assoc, append-nil}
use runtimelua.Auxlib.Scanner.{
  At, At-buf, At-doubled, At-moved, doubled, flagged, loop_by, loop_end, loop_same, moved,
  next-doubled, next_end, next_flag, next_fuel, next_last, next_plain, pushed, replaced,
}

-- A text with its flags replaced: `%%` is a percent sign, `%c` is what stands for `c`, and a percent
-- sign at the end stays.
pub expand : (Bytes → Bytes) → ℕ → Bytes → Bytes
expand format weekday [] = []
expand format weekday (c ∷ []) = c ∷ []
expand format weekday (c ∷ d ∷ r) = elim (c == b'%') [
  | false ↦ c ∷ expand format weekday (d ∷ r)
  | true ↦ elim (d == b'%') [
    | true ↦ b'%' ∷ expand format weekday r
    | false ↦ verb format weekday d ++ expand format weekday r
  ]
]

module _ (format : Bytes → Bytes) (weekday c d : ℕ) (r : Bytes) where
  expand_plain :
      (c == b'%') ≡ false → expand format weekday (c ∷ d ∷ r) ≡ c ∷ expand format weekday (d ∷ r)
  unfolding expand
  expand_plain p = ground (arith, p)

  expand_doubled :
      (c == b'%') ≡ true
      → (d == b'%') ≡ true
      → expand format weekday (c ∷ d ∷ r) ≡ b'%' ∷ expand format weekday r
  unfolding expand
  expand_doubled p q = ground (arith, p, q)

  expand_flag :
      (c == b'%') ≡ true
      → (d == b'%') ≡ false
      → expand format weekday (c ∷ d ∷ r) ≡ verb format weekday d ++ expand format weekday r
  unfolding expand
  expand_flag p q = ground (arith, p, q)

module _ (format : Bytes → Bytes) (weekday m : ℕ) where
  copies :
      (fuel : ℕ) (fs : FlagScanner) (c : ℕ)
      → fs.has_flag ≡ false
      → next (suc m) fs ≡ some (moved fs, c, false)
      → loop format weekday (suc m) (suc fuel) fs ≡ loop format weekday (suc m) fuel (pushed fs c)
  unfolding body
  copies fuel fs c q h = loop_by format weekday (suc m) fuel fs (moved fs) c h ∙ ground (arith, q)

  replaces :
      (fuel : ℕ) (fs : FlagScanner) (c d : ℕ) (r : Bytes)
      → At fs (c ∷ d ∷ r)
      → (c == b'%') ≡ true
      → (d == b'%') ≡ false
      → fs.has_flag ≡ false
      → loop format weekday (suc m) (suc (suc fuel)) fs
        ≡ loop format weekday (suc m) fuel (replaced fs (verb format weekday d))
  unfolding body
  replaces fuel fs c d r a p p' q =
      loop_by format weekday (suc m) (suc fuel) fs (flagged fs) c (next_flag m fs c d r a p p' q)
      ∙ loop_by format weekday (suc m) fuel (flagged fs) (moved (flagged fs)) d (
          next_plain m (flagged fs) d r
            (At-buf (moved fs) (d ∷ r) fs.buf true true (At-moved fs c (d ∷ r) a)) p')

  next_skips :
      (fs : FlagScanner) (c d : ℕ) (r : Bytes)
      → At fs (c ∷ d ∷ r)
      → (c == b'%') ≡ true
      → (d == b'%') ≡ true
      → length (c ∷ d ∷ r) ≤ m
      → next (suc m) fs ≡ next (suc m) (doubled fs)
  next_skips fs c d r a p p' h =
      let one : m ≡ suc (m - 1) = omega arith in
      next-doubled m fs c d r a p p'
      ∙ ap (λ f. next f (doubled fs)) one
      ∙ next_fuel (m - 1) m r (doubled fs) (At-doubled fs c d r a) refl (omega arith) (omega arith)

  loop-expand :
      (rest : Bytes) (fuel : ℕ) (fs : FlagScanner)
      → At fs rest
      → fs.has_flag ≡ false
      → length rest ≤ fuel
      → length rest ≤ m
      → loop format weekday (suc m) (suc fuel) fs ≡ some (fs.buf ++ expand format weekday rest)
  unfolding expand
  loop-expand [] fuel fs a q h k =
      loop_end format weekday (suc m) fuel fs _ 0 (next_end m fs a)
      ∙ ap some (sym (append-nil fs.buf))
  loop-expand (c ∷ []) zero fs a q h k = absurd (omega arith)
  loop-expand (c ∷ []) (suc fuel) fs a q h k =
      copies (suc fuel) fs c q (next_last m fs c a)
      ∙ loop-expand [] fuel (pushed fs c) (At-buf (moved fs) [] _ _ _ (At-moved fs c [] a)) q
          (omega arith) (omega arith)
      ∙ ap some (append_assoc fs.buf (c ∷ []) [])
  loop-expand (c ∷ d ∷ r) zero fs a q h k = absurd (omega arith)
  loop-expand (c ∷ d ∷ r) (suc zero) fs a q h k = absurd (omega arith)
  loop-expand (c ∷ d ∷ r) (suc (suc fuel)) fs a q h k = elim (Bool-cases (c == b'%')) [
    | inr p ↦
        copies (suc (suc fuel)) fs c q (next_plain m fs c (d ∷ r) a p)
        ∙ loop-expand (d ∷ r) (suc fuel) (pushed fs c)
            (At-buf (moved fs) (d ∷ r) _ _ _ (At-moved fs c (d ∷ r) a)) q (omega arith)
            (omega arith)
        ∙ ap some (append_assoc fs.buf (c ∷ []) (expand format weekday (d ∷ r)))
        ∙ ap (λ t. some (fs.buf ++ t)) (sym (expand_plain format weekday c d r p))
    | inl p ↦ elim (Bool-cases (d == b'%')) [
      | inl p' ↦
          loop_same format weekday (suc m) (suc (suc fuel)) fs (doubled fs)
            (next_skips fs c d r a p p' (omega arith))
          ∙ loop-expand r (suc (suc fuel)) (doubled fs) (At-doubled fs c d r a) refl (omega arith)
              (omega arith)
          ∙ ap some (append_assoc fs.buf (fs.flag ∷ []) (expand format weekday r))
          ∙ ap (λ t. some (fs.buf ++ (t ∷ expand format weekday r))) a.percent
          ∙ ap (λ t. some (fs.buf ++ t)) (sym (expand_doubled format weekday c d r p p'))
      | inr p' ↦
          replaces (suc fuel) fs c d r a p p' q
          ∙ loop-expand r fuel (replaced fs (verb format weekday d))
              (At-buf (moved (flagged fs)) r _ _ _ (
                At-moved (flagged fs) d r
                  (At-buf (moved fs) (d ∷ r) _ _ _ (At-moved fs c (d ∷ r) a))))
              refl (omega arith) (omega arith)
          ∙ ap some (append_assoc fs.buf (verb format weekday d) (expand format weekday r))
          ∙ ap (λ t. some (fs.buf ++ t)) (sym (expand_flag format weekday c d r p p'))
    ]
  ]

-- The scanner loop ends on every format, and gives the text with its flags replaced.
pub strftime-expand :
    (format : Bytes → Bytes) (weekday : ℕ) (cfmt : Bytes)
    → strftime format weekday cfmt ≡ some (expand format weekday cfmt)
unfolding strftime
strftime-expand format weekday cfmt =
    loop-expand format weekday (length cfmt) cfmt (length cfmt) (new_flag_scanner b'%' [] [] cfmt)
      (record { left = refl; size = omega arith; percent = refl; no_start = refl; no_end = refl })
      refl (omega arith) (omega arith)
