-- ===== src/Auxlib/Scanner.antt =====
-- The scanner of `strftime`: what one call of `Next` and one round of the loop do to it.
use runtimelua.Common.{
  ℕ, zero, suc, ◌+◌, ◌≤◌, ◌≡◌, refl, sym, ◌∙◌, Bool, true, false, some, [], ◌∷◌, ◌++◌, arith, Bytes,
  ◌==◌, length, get_elem?, drop, Bool-cases, inl, inr,
}
use runtimelua.Auxlib.Strftime.{FlagScanner, next, body, loop}
use mathlib.Core.List.{append-nil}

-- The scanner stands before `rest`.
pub record At (fs : FlagScanner) (rest : Bytes) : Type 0 where
  pub left : drop fs.pos fs.str ≡ rest
  pub size : fs.pos + length rest ≡ fs.len
  pub percent : fs.flag ≡ b'%'
  pub no_start : fs.start ≡ []
  pub no_end : fs.end ≡ []

drop-cons :
    (n : ℕ) (xs r : Bytes) (c : ℕ)
    → drop n xs ≡ c ∷ r
    → (get_elem? xs n ≡ some c) × (drop (suc n) xs ≡ r)
drop-cons zero [] r c h = absurd (cc)
drop-cons zero (x ∷ xs) r c h = (cc, cc)
drop-cons (suc n) [] r c h = absurd (cc)
drop-cons (suc n) (x ∷ xs) r c h = drop-cons n xs r c h

-- One byte read: what stands at the position, and what comes behind it.
here :
    (fs : FlagScanner) (c : ℕ) (r : Bytes)
    → At fs (c ∷ r)
    → (get_elem? fs.str fs.pos ≡ some c) × (drop (fs.pos + 1) fs.str ≡ r)
here fs c r a =
    let (at, behind) = drop-cons fs.pos fs.str r c a.left in
    (at, let e : fs.pos + 1 ≡ suc fs.pos = omega arith in rw e behind)

there :
    (fs : FlagScanner) (c d : ℕ) (r : Bytes)
    → At fs (c ∷ d ∷ r)
    → (get_elem? fs.str (fs.pos + 1) ≡ some d) × (drop (fs.pos + 2) fs.str ≡ r)
there fs c d r a =
    let (at, behind) = drop-cons (fs.pos + 1) fs.str r d (here fs c (d ∷ r) a).1 in
    (at, let e : fs.pos + 2 ≡ suc (fs.pos + 1) = omega arith in rw e behind)

-- The scanner behind a doubled flag, where `Next` calls itself.
abbrev pub doubled : FlagScanner → FlagScanner
doubled fs = record fs {
  buf = fs.buf ++ (fs.flag ∷ []);
  pos = fs.pos + 2;
  has_flag = false;
  change_flag = false;
}

pub At-doubled : (fs : FlagScanner) (c d : ℕ) (r : Bytes) → At fs (c ∷ d ∷ r) → At (doubled fs) r
At-doubled fs c d r a = record {
  left = (there fs c d r a).1;
  size = omega (arith, a.size);
  percent = a.percent;
  no_start = a.no_start;
  no_end = a.no_end;
}

-- `Next` at a byte that is no doubled flag.
abbrev pub moved : FlagScanner → FlagScanner
moved fs = record fs { pos = fs.pos + 1; change_flag = false }

pub At-moved : (fs : FlagScanner) (c : ℕ) (r : Bytes) → At fs (c ∷ r) → At (moved fs) r
At-moved fs c r a = record {
  left = (here fs c r a).1;
  size = omega (arith, a.size);
  percent = a.percent;
  no_start = a.no_start;
  no_end = a.no_end;
}

module _ (fuel : ℕ) (fs : FlagScanner) where
  pub next_end : At fs [] → next (suc fuel) fs ≡ some (record fs { change_flag = false }, 0, true)
  unfolding next
  next_end a = ground (arith, a.size, a.no_end, append-nil fs.buf)

  pub next_plain :
      (c : ℕ) (r : Bytes)
      → At fs (c ∷ r)
      → (c == b'%') ≡ false
      → next (suc fuel) fs ≡ some (moved fs, c, false)
  unfolding next
  next_plain c r a p = ground (arith, (here fs c r a).0, a.percent, a.size)

  pub next_last : (c : ℕ) → At fs (c ∷ []) → next (suc fuel) fs ≡ some (moved fs, c, false)
  unfolding next
  next_last c a = ground (arith, (here fs c [] a).0, a.percent, a.size)

  pub next-doubled :
      (c d : ℕ) (r : Bytes)
      → At fs (c ∷ d ∷ r)
      → (c == b'%') ≡ true
      → (d == b'%') ≡ true
      → next (suc fuel) fs ≡ next fuel (doubled fs)
  unfolding next
  next-doubled c d r a p q =
      ground (arith, (here fs c (d ∷ r) a).0, (there fs c d r a).0, a.percent, a.size)

  pub next_flag :
      (c d : ℕ) (r : Bytes)
      → At fs (c ∷ d ∷ r)
      → (c == b'%') ≡ true
      → (d == b'%') ≡ false
      → fs.has_flag ≡ false
      → next (suc fuel) fs
        ≡ some (record (moved fs) { change_flag = true; has_flag = true }, c, false)
  unfolding next
  next_flag c d r a p q h = ground (
    arith,
    (here fs c (d ∷ r) a).0,
    (there fs c d r a).0,
    a.percent,
    a.size,
    a.no_start,
    append-nil fs.buf,
  )

-- The fuel of `Next` does not show, once it exceeds the rest of the text.
pub next_fuel :
    (f g : ℕ) (rest : Bytes) (fs : FlagScanner)
    → At fs rest
    → fs.has_flag ≡ false
    → length rest ≤ f
    → length rest ≤ g
    → next (suc f) fs ≡ next (suc g) fs
next_fuel f g [] fs a q h k = next_end f fs a ∙ sym (next_end g fs a)
next_fuel f g (c ∷ []) fs a q h k = next_last f fs c a ∙ sym (next_last g fs c a)
next_fuel zero g (c ∷ d ∷ r) fs a q h k = absurd (omega arith)
next_fuel (suc f) zero (c ∷ d ∷ r) fs a q h k = absurd (omega arith)
next_fuel (suc f) (suc g) (c ∷ d ∷ r) fs a q h k = elim (Bool-cases (c == b'%')) [
  | inr p ↦ next_plain (suc f) fs c (d ∷ r) a p ∙ sym (next_plain (suc g) fs c (d ∷ r) a p)
  | inl p ↦ elim (Bool-cases (d == b'%')) [
    | inl p' ↦
        next-doubled (suc f) fs c d r a p p'
        ∙ next_fuel f g r (doubled fs) (At-doubled fs c d r a) refl (omega arith) (omega arith)
        ∙ sym (next-doubled (suc g) fs c d r a p p')
    | inr p' ↦ next_flag (suc f) fs c d r a p p' q ∙ sym (next_flag (suc g) fs c d r a p p' q)
  ]
]

module _ (format : Bytes → Bytes) (weekday n : ℕ) where
  pub loop_by :
      (fuel : ℕ) (fs sc : FlagScanner) (c : ℕ)
      → next n fs ≡ some (sc, c, false)
      → loop format weekday n (suc fuel) fs ≡ loop format weekday n fuel (body format weekday sc c)
  unfolding loop
  loop_by fuel fs sc c h = rw (h, loop) refl

  pub loop_end :
      (fuel : ℕ) (fs sc : FlagScanner) (c : ℕ)
      → next n fs ≡ some (sc, c, true)
      → loop format weekday n (suc fuel) fs ≡ some sc.buf
  unfolding loop
  loop_end fuel fs sc c h = rw (h, loop) refl

  pub loop_same :
      (fuel : ℕ) (fs sc : FlagScanner)
      → next n fs ≡ next n sc
      → loop format weekday n (suc fuel) fs ≡ loop format weekday n (suc fuel) sc
  unfolding loop
  loop_same fuel fs sc h = rw (h, loop) refl

-- The scanner after a byte that was copied, and after a flag that was replaced by `v`.
abbrev pub pushed : FlagScanner → ℕ → FlagScanner
pushed fs c = record (moved fs) { buf = fs.buf ++ (c ∷ []) }

abbrev pub flagged : FlagScanner → FlagScanner
flagged fs = record (moved fs) { change_flag = true; has_flag = true }

abbrev pub replaced : FlagScanner → Bytes → FlagScanner
replaced fs v = record (moved (flagged fs)) { buf = fs.buf ++ v; has_flag = false }

pub At-buf :
    (fs : FlagScanner) (rest b : Bytes) (h k : Bool)
    → At fs rest
    → At (record fs { buf = b; has_flag = h; change_flag = k }) rest
At-buf fs rest b h k a = record {
  left = a.left;
  size = a.size;
  percent = a.percent;
  no_start = a.no_start;
  no_end = a.no_end;
}
