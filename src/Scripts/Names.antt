-- ===== src/Scripts/Names.antt =====
-- scripts.go: `ModuleNames`, the order in which the scripts are listed.
use runtimelua.Common.{
  ℕ, ◌<◌, ◌≡◌, sym, Bool, true, false, ◌&&◌, List, [], ◌∷◌, Bytes, codes, arith, ltb, if◌then◌else◌,
  All, All-mem, Bool-cases, ltb→lt, inl, inr, ap, ◌∙◌,
}
use runtimelua.Common.Text.{has_suffix, count_byte}
use mathlib.Core.Bool.{Bool-set}
use mathlib.Core.Logic.Or
use mathlib.Core.HLevel.{⊥_prop}
use mathlib.Core.List.{Mem, mem-cons, not-mem-nil}

unfoldable pub is_init : Bytes → Bool
is_init name = has_suffix name (codes "init")

-- `strings.Count(name, ".")`.
unfoldable pub depth : Bytes → ℕ
depth name = count_byte name b'.'

-- `ModuleNames.Less`, on the two names.
unfoldable pub less : Bytes → Bytes → Bool
less a b =
    let init = is_init a in
    if init && is_init b
    then ltb (depth a) (depth b)
    else if init
    then true
    else ltb (depth a) (depth b)

-- What its caller says: init scripts with ascending depth before all other scripts.
unfoldable pub before : Bytes → Bytes → Bool
before a b =
    if is_init a
    then (if is_init b then ltb (depth a) (depth b) else true)
    else if is_init b
    then false
    else ltb (depth a) (depth b)

-- A script that is no init script and lies less deep than an init script.
pub record Clash (a b : Bytes) : Type 0 where
  pub plain : is_init a ≡ false
  pub init : is_init b ≡ true
  pub shallow : depth a < depth b

-- `Less` is the order that its caller asks for, on every pair of names that is no clash.
pub less-before : (a b : Bytes) → ¬ Clash a b → less a b ≡ before a b
unfolding less before
less-before a b n = elim (Bool-cases (is_init a)) [
  | inl p ↦ ground (arith, p)
  | inr p ↦ elim (Bool-cases (is_init b)) [
    | inl q ↦ elim (Bool-cases (ltb (depth a) (depth b))) [
      | inl r ↦ absurd (n (record { plain = p; init = q; shallow = ltb→lt _ _ r }))
      | inr r ↦ rw (p, q) r
    ]
    | inr q ↦ ground (arith, p, q)
  ]
]

-- On a clash `Less` holds both ways, where the order that is asked for holds one way only.
pub less_both :
    (a b : Bytes)
    → Clash a b
    → (less a b ≡ true) × (less b a ≡ true) × (before a b ≡ false) × (before b a ≡ true)
unfolding less before
less_both a b c = ground (arith, c.plain, c.init, c.shallow)

-- In order by `Less`: no name is less than one that stands before it.
abbrev pub IsOrdered : List Bytes → Type 0
IsOrdered [] = Unit
IsOrdered (x ∷ xs) = All (λ y. less y x ≡ false) xs × IsOrdered xs

head_clash :
    (a b x : Bytes) (xs : List Bytes) → less b a ≡ true → a ≡ x → Mem b xs → IsOrdered (x ∷ xs) → ⊥
head_clash a b x xs h e m o =
    let quiet : less b x ≡ false = All-mem (λ y. less y x ≡ false) (λ y. Bool-set _ _) xs b o.0 m in
    cc (ap (less b) e)

-- A list of names that holds a clash is in no order by `Less`, so no sort of it can succeed.
pub Clash-unordered :
    (a b : Bytes) (xs : List Bytes) → Clash a b → Mem a xs → Mem b xs → ¬ IsOrdered xs
Clash-unordered a b [] c ma mb o = not-mem-nil ma
Clash-unordered a b (x ∷ xs) c ma mb o =
    let both = less_both a b c in
    Or.elim ⊥_prop (mem-cons.0 ma)
      (λ ea.
        Or.elim ⊥_prop (mem-cons.0 mb)
          (λ eb. absurd (omega (arith, c.shallow, ap depth (ea ∙ sym eb))))
          (λ mb'. head_clash a b x xs both.1 ea mb' o))
      (λ ma'.
        Or.elim ⊥_prop (mem-cons.0 mb) (λ eb. head_clash b a x xs both.0 eb ma' o)
          (λ mb'. Clash-unordered a b xs c ma' mb' o.1))
