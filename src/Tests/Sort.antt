-- ===== src/Tests/Sort.antt =====
-- An insertion sort by a key, as an instance of `Sorter`.
use runtimelua.Common.{
  ℕ, ◌≤◌, ap, List, [], ◌∷◌, arith, leb, if◌then◌else◌, Perm, Bool-cases, inl, inr,
}
use mathlib.Core.List.{Pairwise, Pairwise-cons, Pairwise-singleton, mem-cons}
use mathlib.Core.List.Perm
use mathlib.Core.Logic.Or
use native.Mathlib.Bridge.{le_prop}
use runtimelua.Runtime.Process.{Sorter}

module _ (key : ℕ → ℕ) where
  abbrev IsSorted : List ℕ → Type 0
  IsSorted = Pairwise (λ a b. key a ≤ key b)

  abbrev insert_by : ℕ → List ℕ → List ℕ
  insert_by a [] = a ∷ []
  insert_by a (x ∷ xs) =
      let rest = insert_by a xs in if leb (key a) (key x) then a ∷ x ∷ xs else x ∷ rest

  abbrev pub sort_by : List ℕ → List ℕ
  sort_by [] = []
  sort_by (x ∷ xs) = insert_by x (sort_by xs)

  insert_by-perm : (a : ℕ) (xs : List ℕ) → Perm (insert_by a xs) (a ∷ xs)
  insert_by-perm a [] = Perm.rfl
  insert_by-perm a (x ∷ xs) = elim (Bool-cases (leb (key a) (key x))) [
    | inl e ↦ rw e Perm.rfl
    | inr e ↦ rw e (Perm.trans (Perm.cons x (insert_by-perm a xs)) (Perm.swap a x xs))
  ]

  insert_by-IsSorted : (a : ℕ) (xs : List ℕ) → IsSorted xs → IsSorted (insert_by a xs)
  insert_by-IsSorted a [] s = Pairwise-singleton _ a
  insert_by-IsSorted a (x ∷ xs) s =
      let (below, s') = Pairwise-cons.0 s in
      elim (Bool-cases (leb (key a) (key x))) [
        | inl e ↦ rw e (
            Pairwise-cons.1 (
              λ b m.
                  Or.elim le_prop (mem-cons.0 m) (λ same. ground (arith, e, ap key same))
                    (λ m'. ground (arith, e, below _ m')),
              s,
            ))
        | inr e ↦ rw e (
            Pairwise-cons.1 (
              λ b m.
                  Or.elim le_prop (mem-cons.0 ((Perm.mem_iff (insert_by-perm a xs)).0 m))
                    (λ same. ground (arith, e, ap key same)) (λ m'. below _ m'),
              insert_by-IsSorted a xs s',
            ))
      ]

  pub sort_by-perm : (xs : List ℕ) → Perm (sort_by xs) xs
  sort_by-perm [] = Perm.rfl
  sort_by-perm (x ∷ xs) = Perm.trans (insert_by-perm x (sort_by xs)) (Perm.cons x (sort_by-perm xs))

  pub sort_by-IsSorted : (xs : List ℕ) → IsSorted (sort_by xs)
  sort_by-IsSorted [] = Pairwise.nil
  sort_by-IsSorted (x ∷ xs) = insert_by-IsSorted x (sort_by xs) (sort_by-IsSorted xs)

abbrev pub sorter : Sorter
sorter = record { sort = sort_by; sort-perm = sort_by-perm; sort-IsSorted = sort_by-IsSorted }
