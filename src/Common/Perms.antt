-- ===== src/Common/Perms.antt =====
-- A predicate of every element does not depend on the order.
use mathlib.Core.Path.{subst, sym}
use mathlib.Core.Logic.Or
use mathlib.Core.List.{
  List, [], ◌∷◌, Mem, Perm, mem-cons, not-mem-nil, mem-cons_self, mem-cons_of_mem,
}
use mathlib.Core.List.Perm
use runtimelua.Common.Lists.{All}

module _ {ℓ κ} {A : Type ℓ} (P : A → Type κ) (prop : (a : A) → IsProp (P a)) where
  pub All-mem : (xs : List A) (a : A) → All P xs → Mem a xs → P a
  All-mem [] a h m = absurd (not-mem-nil m)
  All-mem (x ∷ xs) a h m =
      Or.elim (prop a) (mem-cons.0 m) (λ e. subst P (sym e) h.0) (All-mem xs a h.1)

  All-of_mem : (xs : List A) → ((a : A) → Mem a xs → P a) → All P xs
  All-of_mem [] f = tt
  All-of_mem (x ∷ xs) f = (f x mem-cons_self, All-of_mem xs (λ a m. f a (mem-cons_of_mem x m)))

  pub All-perm : (xs ys : List A) → Perm xs ys → All P ys → All P xs
  All-perm xs ys p h = All-of_mem xs (λ a m. All-mem ys a h ((Perm.mem_iff p).0 m))
