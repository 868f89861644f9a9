-- ===== src/Common/Lists.antt =====
-- Lists measured and indexed by native numbers, under the library's names.
use Prim.Native.Nat.{ℕ, zero, suc, ◌+◌, ◌<◌}
use mathlib.Core.Path.{◌≡◌, refl, sym, ap, subst}
use mathlib.Core.Logic.{◌≢◌}
use mathlib.Core.List.{List, [], ◌∷◌, ◌++◌}
use mathlib.Core.Option.{Option, none, some}
use native.Mathlib.Omega.{arith}

module _ {ℓ} {A : Type ℓ} where
  abbrev pub length : List A → ℕ
  length [] = 0
  length (x ∷ xs) = suc (length xs)

  abbrev pub get_elem? : List A → ℕ → Option A
  get_elem? [] i = none
  get_elem? (x ∷ xs) zero = some x
  get_elem? (x ∷ xs) (suc i) = get_elem? xs i

  -- A write out of bounds changes nothing.
  abbrev pub set : List A → ℕ → A → List A
  set [] i v = []
  set (x ∷ xs) zero v = v ∷ xs
  set (x ∷ xs) (suc i) v = x ∷ set xs i v

  abbrev pub replicate : ℕ → A → List A
  replicate zero a = []
  replicate (suc n) a = a ∷ replicate n a

  pub length-append : (xs ys : List A) → length (xs ++ ys) ≡ length xs + length ys
  length-append [] ys = omega arith
  length-append (x ∷ xs) ys = omega (arith, length-append xs ys)

module _ {ℓ} {A : Type ℓ} where
  pub length-set : (xs : List A) (i : ℕ) (v : A) → length (set xs i v) ≡ length xs
  length-set [] i v = refl
  length-set (x ∷ xs) zero v = refl
  length-set (x ∷ xs) (suc i) v = ap suc (length-set xs i v)

  pub get_elem?-set_self :
      (xs : List A) (i : ℕ) (v : A) → i < length xs → get_elem? (set xs i v) i ≡ some v
  get_elem?-set_self [] i v h = elim h [ ]
  get_elem?-set_self (x ∷ xs) zero v h = refl
  get_elem?-set_self (x ∷ xs) (suc i) v h = get_elem?-set_self xs i v (omega arith)

  pub get_elem?-set_ne :
      (xs : List A) {i j : ℕ} (v : A) → i ≢ j → get_elem? (set xs i v) j ≡ get_elem? xs j
  get_elem?-set_ne [] v h = refl
  get_elem?-set_ne (x ∷ xs) {i = zero} {j = zero} v h = absurd (h refl)
  get_elem?-set_ne (x ∷ xs) {i = zero} {j = suc j} v h = refl
  get_elem?-set_ne (x ∷ xs) {i = suc i} {j = zero} v h = refl
  get_elem?-set_ne (x ∷ xs) {i = suc i} {j = suc j} v h = get_elem?-set_ne xs v (λ e. h (ap suc e))

  -- An index in range has an element, and an index with an element is in range.
  pub lt-of_get_elem? : (xs : List A) (i : ℕ) (a : A) → get_elem? xs i ≡ some a → i < length xs
  lt-of_get_elem? [] i a h = cc
  lt-of_get_elem? (x ∷ xs) zero a h = omega arith
  lt-of_get_elem? (x ∷ xs) (suc i) a h = omega (arith, lt-of_get_elem? xs i a h)

  pub get_elem?-of_lt : (xs : List A) (i : ℕ) → i < length xs → (a : A) × (get_elem? xs i ≡ some a)
  get_elem?-of_lt [] i h = elim h [ ]
  get_elem?-of_lt (x ∷ xs) zero h = (x, refl)
  get_elem?-of_lt (x ∷ xs) (suc i) h = get_elem?-of_lt xs i (omega arith)

  -- Every element satisfies the predicate.
  abbrev pub All {κ} : (A → Type κ) → List A → Type κ
  All P [] = Unit
  All P (x ∷ xs) = P x × All P xs

  pub All-append {κ} : (P : A → Type κ) (xs ys : List A) → All P xs → All P ys → All P (xs ++ ys)
  All-append P [] ys hx hy = hy
  All-append P (x ∷ xs) ys hx hy = (hx.0, All-append P xs ys hx.1 hy)

  pub All-mono {κ μ} :
      (P : A → Type κ) (Q : A → Type μ)
      → ((a : A) → P a → Q a)
      → (xs : List A) → All P xs
      → All Q xs
  All-mono P Q f [] h = tt
  All-mono P Q f (x ∷ xs) h = (f x h.0, All-mono P Q f xs h.1)

  pub get_elem?-append_length :
      (xs : List A) (a : A) → get_elem? (xs ++ (a ∷ [])) (length xs) ≡ some a
  get_elem?-append_length [] a = refl
  get_elem?-append_length (x ∷ xs) a = get_elem?-append_length xs a

  pub get_elem?-append_left :
      (xs ys : List A) (i : ℕ) (a : A) → get_elem? xs i ≡ some a → get_elem? (xs ++ ys) i ≡ some a
  get_elem?-append_left [] ys i a h = cc
  get_elem?-append_left (x ∷ xs) ys zero a h = h
  get_elem?-append_left (x ∷ xs) ys (suc i) a h = get_elem?-append_left xs ys i a h

  pub All-set {κ} :
      (P : A → Type κ) (xs : List A) (i : ℕ) (v : A) → P v → All P xs → All P (set xs i v)
  All-set P [] i v p h = h
  All-set P (x ∷ xs) zero v p h = (p, h.1)
  All-set P (x ∷ xs) (suc i) v p h = (h.0, All-set P xs i v p h.1)

  pub All-get_elem? {κ} :
      (P : A → Type κ) (xs : List A) (i : ℕ) (a : A) → All P xs → get_elem? xs i ≡ some a → P a
  All-get_elem? P [] i a h e = absurd (cc)
  All-get_elem? P (x ∷ xs) zero a h e = let same : x ≡ a = cc in subst P same h.0
  All-get_elem? P (x ∷ xs) (suc i) a h e = All-get_elem? P xs i a h.1 e

module _ {ℓ} {A : Type ℓ} where
  abbrev pub take : ℕ → List A → List A
  take zero xs = []
  take (suc n) [] = []
  take (suc n) (x ∷ xs) = x ∷ take n xs

  abbrev pub drop : ℕ → List A → List A
  drop zero xs = xs
  drop (suc n) [] = []
  drop (suc n) (x ∷ xs) = drop n xs

module _ {ℓ} {A : Type ℓ} where
  -- Writing what is there already, and writing twice.
  pub set-get_elem? : (xs : List A) (i : ℕ) (a : A) → get_elem? xs i ≡ some a → set xs i a ≡ xs
  set-get_elem? [] i a h = refl
  set-get_elem? (x ∷ xs) zero a h = let same : x ≡ a = cc in ap (λ y. y ∷ xs) (sym same)
  set-get_elem? (x ∷ xs) (suc i) a h = ap (λ ys. x ∷ ys) (set-get_elem? xs i a h)

  pub set-set : (xs : List A) (i : ℕ) (a b : A) → set (set xs i a) i b ≡ set xs i b
  set-set [] i a b = refl
  set-set (x ∷ xs) zero a b = refl
  set-set (x ∷ xs) (suc i) a b = ap (λ ys. x ∷ ys) (set-set xs i a b)

-- The proofs of all elements, one after the other.
infixr 4 ◌&◌
pub ◌&◌ : {A B : Type 0} → A → B → A × B
a & b = (a, b)
