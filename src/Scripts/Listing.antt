-- ===== src/Scripts/Listing.antt =====
-- The list of names and the map of files agree, and a file keeps its reload flag.
use runtimelua.Common.{
  ◌≡◌, refl, sym, ap, subst, ◌∙◌, ◌≢◌, ◌↔◌, ◌⊎◌, inl, inr, none, some, List, [], ◌∷◌, ◌++◌, Bytes,
  bytes_eq, bytes_eq_iff, bytes_eq_refl, arith, Bool-cases, Option-cases, Perm,
}
use mathlib.Core.List.{
  Mem, Nodup, Nodup-cons, Nodup-nil, perm_append_singleton, mem-cons, not-mem-nil,
}
use mathlib.Core.List.Perm
use mathlib.Core.Logic.Or
use mathlib.Core.HLevel.{¬_prop}
use runtimelua.Event.Object.{FileCache}
use runtimelua.Scripts.Registry.{
  ScriptModule, new_script_module, lookup, get, inherit, add, list, adds, get-add,
}

flag-add :
    (sort : List Bytes → List Bytes) (m m0 : FileCache) (sm : ScriptModule) (name : Bytes)
    → get name sm ≡ some m0
    → (m' : FileCache) × (get name (add sort m sm) ≡ some m')
      × (m'.hotfix_disabled ≡ m0.hotfix_disabled)
unfolding inherit
flag-add sort m m0 sm name h = elim (Bool-cases (bytes_eq m.name name)) [
  | inl e ↦
      let same : m.name ≡ name = (bytes_eq_iff m.name name).0 e in
      (
        inherit (some m0) m,
        ground (arith, get-add sort m sm name, e, same, ap (λ n. get n sm) same, h),
        refl,
      )
  | inr e ↦ (m0, ground (arith, get-add sort m sm name, e, h), refl)
]

-- Once a script is cached, no later version of its file changes whether it is reloaded: after any
-- additions its flag is the one that it had.
pub flag-adds :
    (sort : List Bytes → List Bytes) (ms : List FileCache) (m0 : FileCache) (sm : ScriptModule)
    (name : Bytes)
    → get name sm ≡ some m0
    → (m' : FileCache) × (get name (adds sort ms sm) ≡ some m')
      × (m'.hotfix_disabled ≡ m0.hotfix_disabled)
unfolding adds
flag-adds sort [] m0 sm name h = (m0, h, refl)
flag-adds sort (m ∷ ms) m0 sm name h =
    let (m1, h1, same) = flag-add sort m m0 sm name h in
    let (m2, h2, same') = flag-adds sort ms m1 (add sort m sm) name h1 in (m2, h2, same' ∙ same)

-- Each cached script is listed once, and nothing else is.
pub record IsRegistry (sm : ScriptModule) : Type 0 where
  pub once : Nodup (list sm)
  pub listed : (name : Bytes) → Mem name (list sm) ↔ (get name sm ≢ none)

pub new_script_module-IsRegistry : IsRegistry new_script_module
unfolding new_script_module list get lookup
new_script_module-IsRegistry = record {
  once = Nodup-nil;
  listed = λ name. (λ m. absurd (not-mem-nil m), λ h. absurd (h refl));
}

module _ (sort : List Bytes → List Bytes) (sort-perm : (xs : List Bytes) → Perm (sort xs) xs) where
  names-perm :
      (name : Bytes) (names : List Bytes) → Perm (sort (names ++ (name ∷ []))) (name ∷ names)
  names-perm name names = Perm.trans (sort-perm _) (perm_append_singleton name names)

  added : (m : FileCache) (sm : ScriptModule) → get m.name (add sort m sm) ≢ none
  added m sm h = ground (arith, get-add sort m sm m.name, bytes_eq_refl m.name, h)

  others :
      (m : FileCache) (sm : ScriptModule) (name : Bytes)
      → m.name ≢ name
      → get name (add sort m sm) ≡ get name sm
  others m sm name differ = ground (arith, get-add sort m sm name, bytes_eq_iff m.name name, differ)

  list_new :
      (m : FileCache) (sm : ScriptModule)
      → get m.name sm ≡ none
      → list (add sort m sm) ≡ sort (list sm ++ (m.name ∷ []))
  unfolding list add
  list_new m sm new = ground (arith, new)

  list_known :
      (m : FileCache) (sm : ScriptModule) {old : FileCache}
      → get m.name sm ≡ some old
      → list (add sort m sm) ≡ list sm
  unfolding list add
  list_known m sm known = ground (arith, known)

  -- A name has a file after `add` if it had one, or is the added one; and only then.
  has_file :
      (m : FileCache) (sm : ScriptModule) (name : Bytes)
      → (get name (add sort m sm) ≢ none) ↔ ((m.name ≡ name) ⊎ (get name sm ≢ none))
  has_file m sm name = (
    λ h. elim (Bool-cases (bytes_eq m.name name)) [
      | inl e ↦ inl ((bytes_eq_iff m.name name).0 e)
      | inr e ↦ inr (λ gone. h (ground (arith, get-add sort m sm name, e, gone)))
    ],
    elim [
      | inl e ↦ λ gone. added m sm (ap (λ n. get n (add sort m sm)) e ∙ gone)
      | inr h ↦ λ gone. elim (Bool-cases (bytes_eq m.name name)) [
        | inl e ↦ ground (arith, get-add sort m sm name, e, gone)
        | inr e ↦ h (ground (arith, get-add sort m sm name, e, gone))
      ]
    ],
  )

  in_list :
      (m : FileCache) (sm : ScriptModule) (name : Bytes)
      → IsRegistry sm
      → Mem name (m.name ∷ list sm)
      → get name (add sort m sm) ≢ none
  in_list m sm name r h =
      Or.elim ¬_prop (mem-cons.0 h) (λ e. (has_file m sm name).1 (inl (sym e)))
        (λ k. (has_file m sm name).1 (inr ((r.listed name).0 k)))

  -- `add` keeps that, whether the name is new or known.
  pub add-IsRegistry :
      (m : FileCache) (sm : ScriptModule) → IsRegistry sm → IsRegistry (add sort m sm)
  add-IsRegistry m sm r = elim (Option-cases (get m.name sm)) [
    | inl new ↦
        let perm = names-perm m.name (list sm) in
        record {
          once = rw (list_new m sm new) (
              Perm.nodup (Perm.symm perm)
                (Nodup-cons.1 (λ held. (r.listed m.name).0 held new, r.once)));
          listed = λ name. (
            λ held.
                in_list m sm name r
                  ((Perm.mem_iff perm).0 (subst (Mem name) (list_new m sm new) held)),
            λ h. rw (list_new m sm new) (
                (Perm.mem_iff perm).1 (elim ((has_file m sm name).0 h) [
                  | inl e ↦ mem-cons.1 (Or.inl (sym e))
                  | inr k ↦ mem-cons.1 (Or.inr ((r.listed name).1 k))
                ])),
          );
        }
    | inr (old, known) ↦ record {
      once = rw (list_known m sm known) r.once;
      listed = λ name. (
        λ held.
            (has_file m sm name).1
              (inr ((r.listed name).0 (subst (Mem name) (list_known m sm known) held))),
        λ h. rw (list_known m sm known) (elim ((has_file m sm name).0 h) [
          | inl e ↦ (r.listed name).1 (λ gone. ground (arith, known, ap (λ n. get n sm) e, gone))
          | inr k ↦ (r.listed name).1 k
        ]),
      );
    }
  ]
